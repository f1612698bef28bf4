-- ===== src/Gguf/Contents.antt =====
-- What the object of src/gguf.h holds after `parse` of a written file.
use qwen_kernel.Prelude.{
  ◌+◌, ◌-◌, ◌*◌, ◌/◌, ◌%◌, ◌^◌, ◌≤◌, ◌<◌, ◌≡◌, ◌∙◌, ◌∷◌, ℕ, refl, ap, subst, Bool, true, Option,
  none, some, List, [], map, arith, length, get_or, All,
}
use qwen_kernel.Gguf.{got}
use qwen_kernel.Gguf.Directory.{
  Directory, Keys, Tensor, align_up, find, pad_dims, parse, place_all, total_key,
}
use qwen_kernel.Gguf.Entries.{
  align_at, align_step, align_up-Aligned, alignment_of, alignment_of_positive, count_at, count_step,
  int_at, int_step, kvs-last_of, scalar_at, str_at, str_step, tensor_at, total_step,
}
use qwen_kernel.Gguf.Lookups.{find-put, last_of, loop-last_of, or_else}
use qwen_kernel.Gguf.RoundTrip.{
  FitsInfo, Info, file_bytes, header_size, parse-file_bytes, tensor_of,
}
use qwen_kernel.Gguf.Write.{FitsKv, Value, cursor, note_all}

-- The object after a file with these entries and a header of `size` bytes, from what it was.
pub record HasParsed (counting : Bool) (kvs : List (List ℕ × Value)) (infos : List Info) (size : ℕ)
    (old new : Directory) : Type 0 where
  pub ints :
      (key : List ℕ)
      → find key new.keys.kv_int ≡ or_else (last_of (int_at key) kvs) (find key old.keys.kv_int)
  pub strs :
      (key : List ℕ)
      → find key new.keys.kv_str ≡ or_else (last_of (str_at key) kvs) (find key old.keys.kv_str)
  pub alignment : new.keys.alignment ≡ alignment_of kvs
  pub total :
      some new.keys.split_total
      ≡ or_else (last_of (scalar_at total_key) kvs) (some old.keys.split_total)
  pub count :
      some new.keys.split_count
      ≡ or_else (last_of (count_at counting) kvs) (some old.keys.split_count)
  pub blocks : ℕ
  pub behind : size ≤ blocks * alignment_of kvs
  pub next : blocks * alignment_of kvs < size + alignment_of kvs
  pub tensors :
      (name : List ℕ)
      → find name new.tensors
        ≡ or_else
            (last_of (tensor_at (blocks * alignment_of kvs) name) infos)
            (find name old.tensors)

pad_dims-get_or :
    (ds : List ℕ)
    → pad_dims 4 ds ≡ get_or ds 0 1 ∷ get_or ds 1 1 ∷ get_or ds 2 1 ∷ get_or ds 3 1 ∷ []
unfolding pad_dims
pad_dims-get_or [] = refl
pad_dims-get_or (a ∷ []) = refl
pad_dims-get_or (a ∷ b ∷ []) = refl
pad_dims-get_or (a ∷ b ∷ e ∷ []) = refl
pad_dims-get_or (a ∷ b ∷ e ∷ f ∷ ds) = refl

-- The data section and every tensor in it lie within 64 bits.
abbrev pub Reachable : ℕ → Info → Type 0
Reachable limit i = limit + i.place ≤ 18446744073709551616

placed : ℕ → Info → List (List ℕ × Tensor) → List (List ℕ × Tensor)
placed start i m = place_all start (tensor_of i ∷ []) m

find-placed :
    (start limit : ℕ) (name : List ℕ)
    → start < limit
    → (i : Info) (m : List (List ℕ × Tensor)) → Reachable limit i
    → find name (placed start i m) ≡ or_else (tensor_at start name i) (find name m)
unfolding placed place_all
find-placed start limit name h i m r =
    let fits : (start + i.place) % 18446744073709551616 ≡ start + i.place = omega arith in
    rw (fits, pad_dims-get_or i.dims)
      (find-put name i.name
        (record {
          type = i.type;
          ne = get_or i.dims 0 1 ∷ get_or i.dims 1 1 ∷ get_or i.dims 2 1 ∷ get_or i.dims 3 1 ∷ [];
          offset = start + i.place;
        })
        m)

find-place_all :
    (start limit : ℕ) (name : List ℕ) (infos : List Info) (m : List (List ℕ × Tensor))
    → start < limit
    → All (Reachable limit) infos
    → find name (place_all start (map tensor_of infos) m)
      ≡ or_else (last_of (tensor_at start name) infos) (find name m)
unfolding placed place_all
find-place_all start limit name infos m h r =
    loop-last_of (Reachable limit) (placed start) (λ xs. place_all start (map tensor_of xs))
      (find name) (tensor_at start name) (λ m. refl) (λ a xs m. refl)
      (find-placed start limit name h) infos m r

some_injective : {V : Type 0} (a b : V) → some a ≡ some b → a ≡ b
some_injective a b h = cc

-- A GGUF file of version 2 or more whose numbers and lengths fit their fields, with scalar and
-- string key-values and tensor infos of at most four dimensions, written in the file's layout with
-- anything behind it, is parsed when its infos can be allocated and its header, alignment and
-- tensor offsets do not add up beyond 2^64: a lookup then finds, of the file's integers, strings
-- and tensors of that name, the last one, else what an earlier shard left; the alignment is the
-- last that is not 0, else 32; the split counts are the last ones, the shard count in 16 bits and
-- only when the caller asks for it; and each tensor lies at its offset behind the first multiple
-- of the alignment that is not below the header's size.
pub parse-HasParsed :
    (room : ℕ → Bool) (counting : Bool) (d : Directory) (ver : ℕ) (kvs : List (List ℕ × Value))
    (infos : List Info) (rest : List ℕ)
    → 2 ≤ ver
    → ver < 256 ^ 4
    → length infos < 256 ^ 8
    → length kvs < 256 ^ 8
    → All FitsKv kvs
    → All FitsInfo infos
    → room (length infos) ≡ true
    → header_size kvs infos + alignment_of kvs ≤ 18446744073709551616
    → All (Reachable (header_size kvs infos + alignment_of kvs)) infos
    → (new : Directory) × ((parse room counting d (file_bytes ver kvs infos rest)
          ≡ got (some new) (cursor (header_size kvs infos) rest))
        × HasParsed counting kvs infos (header_size kvs infos) d new)
parse-HasParsed room counting d ver kvs infos rest new v n k fit_kvs fit_infos held fits reach =
    let keys0 : Keys = record (d.keys) { alignment = 32 } in
    let size = header_size kvs infos in
    let a = alignment_of kvs in
    let keys = note_all counting kvs keys0 in
    let aligned : keys.alignment ≡ a = some_injective keys.alignment a (
      kvs-last_of counting (λ m. some m.alignment) align_at (align_step counting) kvs keys0 fit_kvs
      ∙ or_default (last_of align_at kvs)) in
    let (up, (behind, next)) = align_up-Aligned a size (alignment_of_positive kvs) fits in
    let start : align_up keys.alignment size ≡ (size + a - 1) / a * a =
      ap (λ x. align_up x size) aligned ∙ up in
    (
      _,
      (
        parse-file_bytes room counting d ver kvs infos rest new v n k fit_kvs fit_infos held,
        record {
          ints = λ key.
              kvs-last_of counting (λ m. find key m.kv_int) (int_at key) (int_step counting key) kvs
                keys0 fit_kvs;
          strs = λ key.
              kvs-last_of counting (λ m. find key m.kv_str) (str_at key) (str_step counting key) kvs
                keys0 fit_kvs;
          alignment = aligned;
          total =
              kvs-last_of counting (λ m. some m.split_total) (scalar_at total_key)
                (total_step counting) kvs keys0 fit_kvs;
          count =
              kvs-last_of counting (λ m. some m.split_count) (count_at counting)
                (count_step counting) kvs keys0 fit_kvs;
          blocks = (size + a - 1) / a;
          behind = subst (λ x. size ≤ x) up behind;
          next = subst (λ x. x < size + a) up next;
          tensors = λ name.
              ap (λ x. find name (place_all x (map tensor_of infos) d.tensors)) start
              ∙ find-place_all ((size + a - 1) / a * a) (size + a) name infos d.tensors
                  (subst (λ x. x < size + a) up next) reach;
        },
      ),
    )
  where
    or_default : (o : Option ℕ) → or_else o (some 32) ≡ some (elim o [ none ↦ 32 | some x ↦ x ])
    or_default none = refl
    or_default (some x) = refl
