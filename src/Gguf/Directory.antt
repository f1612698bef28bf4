-- ===== src/Gguf/Directory.antt =====
-- The GGUF directory of src/gguf.h: key-values, tensor infos, `parse`.
use qwen_kernel.Prelude.{
  ◌+◌, ◌-◌, ◌*◌, ◌/◌, ◌%◌, ◌&&◌, ◌||◌, ◌∷◌, ◌==◌, if◌then◌else◌, ℕ, zero, suc, min, Bool, true,
  false, not, Option, none, some, List, [], ltb, leb, length, take, drop,
}
use qwen_kernel.Gguf.{Cursor, Read, got, no_memory, rd, rd_str, skip_value, ◌>=>◌}

-- std::map with byte strings as keys.
unfoldable pub same_str : List ℕ → List ℕ → Bool
same_str [] [] = true
same_str [] (y ∷ ys) = false
same_str (x ∷ xs) [] = false
same_str (x ∷ xs) (y ∷ ys) = x == y && same_str xs ys

unfoldable pub put : {V : Type 0} → List ℕ → V → List (List ℕ × V) → List (List ℕ × V)
unfolding same_str
put key v [] = (key, v) ∷ []
put key v (e ∷ m) = let later = put key v m in if same_str key e.0 then (key, v) ∷ m else e ∷ later

unfoldable pub find : {V : Type 0} → List ℕ → List (List ℕ × V) → Option V
unfolding same_str
find key [] = none
find key (e ∷ m) = let later = find key m in if same_str key e.0 then some e.1 else later

-- "general.alignment", "split.count" and "split.tensors.count".
abbrev pub alignment_key : List ℕ
alignment_key =
    103 ∷ 101 ∷ 110 ∷ 101 ∷ 114 ∷ 97 ∷ 108 ∷ 46 ∷ 97 ∷ 108 ∷ 105 ∷ 103 ∷ 110 ∷ 109 ∷ 101 ∷ 110 ∷ 116
    ∷ []

abbrev pub count_key : List ℕ
count_key = 115 ∷ 112 ∷ 108 ∷ 105 ∷ 116 ∷ 46 ∷ 99 ∷ 111 ∷ 117 ∷ 110 ∷ 116 ∷ []

abbrev pub total_key : List ℕ
total_key =
    115 ∷ 112 ∷ 108 ∷ 105 ∷ 116 ∷ 46 ∷ 116 ∷ 101 ∷ 110 ∷ 115 ∷ 111 ∷ 114 ∷ 115 ∷ 46 ∷ 99 ∷ 111 ∷ 117
    ∷ 110 ∷ 116 ∷ []

-- The members that the key-values set; split_count is *splitCountOut.
pub record Keys : Type 0 where
  pub alignment : ℕ
  pub split_count : ℕ
  pub split_total : ℕ
  pub kv_int : List (List ℕ × ℕ)
  pub kv_str : List (List ℕ × List ℕ)

-- What one key-value that is no string sets; splitCountOut is given when the caller is counting.
unfoldable pub note_int : Bool → List ℕ → ℕ → ℕ → Keys → Keys
unfolding same_str put
note_int counting key t v m = record m {
  kv_int = if leb t 5 || (t == 7) || (t == 10) || (t == 11) then put key v m.kv_int else m.kv_int;
  alignment = if same_str key alignment_key && not (v == 0) then v else m.alignment;
  split_count = if same_str key count_key && counting then v % 65536 else m.split_count;
  split_total = if same_str key total_key then v else m.split_total;
}

unfoldable pub note_str : List ℕ → List ℕ → Keys → Keys
unfolding put
note_str key s m = record m { kv_str = put key s m.kv_str }

-- One turn of the key-value loop; a value is skipped with fuel for every byte that is left.
unfoldable pub read_kv : Bool → Keys → Cursor → Read Keys
unfolding rd rd_str skip_value note_int note_str
read_kv counting m c = rd_str c >=> λ key c1. rd 4 c1 >=> λ t c2.
    (if t == 8
      then (rd_str c2 >=> λ s c3. got (note_str key s m) c3)
      else (skip_value (suc (length c2.rest)) t c2 >=> λ v c3.
          got (note_int counting key t v m) c3))

unfoldable pub read_kvs : Bool → ℕ → Keys → Cursor → Read Keys
unfolding read_kv
read_kvs counting zero m c = got m c
read_kvs counting (suc n) m c = read_kv counting m c >=> λ m1 c1. read_kvs counting n m1 c1

-- GgufTensor; `offset` is the tensor's offset in the data section.
pub record Tensor : Type 0 where
  pub type : ℕ
  pub ne : List ℕ
  pub offset : ℕ

-- The loop over the dimensions, the first four of them.
unfoldable pub read_dims : ℕ → Cursor → Read (List ℕ)
unfolding rd
read_dims zero c = got [] c
read_dims (suc n) c = rd 8 c >=> λ d c1. read_dims n c1 >=> λ ds c2. got (d ∷ ds) c2

-- ne[4] = {1, 1, 1, 1} with the first entries overwritten.
unfoldable pub pad_dims : ℕ → List ℕ → List ℕ
pad_dims zero ds = []
pad_dims (suc n) [] = 1 ∷ pad_dims n []
pad_dims (suc n) (d ∷ ds) = d ∷ pad_dims n ds

unfoldable pub read_info : Cursor → Read (List ℕ × Tensor)
unfolding rd rd_str read_dims pad_dims
read_info c = rd_str c >=> λ name c1. rd 4 c1 >=> λ nd c2. read_dims (min nd 4) c2 >=> λ ds c3.
    rd 4 c3 >=> λ t c4.
    rd 8 c4 >=> λ off c5. got (name, record { type = t; ne = pad_dims 4 ds; offset = off }) c5

unfoldable pub read_infos : ℕ → Cursor → Read (List (List ℕ × Tensor))
unfolding read_info
read_infos zero c = got [] c
read_infos (suc n) c = read_info c >=> λ i c1. read_infos n c1 >=> λ is c2. got (i ∷ is) c2

-- What `parse` leaves in the Gguf object: the members, and tensors_ with the place of each
-- tensor's data in the mapping.
pub record Directory : Type 0 where
  pub keys : Keys
  pub tensors : List (List ℕ × Tensor)

-- The place of a tensor's data is an address from the start of the mapping, in 64 bits.
unfoldable pub place_all :
    ℕ → List (List ℕ × Tensor) → List (List ℕ × Tensor) → List (List ℕ × Tensor)
unfolding put
place_all start [] m = m
place_all start (i ∷ is) m =
    place_all start is
      (put i.0 (record (i.1) { offset = (start + i.1.offset) % 18446744073709551616 }) m)

-- "GGUF".
abbrev pub magic : List ℕ
magic = 71 ∷ 71 ∷ 85 ∷ 70 ∷ []

-- dataStart, in uint64_t.
abbrev pub align_up : ℕ → ℕ → ℕ
align_up a p = (p + a - 1) % 18446744073709551616 / a * a % 18446744073709551616

-- parse, of one mapped file, into an object that may hold earlier shards; `none` is false. `room`
-- says whether a vector of so many tensor infos can be allocated.
unfoldable pub parse : (ℕ → Bool) → Bool → Directory → List ℕ → Read (Option Directory)
unfolding rd read_kvs read_infos place_all same_str
parse room counting d file =
    if ltb (length file) 24 || not (same_str (take 4 file) magic)
    then got none (record { pos = 0; rest = file })
    else (rd 4 (record { pos = 4; rest = drop 4 file }) >=> λ ver c1.
        if ltb ver 2
        then got none c1
        else (rd 8 c1 >=> λ n_tensors c2. rd 8 c2 >=> λ n_kv c3.
            read_kvs counting n_kv (record (d.keys) { alignment = 32 }) c3 >=> λ keys c4.
            if room n_tensors
            then (read_infos n_tensors c4 >=> λ infos c5.
                got
                  (some (record {
                    keys = keys;
                    tensors = place_all (align_up keys.alignment c5.pos) infos d.tensors;
                  }))
                  c5)
            else no_memory))

-- kvInt and kvStr.
unfoldable pub kv_int_or : Directory → List ℕ → ℕ → ℕ
unfolding find
kv_int_or d key def = elim (find key d.keys.kv_int) [ none ↦ def | some v ↦ v ]

unfoldable pub kv_str_or : Directory → List ℕ → List ℕ → List ℕ
unfolding find
kv_str_or d key def = elim (find key d.keys.kv_str) [ none ↦ def | some s ↦ s ]
