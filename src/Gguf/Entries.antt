-- ===== src/Gguf/Entries.antt =====
-- What lookups in the object of src/gguf.h find after the entries of a file: of entries with one
-- key the last counts, and an entry of an earlier shard where the file has none.
use native.Mathlib.Nat.{mod-add-div', mod-lt}
use qwen_kernel.Prelude.{
  ◌+◌, ◌-◌, ◌*◌, ◌/◌, ◌%◌, ◌≤◌, ◌<◌, ◌≡◌, ◌∙◌, ◌&&◌, ◌||◌, ◌∷◌, ◌==◌, if◌then◌else◌, ℕ, refl, inl,
  inr, Bool, not, Option, none, some, List, [], arith, leb, Bool-cases, Option-cases, get_or, All,
}
use qwen_kernel.Gguf.{scalar_width}
use qwen_kernel.Gguf.Directory.{
  Keys, Tensor, align_up, alignment_key, count_key, find, note_int, note_str, same_str, total_key,
}
use qwen_kernel.Gguf.Lookups.{find-put, last_of, loop-last_of, or_else}
use qwen_kernel.Gguf.RoundTrip.{Info}
use qwen_kernel.Gguf.Write.{FitsKv, Value, note, note_all, scalar, text}

-- What single entries say of a key: an integer or Boolean, a string, an alignment that is not 0.
abbrev pub int_at : List ℕ → List ℕ × Value → Option ℕ
int_at key (k, scalar t w v) =
    if same_str key k && (not (t == 6) && not (t == 12)) then some v else none
int_at key (k, text s) = none

abbrev pub str_at : List ℕ → List ℕ × Value → Option (List ℕ)
str_at key (k, scalar t w v) = none
str_at key (k, text s) = if same_str key k then some s else none

abbrev pub align_at : List ℕ × Value → Option ℕ
align_at (k, scalar t w v) = if same_str k alignment_key && not (v == 0) then some v else none
align_at (k, text s) = none

abbrev pub scalar_at : List ℕ → List ℕ × Value → Option ℕ
scalar_at key (k, scalar t w v) = if same_str k key then some v else none
scalar_at key (k, text s) = none

-- The alignment that the file asks for.
abbrev pub alignment_of : List (List ℕ × Value) → ℕ
alignment_of kvs = elim (last_of align_at kvs) [ none ↦ 32 | some a ↦ a ]

-- A tensor with its data behind `start`; absent dimensions are 1.
abbrev pub tensor_at : ℕ → List ℕ → Info → Option Tensor
tensor_at start name i =
    if same_str name i.name
    then some (record {
      type = i.type;
      ne = get_or i.dims 0 1 ∷ get_or i.dims 1 1 ∷ get_or i.dims 2 1 ∷ get_or i.dims 3 1 ∷ [];
      offset = start + i.place;
    })
    else none

module _ (counting : Bool) where
  pub kvs-last_of :
      {V : Type 0} (look : Keys → Option V) (f : List ℕ × Value → Option V)
      → ((kv : List ℕ × Value) (m : Keys)
          → FitsKv kv
          → look (note counting kv m) ≡ or_else (f kv) (look m))
      → (kvs : List (List ℕ × Value)) (m : Keys) → All FitsKv kvs
      → look (note_all counting kvs m) ≡ or_else (last_of f kvs) (look m)
  unfolding note_all
  kvs-last_of look f step =
      loop-last_of FitsKv (note counting) (note_all counting) look f (λ m. refl) (λ a xs m. refl)
        step

  int_type :
      (t w : ℕ)
      → scalar_width t ≡ some w
      → (leb t 5 || (t == 7) || (t == 10) || (t == 11)) ≡ (not (t == 6) && not (t == 12))
  unfolding scalar_width
  int_type t w h = ground arith

  pub int_step :
      (key : List ℕ) (kv : List ℕ × Value) (m : Keys)
      → FitsKv kv
      → find key (note counting kv m).kv_int ≡ or_else (int_at key kv) (find key m.kv_int)
  unfolding note note_int note_str
  int_step key (k, text s) m h = refl
  int_step key (k, scalar t w v) m h =
      let kind = int_type t w h.1.0 in
      elim (Bool-cases (not (t == 6) && not (t == 12))) [
        | inl whole ↦
            let put_it = find-put key k v m.kv_int in
            elim (Bool-cases (same_str key k)) [
              | inl e ↦ rw (kind, whole, put_it, e)
              | inr e ↦ rw (kind, whole, put_it, e)
            ]
        | inr float ↦ elim (Bool-cases (same_str key k)) [
          | inl e ↦ rw (kind, float, e)
          | inr e ↦ rw (kind, float, e)
        ]
      ]

  pub str_step :
      (key : List ℕ) (kv : List ℕ × Value) (m : Keys)
      → FitsKv kv
      → find key (note counting kv m).kv_str ≡ or_else (str_at key kv) (find key m.kv_str)
  unfolding note note_int note_str
  str_step key (k, text s) m h = find-put key k s m.kv_str
  str_step key (k, scalar t w v) m h = refl

  pub align_step :
      (kv : List ℕ × Value) (m : Keys)
      → FitsKv kv
      → some (note counting kv m).alignment ≡ or_else (align_at kv) (some m.alignment)
  unfolding note note_int note_str
  align_step (k, text s) m h = refl
  align_step (k, scalar t w v) m h = elim (Bool-cases (same_str k alignment_key && not (v == 0))) [
    | inl e ↦ rw e
    | inr e ↦ rw e
  ]

  pub total_step :
      (kv : List ℕ × Value) (m : Keys)
      → FitsKv kv
      → some (note counting kv m).split_total
        ≡ or_else (scalar_at total_key kv) (some m.split_total)
  unfolding note note_int note_str
  total_step (k, text s) m h = refl
  total_step (k, scalar t w v) m h = elim (Bool-cases (same_str k total_key)) [
    | inl e ↦ rw e
    | inr e ↦ rw e
  ]

  -- split.count is stored for a caller that counts, in 16 bits.
  abbrev pub count_at : List ℕ × Value → Option ℕ
  count_at (k, scalar t w v) = if same_str k count_key && counting then some (v % 65536) else none
  count_at (k, text s) = none

  pub count_step :
      (kv : List ℕ × Value) (m : Keys)
      → FitsKv kv
      → some (note counting kv m).split_count ≡ or_else (count_at kv) (some m.split_count)
  unfolding note note_int note_str
  count_step (k, text s) m h = refl
  count_step (k, scalar t w v) m h = elim (Bool-cases (same_str k count_key && counting)) [
    | inl e ↦ rw e
    | inr e ↦ rw e
  ]

-- The alignment that counts is not 0.
pub alignment_of_positive : (kvs : List (List ℕ × Value)) → 1 ≤ alignment_of kvs
alignment_of_positive kvs = elim (Option-cases (last_of align_at kvs)) [
  | inl e ↦ rw (e, alignment_of) (omega arith)
  | inr (a, e) ↦ rw (e, alignment_of) (last_positive kvs a e)
]
  where
    one_positive : (kv : List ℕ × Value) (a : ℕ) → align_at kv ≡ some a → 1 ≤ a
    one_positive (k, text s) a e = cc
    one_positive (k, scalar t w v) a e =
        elim (Bool-cases (same_str k alignment_key && not (v == 0))) [
          | inl g ↦ ground (arith, e, g)
          | inr g ↦ let bad : none ≡ some a = rw g at e in cc
        ]

    last_positive : (kvs : List (List ℕ × Value)) (a : ℕ) → last_of align_at kvs ≡ some a → 1 ≤ a
    last_positive [] a e = cc
    last_positive (kv ∷ kvs) a e = elim (Option-cases (last_of align_at kvs)) [
      | inl g ↦ one_positive kv a (rw g at e)
      | inr (b, g) ↦ let same : some b ≡ some a = rw g at e in last_positive kvs a (g ∙ same)
    ]

-- Up to the next multiple, where nothing wraps.
pub align_up-Aligned :
    (a p : ℕ)
    → 1 ≤ a
    → p + a ≤ 18446744073709551616
    → (align_up a p ≡ (p + a - 1) / a * a) × ((p ≤ align_up a p) × (align_up a p < p + a))
align_up-Aligned a p some_a fits =
    let q = p + a - 1 in
    let small : q % 18446744073709551616 ≡ q = omega arith in
    let parts = mod-add-div' q a in
    let rest = mod-lt q {m = a} (omega arith) in
    let blocks = q / a * a in
    let whole : blocks % 18446744073709551616 ≡ blocks = omega (arith, parts) in
    let up : align_up a p ≡ blocks = rw small whole in
    (up, (omega (arith, up, parts, rest), omega (arith, up, parts, rest)))
