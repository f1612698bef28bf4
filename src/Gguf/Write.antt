-- ===== src/Gguf/Write.antt =====
-- A writer of the directory's parts, and the round trip: `parse` reads back what was written.
use qwen_kernel.Prelude.{
  ◌+◌, ◌^◌, ◌<◌, ◌≡◌, ◌∷◌, ◌++◌, ◌==◌, ℕ, suc, Bool, false, some, List, [], append_assoc, arith,
  length, length-append, All,
}
use qwen_kernel.Gguf.{Cursor, got, rd, scalar_width, skip_value}
use qwen_kernel.Gguf.Bytes.{le_bytes, length-le_bytes, rd-le_bytes, rd_str-str_bytes, str_bytes}
use qwen_kernel.Gguf.Directory.{Keys, note_int, note_str, read_kv, read_kvs}

-- A value that a key may have: a scalar of type t in w bytes, or a string.
pub data Value : Type 0 where
  scalar : ℕ → ℕ → ℕ → Value
  text : List ℕ → Value

abbrev pub FitsValue : Value → Type 0
FitsValue (scalar t w v) = (scalar_width t ≡ some w) × (v < 256 ^ w) × (t < 256 ^ 4)
FitsValue (text s) = length s < 256 ^ 8

abbrev pub FitsKv : List ℕ × Value → Type 0
FitsKv kv = (length kv.0 < 256 ^ 8) × FitsValue kv.1

unfoldable pub value_bytes : Value → List ℕ
value_bytes (scalar t w v) = le_bytes 4 t ++ le_bytes w v
value_bytes (text s) = le_bytes 4 8 ++ str_bytes s

abbrev pub kv_bytes : List ℕ × Value → List ℕ
kv_bytes kv = str_bytes kv.0 ++ value_bytes kv.1

unfoldable pub kvs_bytes : List (List ℕ × Value) → List ℕ
kvs_bytes [] = []
kvs_bytes (kv ∷ kvs) = kv_bytes kv ++ kvs_bytes kvs

-- What the object should hold after the key-values.
unfoldable pub note : Bool → List ℕ × Value → Keys → Keys
note counting (key, scalar t w v) m = note_int counting key t v m
note counting (key, text s) m = note_str key s m

unfoldable pub note_all : Bool → List (List ℕ × Value) → Keys → Keys
note_all counting [] m = m
note_all counting (kv ∷ kvs) m = note_all counting kvs (note counting kv m)

abbrev pub cursor : ℕ → List ℕ → Cursor
cursor p rest = record { pos = p; rest = rest }

not_text : (t w : ℕ) → scalar_width t ≡ some w → (t == 8) ≡ false
unfolding scalar_width
not_text t w e = ground arith

skip_value-scalar :
    (fuel t w : ℕ) (c : Cursor) → scalar_width t ≡ some w → skip_value (suc fuel) t c ≡ rd w c
unfolding skip_value
skip_value-scalar fuel t w c e = rw (e, skip_value)

read_kv-kv_bytes :
    (counting : Bool) (kv : List ℕ × Value) (m : Keys) (p : ℕ) (rest : List ℕ)
    → FitsKv kv
    → read_kv counting m (cursor p (kv_bytes kv ++ rest))
      ≡ got (note counting kv m) (cursor (p + length (kv_bytes kv)) rest)
unfolding read_kv note value_bytes
read_kv-kv_bytes counting (key, scalar t w v) m p rest (k, (e, f, g)) =
    let after_key = le_bytes 4 t ++ le_bytes w v in
    let q = p + 8 + length key in
    let no_text : (t == 8) ≡ false = not_text t w e in
    let size : q + 4 + w ≡ p + length (str_bytes key ++ after_key) = omega (
      arith,
      length-append (str_bytes key) after_key,
      length-append (le_bytes 8 (length key)) key,
      length-append (le_bytes 4 t) (le_bytes w v),
      length-le_bytes 8 (length key),
      length-le_bytes 4 t,
      length-le_bytes w v,
    ) in
    rw (
      append_assoc (str_bytes key) after_key rest,
      rd_str-str_bytes key p (after_key ++ rest) k,
      append_assoc (le_bytes 4 t) (le_bytes w v) rest,
      rd-le_bytes 4 t q (le_bytes w v ++ rest) g,
      no_text,
      skip_value-scalar (length (le_bytes w v ++ rest)) t w (cursor (q + 4) (le_bytes w v ++ rest))
          e,
      rd-le_bytes w v (q + 4) rest f,
      ← size,
    )
read_kv-kv_bytes counting (key, text s) m p rest (k, f) =
    let after_key = le_bytes 4 8 ++ str_bytes s in
    let q = p + 8 + length key in
    let size : q + 4 + 8 + length s ≡ p + length (str_bytes key ++ after_key) = omega (
      arith,
      length-append (str_bytes key) after_key,
      length-append (le_bytes 8 (length key)) key,
      length-append (le_bytes 4 8) (str_bytes s),
      length-append (le_bytes 8 (length s)) s,
      length-le_bytes 8 (length key),
      length-le_bytes 4 8,
      length-le_bytes 8 (length s),
    ) in
    rw (
      append_assoc (str_bytes key) after_key rest,
      rd_str-str_bytes key p (after_key ++ rest) k,
      append_assoc (le_bytes 4 8) (str_bytes s) rest,
      rd-le_bytes 4 8 q (str_bytes s ++ rest) (omega arith),
      rd_str-str_bytes s (q + 4) rest f,
      ← size,
    )

pub read_kvs-kvs_bytes :
    (counting : Bool) (kvs : List (List ℕ × Value)) (m : Keys) (p : ℕ) (rest : List ℕ)
    → All FitsKv kvs
    → read_kvs counting (length kvs) m (cursor p (kvs_bytes kvs ++ rest))
      ≡ got (note_all counting kvs m) (cursor (p + length (kvs_bytes kvs)) rest)
unfolding read_kvs kvs_bytes note_all
read_kvs-kvs_bytes counting [] m p rest h = let e : p + 0 ≡ p = omega arith in rw e
read_kvs-kvs_bytes counting (kv ∷ kvs) m p rest h =
    let size = length-append (kv_bytes kv) (kvs_bytes kvs) in
    let e : p + length (kv_bytes kv) + length (kvs_bytes kvs)
        ≡ p + length (kv_bytes kv ++ kvs_bytes kvs) =
      omega (arith, size) in
    rw
      (
        append_assoc (kv_bytes kv) (kvs_bytes kvs) rest,
        read_kv-kv_bytes counting kv m p (kvs_bytes kvs ++ rest) h.0,
        ← e,
      )
      (read_kvs-kvs_bytes counting kvs (note counting kv m) (p + length (kv_bytes kv)) rest h.1)
