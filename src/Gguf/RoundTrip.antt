-- ===== src/Gguf/RoundTrip.antt =====
-- A written file is parsed back: the tensor infos, and the whole header.
use qwen_kernel.Prelude.{
  ◌+◌, ◌*◌, ◌^◌, ◌≤◌, ◌<◌, ◌≡◌, ◌∷◌, ◌++◌, ℕ, suc, min, Bool, true, false, some, List, [], map,
  arith, ltb, length, length-append, All,
}
use qwen_kernel.Gguf.{got}
use qwen_kernel.Gguf.Bytes.{le_bytes, length-le_bytes, rd-le_bytes, rd_str-str_bytes, str_bytes}
use qwen_kernel.Gguf.Directory.{
  Directory, Tensor, align_up, magic, pad_dims, parse, place_all, read_dims, read_info, read_infos,
  same_str,
}
use qwen_kernel.Gguf.Write.{FitsKv, Value, cursor, kvs_bytes, note_all, read_kvs-kvs_bytes}

-- A tensor as a writer describes it; `place` is its offset in the data section.
pub record Info : Type 0 where
  pub name : List ℕ
  pub dims : List ℕ
  pub type : ℕ
  pub place : ℕ

pub record FitsInfo (i : Info) : Type 0 where
  pub name_ok : length i.name < 256 ^ 8
  pub dims_ok : All (λ n. n < 256 ^ 8) i.dims
  pub few_dims : length i.dims ≤ 4
  pub type_ok : i.type < 256 ^ 4
  pub place_ok : i.place < 256 ^ 8

-- The dimensions, in front of the bytes that follow.
unfoldable pub dims_bytes : List ℕ → List ℕ → List ℕ
dims_bytes [] rest = rest
dims_bytes (n ∷ ns) rest = le_bytes 8 n ++ dims_bytes ns rest

abbrev pub info_bytes : Info → List ℕ → List ℕ
info_bytes i rest =
    str_bytes i.name
    ++ (le_bytes 4 (length i.dims)
        ++ dims_bytes i.dims (le_bytes 4 i.type ++ (le_bytes 8 i.place ++ rest)))

unfoldable pub infos_bytes : List Info → List ℕ → List ℕ
infos_bytes [] rest = rest
infos_bytes (i ∷ is) rest = info_bytes i (infos_bytes is rest)

unfoldable pub infos_size : List Info → ℕ
infos_size [] = 0
infos_size (i ∷ is) = 8 + length i.name + 4 + 8 * length i.dims + 12 + infos_size is

-- What the reader makes of it.
abbrev pub tensor_of : Info → List ℕ × Tensor
tensor_of i = (i.name, record { type = i.type; ne = pad_dims 4 i.dims; offset = i.place })

read_dims-dims_bytes :
    (ns : List ℕ) (p : ℕ) (rest : List ℕ)
    → All (λ n. n < 256 ^ 8) ns
    → read_dims (length ns) (cursor p (dims_bytes ns rest))
      ≡ got ns (cursor (p + 8 * length ns) rest)
unfolding read_dims dims_bytes
read_dims-dims_bytes [] p rest h = let e : p + 8 * 0 ≡ p = omega arith in rw e
read_dims-dims_bytes (n ∷ ns) p rest h =
    let e : p + 8 * suc (length ns) ≡ p + 8 + 8 * length ns = omega arith in
    rw (rd-le_bytes 8 n p (dims_bytes ns rest) h.0, read_dims-dims_bytes ns (p + 8) rest h.1, e)

read_info-info_bytes :
    (i : Info) (p : ℕ) (rest : List ℕ)
    → FitsInfo i
    → read_info (cursor p (info_bytes i rest))
      ≡ got (tensor_of i) (cursor (p + 8 + length i.name + 4 + 8 * length i.dims + 4 + 8) rest)
unfolding read_info
read_info-info_bytes i p rest h =
    let q = p + 8 + length i.name in
    let r = q + 4 + 8 * length i.dims in
    let few = h.few_dims in
    let type_rest = le_bytes 8 i.place ++ rest in
    let dims_rest = le_bytes 4 i.type ++ type_rest in
    let least : min (length i.dims) 4 ≡ length i.dims = omega arith in
    rw (
      rd_str-str_bytes i.name p (le_bytes 4 (length i.dims) ++ dims_bytes i.dims dims_rest)
          h.name_ok,
      rd-le_bytes 4 (length i.dims) q (dims_bytes i.dims dims_rest) (omega arith),
      least,
      read_dims-dims_bytes i.dims (q + 4) dims_rest h.dims_ok,
      rd-le_bytes 4 i.type r type_rest h.type_ok,
      rd-le_bytes 8 i.place (r + 4) rest h.place_ok,
    )

read_infos-infos_bytes :
    (is : List Info) (p : ℕ) (rest : List ℕ)
    → All FitsInfo is
    → read_infos (length is) (cursor p (infos_bytes is rest))
      ≡ got (map tensor_of is) (cursor (p + infos_size is) rest)
unfolding read_infos infos_bytes infos_size
read_infos-infos_bytes [] p rest h = let e : p + 0 ≡ p = omega arith in rw e
read_infos-infos_bytes (i ∷ is) p rest h =
    let q = p + 8 + length i.name + 4 + 8 * length i.dims + 4 + 8 in
    let e : q + infos_size is
        ≡ p + (8 + length i.name + 4 + 8 * length i.dims + 12 + infos_size is) =
      omega arith in
    rw (read_info-info_bytes i p (infos_bytes is rest) h.0, read_infos-infos_bytes is q rest h.1, e)

-- A file of version `ver`, with what follows the directory.
abbrev pub file_bytes : ℕ → List (List ℕ × Value) → List Info → List ℕ → List ℕ
file_bytes ver kvs infos rest =
    magic
    ++ (le_bytes 4 ver
        ++ (le_bytes 8 (length infos)
            ++ (le_bytes 8 (length kvs) ++ (kvs_bytes kvs ++ infos_bytes infos rest))))

abbrev pub header_size : List (List ℕ × Value) → List Info → ℕ
header_size kvs infos = 24 + length (kvs_bytes kvs) + infos_size infos

-- The result in terms of what each entry sets; what the object then holds is in Contents.
pub parse-file_bytes :
    (room : ℕ → Bool) (counting : Bool) (d : Directory) (ver : ℕ) (kvs : List (List ℕ × Value))
    (infos : List Info) (rest : List ℕ)
    → 2 ≤ ver
    → ver < 256 ^ 4
    → length infos < 256 ^ 8
    → length kvs < 256 ^ 8
    → All FitsKv kvs
    → All FitsInfo infos
    → room (length infos) ≡ true
    → parse room counting d (file_bytes ver kvs infos rest)
      ≡ got
          (some (record {
            keys = note_all counting kvs (record (d.keys) { alignment = 32 });
            tensors =
                place_all
                  (align_up
                    (note_all counting kvs (record (d.keys) { alignment = 32 })).alignment
                    (header_size kvs infos))
                  (map tensor_of infos)
                  d.tensors;
          }))
          (cursor (header_size kvs infos) rest)
unfolding parse same_str
parse-file_bytes room counting d ver kvs infos rest new v n k fit_kvs fit_infos held =
    let after_kvs = infos_bytes infos rest in
    let after_n = kvs_bytes kvs ++ after_kvs in
    let after_tensors = le_bytes 8 (length kvs) ++ after_n in
    let after_ver = le_bytes 8 (length infos) ++ after_tensors in
    let whole : ltb (length (file_bytes ver kvs infos rest)) 24 ≡ false = ground (
      arith,
      length-append (le_bytes 4 ver) after_ver,
      length-append (le_bytes 8 (length infos)) after_tensors,
      length-append (le_bytes 8 (length kvs)) after_n,
      length-le_bytes 4 ver,
      length-le_bytes 8 (length infos),
      length-le_bytes 8 (length kvs),
    ) in
    let not_old : ltb ver 2 ≡ false = ground arith in
    rw (
      whole,
      rd-le_bytes 4 ver 4 after_ver v,
      not_old,
      rd-le_bytes 8 (length infos) 8 after_tensors n,
      rd-le_bytes 8 (length kvs) 16 after_n k,
      read_kvs-kvs_bytes counting kvs (record (d.keys) { alignment = 32 }) 24 after_kvs fit_kvs,
      held,
      read_infos-infos_bytes infos (24 + length (kvs_bytes kvs)) rest fit_infos,
    )
