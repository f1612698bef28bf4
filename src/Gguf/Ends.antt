-- ===== src/Gguf/Ends.antt =====
-- `parse` ends on every file: it never uses up the fuel of its values.
use qwen_kernel.Prelude.{
  ◌||◌, ◌==◌, ℕ, zero, suc, min, inl, inr, Bool, not, List, arith, ltb, Bool-cases, length, take,
  drop, length-drop,
}
use qwen_kernel.Gguf.{Cursor, Read, rd, rd_str, skip_value, ◌>=>◌}
use qwen_kernel.Gguf.Directory.{
  Directory, Keys, magic, parse, read_dims, read_info, read_infos, read_kv, read_kvs, same_str,
}
use qwen_kernel.Gguf.Skip.{
  Takes, Takes-bind, Takes-weaken, rd-Takes, rd_str-Takes, skip_value-Takes,
}

-- Then a whole read ends when its parts do.
Ends-then :
    {A B : Type 0} (k m : ℕ) (r : Read A) (f : A → Cursor → Read B)
    → Takes k m r
    → ((v : A) (c : Cursor) → Takes 0 (length c.rest) (f v c))
    → Takes 0 m (r >=> f)
Ends-then k m r f h g =
    Takes-bind k 0 m r f h
      (λ v c q. Takes-weaken 0 0 (length c.rest) m (f v c) (omega arith) (g v c))

read_kv-Takes :
    (counting : Bool) (m : Keys) (c : Cursor) → Takes 0 (length c.rest) (read_kv counting m c)
unfolding read_kv
read_kv-Takes counting m c = Ends-then 8 (length c.rest) (rd_str c) _ (rd_str-Takes c) (λ key c1.
    Ends-then 4 (length c1.rest) (rd 4 c1) _ (rd-Takes 4 c1) (λ t c2. elim (Bool-cases (t == 8)) [
      | inl str ↦
          rw str
            (Ends-then 8 (length c2.rest) (rd_str c2) _ (rd_str-Takes c2) (λ s c3. omega arith))
      | inr other ↦ rw other (
          Ends-then 1 (length c2.rest) (skip_value (suc (length c2.rest)) t c2) _
            (skip_value-Takes (suc (length c2.rest)) t c2 (omega arith)) (λ v c3. omega arith))
    ]))

read_kvs-Takes :
    (counting : Bool) (n : ℕ) (m : Keys) (c : Cursor)
    → Takes 0 (length c.rest) (read_kvs counting n m c)
unfolding read_kvs
read_kvs-Takes counting zero m c = omega arith
read_kvs-Takes counting (suc n) m c =
    Ends-then 0 (length c.rest) (read_kv counting m c) _ (read_kv-Takes counting m c)
      (λ m1 c1. read_kvs-Takes counting n m1 c1)

read_dims-Takes : (n : ℕ) (c : Cursor) → Takes 0 (length c.rest) (read_dims n c)
unfolding read_dims
read_dims-Takes zero c = omega arith
read_dims-Takes (suc n) c = Ends-then 8 (length c.rest) (rd 8 c) _ (rd-Takes 8 c) (λ d c1.
    Ends-then 0 (length c1.rest) (read_dims n c1) _ (read_dims-Takes n c1) (λ ds c2. omega arith))

read_info-Takes : (c : Cursor) → Takes 0 (length c.rest) (read_info c)
unfolding read_info
read_info-Takes c = Ends-then 8 (length c.rest) (rd_str c) _ (rd_str-Takes c) (λ name c1.
    Ends-then 4 (length c1.rest) (rd 4 c1) _ (rd-Takes 4 c1) (λ nd c2.
      Ends-then 0 (length c2.rest) (read_dims (min nd 4) c2) _ (read_dims-Takes (min nd 4) c2)
        (λ ds c3. Ends-then 4 (length c3.rest) (rd 4 c3) _ (rd-Takes 4 c3) (λ t c4.
          Ends-then 8 (length c4.rest) (rd 8 c4) _ (rd-Takes 8 c4) (λ off c5. omega arith)))))

read_infos-Takes : (n : ℕ) (c : Cursor) → Takes 0 (length c.rest) (read_infos n c)
unfolding read_infos
read_infos-Takes zero c = omega arith
read_infos-Takes (suc n) c =
    Ends-then 0 (length c.rest) (read_info c) _ (read_info-Takes c) (λ i c1.
      Ends-then 0 (length c1.rest) (read_infos n c1) _ (read_infos-Takes n c1)
        (λ is c2. omega arith))

-- On every file and object, and whatever number of tensor infos can be allocated, parse ends with
-- fuel for each byte in every skipped value: it returns, asks for bytes past the end of the
-- mapping, exits on an unknown value type, or fails to allocate the tensor infos; and a return
-- leaves no more bytes than the file has.
pub parse-Takes :
    (room : ℕ → Bool) (counting : Bool) (d : Directory) (file : List ℕ)
    → Takes 0 (length file) (parse room counting d file)
unfolding parse
parse-Takes room counting d file =
    elim (Bool-cases (ltb (length file) 24 || not (same_str (take 4 file) magic))) [
      | inl bad ↦ rw (bad, parse) (omega arith)
      | inr good ↦
          let start : Cursor = record { pos = 4; rest = drop 4 file } in
          let four = length-drop 4 file in
          rw (good, parse)
            (Ends-then 4 (length file) (rd 4 start) _
              (Takes-weaken 4 4 (length start.rest) (length file) (rd 4 start) (omega (arith, four))
                (rd-Takes 4 start))
              (λ ver c1. elim (Bool-cases (ltb ver 2)) [
                | inl old ↦ rw old (omega arith)
                | inr new ↦ rw new (
                    Ends-then 8 (length c1.rest) (rd 8 c1) _ (rd-Takes 8 c1) (λ nt c2.
                      Ends-then 8 (length c2.rest) (rd 8 c2) _ (rd-Takes 8 c2) (λ nk c3.
                        Ends-then 0 (length c3.rest) (read_kvs counting nk _ c3) _
                          (read_kvs-Takes counting nk _ c3)
                          (λ keys c4. elim (Bool-cases (room nt)) [
                            | inl held ↦ rw held (
                                Ends-then 0 (length c4.rest) (read_infos nt c4) _
                                  (read_infos-Takes nt c4) (λ infos c5. omega arith))
                            | inr full ↦ rw full tt
                          ]))))
              ]))
    ]
