-- ===== src/Quants/Rows.antt =====
-- A row of dequant_row_q6_K against the formula for each element.
use qwen_kernel.Prelude.{
  ◌+◌, ◌-◌, ◌*◌, ◌≤◌, ◌<◌, ◌≡◌, ◌∙◌, ◌∷◌, if◌then◌else◌, ℕ, suc, refl, ap, inl, inr, List, [],
  arith, ltb, ltb→lt, Bool-cases, length, get_or,
}
use qwen_kernel.Quants.Blocks.{BlockQ6, Floats, dequant_q6, q6_loop}
use qwen_kernel.Quants.Closed.{loop-at, loop-keeps, loop-length, q6_at}

-- The element i of a row of blocks.
unfoldable pub q6_row_at : {F : Type 0} → Floats F → List BlockQ6 → ℕ → F → F
unfolding q6_at
q6_row_at a [] i d = d
q6_row_at a (x ∷ xs) i d =
    let rest = q6_row_at a xs (i - 256) d in
    if ltb i 128 then q6_at a x 0 0 0 i else if ltb i 256 then q6_at a x 64 32 8 (i - 128) else rest

module _ {F : Type 0} (a : Floats F) (d : F) where
  block_after : BlockQ6 → ℕ → List F → List F
  unfolding q6_loop
  block_after x o y = q6_loop a 32 0 x (o + 128) 64 32 8 (q6_loop a 32 0 x o 0 0 0 y)

  block_after-length : (x : BlockQ6) (o : ℕ) (y : List F) → length (block_after x o y) ≡ length y
  unfolding block_after
  block_after-length x o y =
      loop-length a x (o + 128) 64 32 8 d 32 0 (q6_loop a 32 0 x o 0 0 0 y)
      ∙ loop-length a x o 0 0 0 d 32 0 y

  -- What comes before a row's start is kept.
  row-keeps :
      (xs : List BlockQ6) (o i : ℕ) (y : List F)
      → i < o
      → get_or (dequant_q6 a xs o y) i d ≡ get_or y i d
  unfolding dequant_q6 block_after
  row-keeps [] o i y h = refl
  row-keeps (x ∷ xs) o i y h =
      row-keeps xs (o + 256) i (block_after x o y) (omega arith)
      ∙ (loop-keeps a x (o + 128) 64 32 8 d 32 0 i (q6_loop a 32 0 x o 0 0 0 y) (omega arith)
            (inl (omega arith))
          ∙ loop-keeps a x o 0 0 0 d 32 0 i y (omega arith) (inl h))

  -- Over any float arithmetic, dequant_row_q6_K on a row of blocks, into a buffer with room for
  -- 256 elements a block from a position on, leaves at each element of the row the formula of its
  -- block: four bits of ql, two of qh, less 32, times the scale of its sixteen and the block's.
  pub dequant_q6-at :
      (xs : List BlockQ6) (o i : ℕ) (y : List F)
      → i < 256 * length xs
      → o + 256 * length xs ≤ length y
      → get_or (dequant_q6 a xs o y) (o + i) d ≡ q6_row_at a xs i d
  unfolding dequant_q6 block_after q6_row_at
  dequant_q6-at [] o i y h w = absurd (omega arith)
  dequant_q6-at (x ∷ xs) o i y h w =
      let len : length (x ∷ xs) ≡ suc (length xs) = refl in
      elim (Bool-cases (ltb i 128)) [
        | inl first ↦
            let lt : i < 128 = ltb→lt i 128 first in
            rw first (
              row-keeps xs (o + 256) (o + i) (block_after x o y) (omega arith)
              ∙ (loop-keeps a x (o + 128) 64 32 8 d 32 0 (o + i) (q6_loop a 32 0 x o 0 0 0 y)
                    (omega arith) (inl (omega arith))
                  ∙ loop-at a x o 0 0 0 d 32 0 i y (omega arith) lt (omega arith) (omega arith)
                      (omega arith)))
        | inr more ↦ elim (Bool-cases (ltb i 256)) [
          | inl second ↦
              let lt : i < 256 = ltb→lt i 256 second in
              let ge : 128 ≤ i = ground (arith, more) in
              let place : o + i ≡ o + 128 + (i - 128) = omega arith in
              rw (more, second)
                (row-keeps xs (o + 256) (o + i) (block_after x o y) (omega arith)
                  ∙ (ap (λ p. get_or (block_after x o y) p d) place
                      ∙ loop-at a x (o + 128) 64 32 8 d 32 0 (i - 128) (q6_loop a 32 0 x o 0 0 0 y)
                          (omega arith) (omega arith) (omega arith) (omega arith)
                          (omega (arith, loop-length a x o 0 0 0 d 32 0 y))))
          | inr third ↦
              let ge : 256 ≤ i = ground (arith, third) in
              let place : o + i ≡ o + 256 + (i - 256) = omega arith in
              rw (more, third)
                (ap (λ p. get_or (dequant_q6 a xs (o + 256) (block_after x o y)) p d) place
                  ∙ dequant_q6-at xs (o + 256) (i - 256) (block_after x o y) (omega arith)
                      (omega (arith, block_after-length x o y)))
        ]
      ]
