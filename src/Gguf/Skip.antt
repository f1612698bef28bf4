-- ===== src/Gguf/Skip.antt =====
-- skipValue ends: every value but a failed one takes bytes, so fuel for each byte is enough.
use qwen_kernel.Prelude.{
  ◌+◌, ◌≤◌, ◌<◌, ◌≡◌, ◌==◌, ℕ, zero, suc, inl, inr, true, false, some, arith, leb, Bool-cases,
  Option-cases, length, length-drop,
}
use qwen_kernel.Gguf.{
  Cursor, Read, bad_type, got, no_fuel, no_memory, overrun, rd, rd_str, scalar_width, skip_items,
  skip_value, ◌>=>◌,
}

-- The read ends, and with a value it takes at least k of the m bytes.
abbrev pub Takes : {A : Type 0} → ℕ → ℕ → Read A → Type 0
Takes k m (got v c) = length c.rest + k ≤ m
Takes k m overrun = Unit
Takes k m bad_type = Unit
Takes k m no_memory = Unit
Takes k m no_fuel = true ≡ false

pub Takes-bind :
    {A B : Type 0} (k k' m : ℕ) (r : Read A) (f : A → Cursor → Read B)
    → Takes k m r
    → ((v : A) (c : Cursor) → length c.rest + k ≤ m → Takes k' m (f v c))
    → Takes k' m (r >=> f)
Takes-bind k k' m (got v c) f h g = g v c h
Takes-bind k k' m overrun f h g = tt
Takes-bind k k' m bad_type f h g = tt
Takes-bind k k' m no_memory f h g = tt
Takes-bind k k' m no_fuel f h g = cc

pub Takes-weaken :
    {A : Type 0} (k k' m m' : ℕ) (r : Read A) → m + k' ≤ m' + k → Takes k m r → Takes k' m' r
Takes-weaken k k' m m' (got v c) l h = omega arith
Takes-weaken k k' m m' overrun l h = tt
Takes-weaken k k' m m' bad_type l h = tt
Takes-weaken k k' m m' no_memory l h = tt
Takes-weaken k k' m m' no_fuel l h = h

pub rd-Takes : (w : ℕ) (c : Cursor) → Takes w (length c.rest) (rd w c)
unfolding rd
rd-Takes w c = elim (Bool-cases (leb w (length c.rest))) [
  | inl fits ↦ rw (fits, rd) (let e = length-drop w c.rest in ground (arith, e))
  | inr short ↦ rw (short, rd) tt
]

pub rd_str-Takes : (c : Cursor) → Takes 8 (length c.rest) (rd_str c)
unfolding rd_str
rd_str-Takes c = Takes-bind 8 8 (length c.rest) (rd 8 c) _ (rd-Takes 8 c) (λ n c1 h.
    elim (Bool-cases (leb n (length c1.rest))) [
      | inl fits ↦ rw fits (let e = length-drop n c1.rest in ground (arith, e))
      | inr short ↦ rw short tt
    ])

scalar_width-pos : (t w : ℕ) → scalar_width t ≡ some w → 1 ≤ w
unfolding scalar_width
scalar_width-pos t w h = ground arith

mutual
  unfolding skip_value

  -- skipValue with fuel for every byte left ends; a value takes bytes.
  pub skip_value-Takes :
      (fuel t : ℕ) (c : Cursor)
      → length c.rest < fuel
      → Takes 1 (length c.rest) (skip_value fuel t c)
  skip_value-Takes zero t c h = absurd (omega arith)
  skip_value-Takes (suc fuel) t c h = elim (Option-cases (scalar_width t)) [
    | inr (w, e) ↦
        let some_bytes = scalar_width-pos t w e in
        rw (e, skip_value)
          (Takes-weaken w 1 (length c.rest) (length c.rest) (rd w c) (omega arith) (rd-Takes w c))
    | inl e ↦ elim (Bool-cases (t == 8)) [
      | inl str ↦
          rw (e, str, skip_value)
            (Takes-bind 8 1 (length c.rest) (rd_str c) _ (rd_str-Takes c) (λ s c1 k. omega arith))
      | inr other ↦ elim (Bool-cases (t == 9)) [
        | inr bad ↦ rw (e, other, bad, skip_value) tt
        | inl arr ↦
            rw (e, other, arr, skip_value)
              (Takes-bind 4 1 (length c.rest) (rd 4 c) _ (rd-Takes 4 c) (λ et c1 k1.
                Takes-bind 12 1 (length c.rest) (rd 8 c1) _
                  (Takes-weaken 8 12 (length c1.rest) (length c.rest) (rd 8 c1) (omega arith)
                    (rd-Takes 8 c1))
                  (λ n c2 k2.
                    Takes-weaken 0 1 (length c2.rest) (length c.rest) (skip_items fuel et n c2)
                      (omega arith) (skip_items-Takes fuel et n c2 (omega arith)))))
      ]
    ]
  ]

  skip_items-Takes :
      (fuel et n : ℕ) (c : Cursor)
      → length c.rest + 1 < fuel
      → Takes 0 (length c.rest) (skip_items fuel et n c)
  skip_items-Takes zero et n c h = absurd (omega arith)
  skip_items-Takes (suc fuel) et zero c h = omega arith
  skip_items-Takes (suc fuel) et (suc n) c h =
      Takes-bind 1 0 (length c.rest) (skip_value fuel et c) _
        (skip_value-Takes fuel et c (omega arith))
        (λ v c1 k.
          Takes-weaken 0 0 (length c1.rest) (length c.rest) (skip_items fuel et n c1) (omega arith)
            (skip_items-Takes fuel et n c1 (omega arith)))
