-- ===== src/Quants/Closed.antt =====
-- One half of a block of dequant_row_q6_K against a formula for each element.
use qwen_kernel.Prelude.{
  ◌+◌, ◌-◌, ◌*◌, ◌/◌, ◌%◌, ◌^◌, ◌≤◌, ◌<◌, ◌≡◌, ◌∙◌, ◌≢◌, ◌⊎◌, ◌∷◌, ◌==◌, ℕ, zero, suc, refl, ap,
  inl, inr, List, [], arith, leb, tests, Bool-cases, length, get_or, set, length-set,
  get_or-set_self,
}
use qwen_kernel.Quants.Blocks.{BlockQ6, Floats, q6_loop, q6_quants, q6_value}

-- The low four bits, or the rest, of a byte.
abbrev pub nibble : ℕ → ℕ → ℕ
nibble b zero = b % 16
nibble b (suc k) = b / 16

-- The element j of a half: four bits of ql, two of qh, and the scale of its sixteen.
unfoldable pub q6_at : {F : Type 0} → Floats F → BlockQ6 → ℕ → ℕ → ℕ → ℕ → F
q6_at a x lo hi so j = q6_value a x (so + j / 16) (
    nibble (get_or x.ql (lo + j % 64) 0) (j / 64)
    + get_or x.qh (hi + j % 32) 0 / 4 ^ (j / 32) % 4 * 16)

get_or-set_other :
    {A : Type 0} (xs : List A) (i k : ℕ) (v d : A) → k ≢ i → get_or (set xs i v) k d ≡ get_or xs k d
get_or-set_other [] i k v d h = refl
get_or-set_other (x ∷ xs) zero zero v d h = absurd (h refl)
get_or-set_other (x ∷ xs) zero (suc k) v d h = refl
get_or-set_other (x ∷ xs) (suc i) zero v d h = refl
get_or-set_other (x ∷ xs) (suc i) (suc k) v d h = get_or-set_other xs i k v d (λ e. h (ap suc e))

lt_of : {m n i : ℕ} → m ≡ n → i < n → i < m
lt_of e h = omega (arith, e)

module _ {F : Type 0} (a : Floats F) (x : BlockQ6) (o lo hi so : ℕ) (d : F) where
  -- The buffer after the four writes of a step.
  step_writes : ℕ → List F → List F
  unfolding q6_quants
  step_writes l y =
      let q = q6_quants a x lo hi l in
      let is = so + l / 16 in
      set
        (set (set (set y (o + l) (q6_value a x is q.0)) (o + (l + 32)) (q6_value a x (is + 2) q.1))
          (o + (l + 64)) (q6_value a x (is + 4) q.2))
        (o + (l + 96)) (q6_value a x (is + 6) q.3)

  step_writes-length : (l : ℕ) (y : List F) → length (step_writes l y) ≡ length y
  unfolding step_writes
  step_writes-length l y =
      length-set _ (o + (l + 96)) _
      ∙ (length-set _ (o + (l + 64)) _ ∙ (length-set _ (o + (l + 32)) _ ∙ length-set y (o + l) _))

  step_writes-other :
      (l i : ℕ) (y : List F)
      → i ≢ o + l
      → i ≢ o + (l + 32)
      → i ≢ o + (l + 64)
      → i ≢ o + (l + 96)
      → get_or (step_writes l y) i d ≡ get_or y i d
  unfolding step_writes
  step_writes-other l i y e0 e1 e2 e3 =
      get_or-set_other _ (o + (l + 96)) i _ d e3
      ∙ (get_or-set_other _ (o + (l + 64)) i _ d e2
          ∙ (get_or-set_other _ (o + (l + 32)) i _ d e1 ∙ get_or-set_other y (o + l) i _ d e0))

  -- Not written from step l on.
  abbrev pub Kept : ℕ → ℕ → Type 0
  Kept l i = (i < o) ⊎ (o + 128 ≤ i) ⊎ ((i - o) % 32 < l)

  Kept-suc : (l i : ℕ) → Kept l i → Kept (l + 1) i
  Kept-suc l i (inl h) = inl h
  Kept-suc l i (inr (inl h)) = inr (inl h)
  Kept-suc l i (inr (inr h)) = inr (inr (omega arith))

  Kept-apart : (l i p : ℕ) → l < 32 → p < 97 → p % 32 ≡ 0 → Kept l i → i ≢ o + (l + p)
  Kept-apart l i p b c z (inl h) = λ e. omega arith
  Kept-apart l i p b c z (inr (inl h)) = λ e. omega arith
  Kept-apart l i p b c z (inr (inr h)) = λ e. omega (arith, e)

  Kept-first : (l i : ℕ) → l < 32 → Kept l i → i ≢ o + l
  Kept-first l i b (inl h) = λ e. omega arith
  Kept-first l i b (inr (inl h)) = λ e. omega arith
  Kept-first l i b (inr (inr h)) = λ e. omega (arith, e)

  pub loop-keeps :
      (k l i : ℕ) (y : List F)
      → k + l ≤ 32
      → Kept l i
      → get_or (q6_loop a k l x o lo hi so y) i d ≡ get_or y i d
  unfolding q6_loop step_writes
  loop-keeps zero l i y b h = refl
  loop-keeps (suc k) l i y b h =
      loop-keeps k (l + 1) i (step_writes l y) (omega arith) (Kept-suc l i h)
      ∙ step_writes-other l i y (Kept-first l i (omega arith) h)
          (Kept-apart l i 32 (omega arith) (omega arith) refl h)
          (Kept-apart l i 64 (omega arith) (omega arith) refl h)
          (Kept-apart l i 96 (omega arith) (omega arith) refl h)

  -- The four elements of a step.
  at_0 :
      (l : ℕ) (y : List F)
      → l < 32
      → o + 128 ≤ length y
      → get_or (step_writes l y) (o + l) d ≡ q6_at a x lo hi so l
  unfolding step_writes q6_at q6_quants
  at_0 l y b w =
      let e1 : so + l / 16 ≡ so + l / 16 = omega arith in
      let e2 : l % 64 ≡ l = omega arith in
      let e3 : l / 64 ≡ 0 = omega arith in
      let e4 : l % 32 ≡ l = omega arith in
      let e5 : l / 32 ≡ 0 = omega arith in
      let e6 : get_or x.qh (hi + l) 0 / 1 ≡ get_or x.qh (hi + l) 0 = omega arith in
      (get_or-set_other _ (o + (l + 96)) (o + l) _ d (λ e. omega arith)
        ∙ (get_or-set_other _ (o + (l + 64)) (o + l) _ d (λ e. omega arith)
            ∙ (get_or-set_other _ (o + (l + 32)) (o + l) _ d (λ e. omega arith)
                ∙ get_or-set_self _ (o + l) _ d (omega arith))))
      ∙ rw (e1, e2, e3, e4, e5, e6) refl

  at_1 :
      (l : ℕ) (y : List F)
      → l < 32
      → o + 128 ≤ length y
      → get_or (step_writes l y) (o + (l + 32)) d ≡ q6_at a x lo hi so (l + 32)
  unfolding step_writes q6_at q6_quants
  at_1 l y b w =
      let e1 : so + (l + 32) / 16 ≡ so + l / 16 + 2 = omega arith in
      let e2 : (l + 32) % 64 ≡ l + 32 = omega arith in
      let e3 : (l + 32) / 64 ≡ 0 = omega arith in
      let e4 : (l + 32) % 32 ≡ l = omega arith in
      let e5 : (l + 32) / 32 ≡ 1 = omega arith in
      (get_or-set_other _ (o + (l + 96)) (o + (l + 32)) _ d (λ e. omega arith)
        ∙ (get_or-set_other _ (o + (l + 64)) (o + (l + 32)) _ d (λ e. omega arith)
            ∙ get_or-set_self _ (o + (l + 32)) _ d (lt_of (length-set _ _ _) (omega arith))))
      ∙ rw (e1, e2, e3, e4, e5) refl

  at_2 :
      (l : ℕ) (y : List F)
      → l < 32
      → o + 128 ≤ length y
      → get_or (step_writes l y) (o + (l + 64)) d ≡ q6_at a x lo hi so (l + 64)
  unfolding step_writes q6_at q6_quants
  at_2 l y b w =
      let e1 : so + (l + 64) / 16 ≡ so + l / 16 + 4 = omega arith in
      let e2 : (l + 64) % 64 ≡ l = omega arith in
      let e3 : (l + 64) / 64 ≡ 1 = omega arith in
      let e4 : (l + 64) % 32 ≡ l = omega arith in
      let e5 : (l + 64) / 32 ≡ 2 = omega arith in
      (get_or-set_other _ (o + (l + 96)) (o + (l + 64)) _ d (λ e. omega arith)
        ∙ get_or-set_self _ (o + (l + 64)) _ d
            (lt_of ((length-set _ _ _ ∙ length-set _ _ _)) (omega arith)))
      ∙ rw (e1, e2, e3, e4, e5) refl

  at_3 :
      (l : ℕ) (y : List F)
      → l < 32
      → o + 128 ≤ length y
      → get_or (step_writes l y) (o + (l + 96)) d ≡ q6_at a x lo hi so (l + 96)
  unfolding step_writes q6_at q6_quants
  at_3 l y b w =
      let e1 : so + (l + 96) / 16 ≡ so + l / 16 + 6 = omega arith in
      let e2 : (l + 96) % 64 ≡ l + 32 = omega arith in
      let e3 : (l + 96) / 64 ≡ 1 = omega arith in
      let e4 : (l + 96) % 32 ≡ l = omega arith in
      let e5 : (l + 96) / 32 ≡ 3 = omega arith in
      get_or-set_self _ (o + (l + 96)) _ d
        (lt_of ((length-set _ _ _ ∙ (length-set _ _ _ ∙ length-set _ _ _))) (omega arith))
      ∙ rw (e1, e2, e3, e4, e5) refl

  step_writes-at :
      (l j : ℕ) (y : List F)
      → l < 32
      → j < 128
      → j % 32 ≡ l
      → o + 128 ≤ length y
      → get_or (step_writes l y) (o + j) d ≡ q6_at a x lo hi so j
  step_writes-at l j y b c e w = elim (Bool-cases (leb 96 j)) [
    | inl h3 ↦ let is : j ≡ l + 96 = omega (tests, h3) in rw is (at_3 l y b w)
    | inr h3 ↦ elim (Bool-cases (leb 64 j)) [
      | inl h2 ↦ let is : j ≡ l + 64 = ground (arith, h2, h3) in rw is (at_2 l y b w)
      | inr h2 ↦ elim (Bool-cases (leb 32 j)) [
        | inl h1 ↦ let is : j ≡ l + 32 = ground (arith, h1, h2) in rw is (at_1 l y b w)
        | inr h1 ↦ let is : j ≡ l = ground (arith, h1) in rw is (at_0 l y b w)
      ]
    ]
  ]

  pub loop-at :
      (k l j : ℕ) (y : List F)
      → k + l ≤ 32
      → j < 128
      → l ≤ j % 32
      → j % 32 < k + l
      → o + 128 ≤ length y
      → get_or (q6_loop a k l x o lo hi so y) (o + j) d ≡ q6_at a x lo hi so j
  unfolding q6_loop step_writes
  loop-at zero l j y b c lo' hi' w = absurd (omega arith)
  loop-at (suc k) l j y b c lo' hi' w = elim (Bool-cases (j % 32 == l)) [
    | inl here ↦
        let e : j % 32 ≡ l = ground arith in
        loop-keeps k (l + 1) (o + j) (step_writes l y) (omega arith) (inr (inr (omega (arith, e))))
        ∙ step_writes-at l j y (omega arith) c e w
    | inr later ↦
        let past : l < j % 32 = ground arith in
        loop-at k (l + 1) j (step_writes l y) (omega arith) c (omega (arith, past)) (omega arith)
          (omega (arith, step_writes-length l y))
  ]

  pub loop-length : (k l : ℕ) (y : List F) → length (q6_loop a k l x o lo hi so y) ≡ length y
  unfolding q6_loop step_writes
  loop-length zero l y = refl
  loop-length (suc k) l y = loop-length k (l + 1) (step_writes l y) ∙ step_writes-length l y
