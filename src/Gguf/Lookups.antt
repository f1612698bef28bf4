-- ===== src/Gguf/Lookups.antt =====
-- Lookups after a loop of writes to an association list: the last write of a key counts.
use qwen_kernel.Prelude.{
  ◌≡◌, ◌∙◌, ◌∷◌, if◌then◌else◌, ℕ, refl, sym, ap, ap₂, inl, inr, true, false, Option, none, some,
  List, [], arith, Bool-cases, All,
}
use qwen_kernel.Gguf.Directory.{find, put, same_str}

same_str-≡ : (a b : List ℕ) → same_str a b ≡ true → a ≡ b
unfolding same_str
same_str-≡ [] [] h = refl
same_str-≡ [] (y ∷ ys) h = cc
same_str-≡ (x ∷ xs) [] h = cc
same_str-≡ (x ∷ xs) (y ∷ ys) h = ap₂ ◌∷◌ (ground (arith, h)) (same_str-≡ xs ys (ground (arith, h)))

same_str_refl : (a : List ℕ) → same_str a a ≡ true
unfolding same_str
same_str_refl [] = refl
same_str_refl (x ∷ xs) = let rest = same_str_refl xs in ground (arith, rest)

-- Of two values the first that is there.
abbrev pub or_else : {V : Type 0} → Option V → Option V → Option V
or_else none w = w
or_else (some v) w = some v

-- What the last element with a value has.
abbrev pub last_of : {A V : Type 0} → (A → Option V) → List A → Option V
last_of f [] = none
last_of f (a ∷ xs) = or_else (last_of f xs) (f a)

or_else_assoc : {V : Type 0} (a b c : Option V) → or_else (or_else a b) c ≡ or_else a (or_else b c)
or_else_assoc none b c = refl
or_else_assoc (some v) b c = refl

module _ {V : Type 0} where
  pub find-put :
      (key k : List ℕ) (v : V) (m : List (List ℕ × V))
      → find key (put k v m) ≡ or_else (if same_str key k then some v else none) (find key m)
  unfolding find put
  find-put key k v [] = elim (Bool-cases (same_str key k)) [ inl e ↦ rw e | inr e ↦ rw e ]
  find-put key k v (x ∷ m) = elim (Bool-cases (same_str k x.0)) [
    | inl e ↦
        let same : k ≡ x.0 = same_str-≡ k x.0 e in
        rw e (elim (Bool-cases (same_str key k)) [
          | inl g ↦ rw g
          | inr g ↦ let h : same_str key x.0 ≡ false = ap (same_str key) (sym same) ∙ g in rw (g, h)
        ])
    | inr e ↦ rw e (elim (Bool-cases (same_str key x.0)) [
      | inl g ↦
          let there : same_str key k ≡ false = elim (Bool-cases (same_str key k)) [
            | inl h ↦
                let one : k ≡ x.0 = sym (same_str-≡ key k h) ∙ same_str-≡ key x.0 g in
                let yes_same : same_str k x.0 ≡ true =
                  ap (same_str k) (sym one) ∙ same_str_refl k in
                absurd (grind (arith, e, yes_same))
            | inr h ↦ h
          ] in
          rw (g, there)
      | inr g ↦ rw g (find-put key k v m)
    ])
  ]

-- A loop whose turns each override what a lookup finds: the last turn with a value counts.
pub loop-last_of :
    {A M V : Type 0} (P : A → Type 0) (turn : A → M → M) (loop : List A → M → M)
    (look : M → Option V) (f : A → Option V)
    → ((m : M) → loop [] m ≡ m)
    → ((a : A) (xs : List A) (m : M) → loop (a ∷ xs) m ≡ loop xs (turn a m))
    → ((a : A) (m : M) → P a → look (turn a m) ≡ or_else (f a) (look m))
    → (xs : List A) (m : M) → All P xs
    → look (loop xs m) ≡ or_else (last_of f xs) (look m)
loop-last_of P turn loop look f nil cons step [] m h = ap look (nil m)
loop-last_of P turn loop look f nil cons step (a ∷ xs) m h =
    ap look (cons a xs m)
    ∙ loop-last_of P turn loop look f nil cons step xs (turn a m) h.1
    ∙ ap (or_else (last_of f xs)) (step a m h.0)
    ∙ sym (or_else_assoc (last_of f xs) (f a) (look m))
