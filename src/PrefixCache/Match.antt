-- ===== src/PrefixCache/Match.antt =====
-- matchPrefix finds the longest usable entry; the victim of snapshotSlot.
use qwen_kernel.Prelude.{
  ◌+◌, ◌≤◌, ◌<◌, ◌≡◌, ◌∙◌, ◌⊎◌, ◌&&◌, ◌∷◌, ◌==◌, ℕ, suc, refl, ap, ap₂, inl, inr, Bool, true, false,
  Option, none, some, List, [], arith, ltb, Bool-cases, length, get_elem?, take, All,
}
use qwen_kernel.PrefixCache.{Entry, PrefixCache, improves, match_from, match_prefix, matches}

-- The tokens are a prefix of the prompt.
pub matches-take : (ts prompt : List ℕ) → matches ts prompt ≡ true → ts ≡ take (length ts) prompt
unfolding matches
matches-take [] prompt h = refl
matches-take (t ∷ ts) [] h = cc
matches-take (t ∷ ts) (p ∷ ps) h = elim (Bool-cases (t == p)) [
  | inl e ↦ ap₂ (λ x xs. x ∷ xs) (ground arith) (matches-take ts ps (rw e at h))
  | inr e ↦ ground arith
]

module _ {Rec Row : Type 0} where
  -- An entry that matchPrefix may choose: valid, a strict prefix of the prompt.
  abbrev pub usable : List ℕ → ℕ → Entry Rec Row → Bool
  usable prompt n e = e.valid && ltb (length e.tokens) n && matches e.tokens prompt

  -- The scan keeps the best so far, or finds a usable entry that is longer, the longest there is.
  abbrev Best : List (Entry Rec Row) → List ℕ → ℕ → ℕ → Option ℕ → ℕ → Type 0
  Best es prompt n i best len =
      ((match_from es prompt n i best len ≡ best)
        × All (λ e. usable prompt n e ≡ true → length e.tokens ≤ len) es)
      ⊎ ((j : ℕ) × (e : Entry Rec Row) × (match_from es prompt n i best len ≡ some (i + j))
          × (get_elem? es j ≡ some e)
          × (usable prompt n e ≡ true)
          × (len < length e.tokens)
          × All (λ x. usable prompt n x ≡ true → length x.tokens ≤ length e.tokens) es)

  improves-usable :
      (e : Entry Rec Row) (prompt : List ℕ) (n len : ℕ)
      → improves e prompt n len ≡ true
      → (usable prompt n e ≡ true) × (len < length e.tokens)
  improves-usable e prompt n len h = ground arith

  not_improves :
      (e : Entry Rec Row) (prompt : List ℕ) (n len : ℕ)
      → improves e prompt n len ≡ false
      → usable prompt n e ≡ true
      → length e.tokens ≤ len
  not_improves e prompt n len h u = ground arith

  match_from-Best :
      (es : List (Entry Rec Row)) (prompt : List ℕ) (n i : ℕ) (best : Option ℕ) (len : ℕ)
      → Best es prompt n i best len
  unfolding match_from
  match_from-Best [] prompt n i best len = inl (refl, tt)
  match_from-Best (e ∷ es) prompt n i best len = elim (Bool-cases (improves e prompt n len)) [
    | inl hit ↦
        let (u, longer) = improves-usable e prompt n len hit in
        elim (match_from-Best es prompt n (i + 1) (some i) (length e.tokens)) [
          | inl (same, rest) ↦ inr (
            0,
            e,
            let z : i ≡ i + 0 = omega arith in rw (hit, match_from) (same ∙ ap some z),
            refl,
            u,
            longer,
            ((λ _. omega arith), rest),
          )
          | inr (j, x, found, at, v, more, rest) ↦ inr (
            suc j,
            x,
            let z : i + 1 + j ≡ i + suc j = omega arith in rw (hit, match_from) (found ∙ ap some z),
            at,
            v,
            omega arith,
            ((λ _. omega arith), rest),
          )
        ]
    | inr miss ↦ elim (match_from-Best es prompt n (i + 1) best len) [
      | inl (same, rest) ↦
          inl (rw (miss, match_from) same, (not_improves e prompt n len miss, rest))
      | inr (j, x, found, at, v, more, rest) ↦ inr (
        suc j,
        x,
        let z : i + 1 + j ≡ i + suc j = omega arith in rw (miss, match_from) (found ∙ ap some z),
        at,
        v,
        more,
        ((λ w. let q = not_improves e prompt n len miss w in omega arith), rest),
      )
    ]
  ]

  -- matchPrefix returns an entry that is valid and whose tokens are a prefix of the prompt,
  -- shorter than the length given, more than 8, and the most of any such entry; or it returns
  -- nothing, and every such entry has at most 8 tokens.
  pub match_prefix-Best :
      (k : PrefixCache Rec Row) (prompt : List ℕ) (n : ℕ)
      → ((match_prefix k prompt n ≡ none)
          × All (λ e. usable prompt n e ≡ true → length e.tokens ≤ 8) k.entries)
        ⊎ ((j : ℕ) × (e : Entry Rec Row) × (match_prefix k prompt n ≡ some j)
            × (get_elem? k.entries j ≡ some e)
            × (e.valid ≡ true)
            × (e.tokens ≡ take (length e.tokens) prompt)
            × (8 < length e.tokens)
            × (length e.tokens < n)
            × All (λ x. usable prompt n x ≡ true → length x.tokens ≤ length e.tokens) k.entries)
  unfolding match_prefix
  match_prefix-Best k prompt n = elim (match_from-Best k.entries prompt n 0 none 8) [
    | inl (miss, rest) ↦ inl (miss, rest)
    | inr (j, e, found, at, u, longer, rest) ↦
        let z : 0 + j ≡ j = omega arith in
        let same : matches e.tokens prompt ≡ true = ground arith in
        inr (
          j,
          e,
          found ∙ ap some z,
          at,
          ground arith,
          matches-take e.tokens prompt same,
          longer,
          ground arith,
          rest,
        )
  ]
