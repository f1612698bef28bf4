-- ===== src/Speculate/Accept.antt =====
-- What a verify round accepts: the drafted tokens that greedy decoding would have fed anyway.
use qwen_kernel.Prelude.{
  ◌+◌, ◌≤◌, ◌<◌, ◌≡◌, ◌∙◌, ◌≢◌, ◌⊎◌, ◌∷◌, ◌++◌, ◌==◌, ℕ, zero, suc, refl, sym, ap, subst, inl, inr,
  true, false, none, some, List, [], arith, Bool-cases, Option-cases, length, take, snoc-injective,
}
use qwen_kernel.Device.{Device, feeds, feeds_ids}
use qwen_kernel.Device.Steps.{length-feeds_ids}
use qwen_kernel.Greedy.{Trace, advance, after, greedy}
use qwen_kernel.Greedy.Laws.{after-advance, greedy-advance}
use qwen_kernel.Speculate.{Accepted, accept, accept_from, find_eos}

-- No token of the list is the end-of-sequence token.
abbrev pub NoEos : ℕ → List ℕ → Type 0
NoEos eos [] = Unit
NoEos eos (t ∷ ts) = (t ≢ eos) × NoEos eos ts

-- What the scan for an accepted end-of-sequence token says of the k accepted ids.
pub find_eos-none :
    (eos : ℕ) (ids : List ℕ) (k i : ℕ) → find_eos eos ids k i ≡ none → NoEos eos (take k ids)
unfolding find_eos
find_eos-none eos ids zero i h = tt
find_eos-none eos [] (suc k) i h = tt
find_eos-none eos (t ∷ ids) (suc k) i h = elim (Bool-cases (t == eos)) [
  | inl e ↦ ground arith
  | inr e ↦ (ground arith, find_eos-none eos ids k (i + 1) (ground arith))
]

pub find_eos-some :
    (eos : ℕ) (ids : List ℕ) (k i n : ℕ)
    → find_eos eos ids k i ≡ some n
    → k ≤ length ids
    → (j : ℕ) × (n ≡ i + j)
      × (j < k)
      × NoEos eos (take j ids)
      × (take (suc j) ids ≡ take j ids ++ eos ∷ [])
unfolding find_eos
find_eos-some eos ids zero i n h l = cc
find_eos-some eos [] (suc k) i n h l = cc
find_eos-some eos (t ∷ ids) (suc k) i n h l = elim (Bool-cases (t == eos)) [
  | inl e ↦ (0, ground arith, omega arith, tt, ground arith)
  | inr e ↦
      let (j, at, below, free, cut) =
        find_eos-some eos ids k (i + 1) n (ground arith) (omega arith) in
      (suc j, omega arith, omega arith, (ground arith, free), ap (◌∷◌ t) cut)
]

module _ {Rec Row : Type 0} (d : Device Rec Row) where
  -- The first m + 1 drafted tokens are those that greedy decoding feeds, so their states and ids
  -- are its states and tokens.
  pub record FollowsGreedy (t : Trace Rec Row) (toks : List ℕ) (m : ℕ) : Type 0 where
    pub states : (j : ℕ) → j ≤ m → feeds d t.live (take j toks) t.at ≡ (after d t j).live
    pub tokens : (j : ℕ) → j ≤ m → take j (feeds_ids d t.live toks t.at) ≡ greedy d t j
    pub within : m ≤ length toks

  FollowsGreedy-one : (t : Trace Rec Row) (ts : List ℕ) → FollowsGreedy t (t.next ∷ ts) 1
  unfolding feeds feeds_ids after greedy advance
  FollowsGreedy-one t ts = record { states = states; tokens = tokens; within = omega arith }
    where
      states : (j : ℕ) → j ≤ 1 → feeds d t.live (take j (t.next ∷ ts)) t.at ≡ (after d t j).live
      states zero h = refl
      states (suc zero) h = refl
      states (suc (suc j)) h = absurd (omega arith)

      tokens : (j : ℕ) → j ≤ 1 → take j (feeds_ids d t.live (t.next ∷ ts) t.at) ≡ greedy d t j
      tokens zero h = refl
      tokens (suc zero) h = refl
      tokens (suc (suc j)) h = absurd (omega arith)

  FollowsGreedy-cons :
      (t : Trace Rec Row) (toks : List ℕ) (m : ℕ)
      → FollowsGreedy (advance d t) toks m
      → FollowsGreedy t (t.next ∷ toks) (suc m)
  unfolding feeds feeds_ids advance after greedy
  FollowsGreedy-cons t toks m f = record {
    states = states;
    tokens = tokens;
    within = let w = f.within in omega arith;
  }
    where
      states :
          (j : ℕ) → j ≤ suc m → feeds d t.live (take j (t.next ∷ toks)) t.at ≡ (after d t j).live
      states zero h = refl
      states (suc j) h = f.states j (omega arith) ∙ ap (λ u. u.live) (after-advance d t j)

      tokens : (j : ℕ) → j ≤ suc m → take j (feeds_ids d t.live (t.next ∷ toks) t.at) ≡ greedy d t j
      tokens zero h = refl
      tokens (suc j) h =
          ap (◌∷◌ (advance d t).next) (f.tokens j (omega arith)) ∙ sym (greedy-advance d t j)

  -- The accept loop stops within the drafted tokens that follow greedy decoding.
  pub accept_from-FollowsGreedy :
      (ts : List ℕ) (t : Trace Rec Row) (k : ℕ)
      → (m : ℕ) × (accept_from ts (feeds_ids d t.live (t.next ∷ ts) t.at) k ≡ k + m)
        × FollowsGreedy t (t.next ∷ ts) (suc m)
  unfolding accept_from feeds_ids advance
  accept_from-FollowsGreedy [] t k = (0, omega arith, FollowsGreedy-one t [])
  accept_from-FollowsGreedy (u ∷ us) t k = elim (Bool-cases (u == (advance d t).next)) [
    | inl e ↦
        let same : (advance d t).next ≡ u = ground arith in
        let (m, stops, f) = accept_from-FollowsGreedy us (advance d t) (k + 1) in
        (
          suc m,
          rw (e, accept_from) (ground (arith, stops)),
          FollowsGreedy-cons t (u ∷ us) (suc m)
              (subst (λ x. FollowsGreedy (advance d t) (x ∷ us) (suc m)) same f),
        )
    | inr e ↦ (0, rw (e, accept_from) (omega arith), FollowsGreedy-one t (u ∷ us))
  ]

  -- What a round may commit: the tokens fed and their state, the tokens emitted, and whether the
  -- token after them is the end of the sequence.
  pub record Commits (eos : ℕ) (t : Trace Rec Row) (toks ids : List ℕ) (a : Accepted) : Type 0 where
    pub some_fed : 1 ≤ a.fed
    pub fed_within : a.fed ≤ length toks
    pub state : feeds d t.live (take a.fed toks) t.at ≡ (after d t a.fed).live
    pub tokens : take a.emitted ids ≡ greedy d t a.emitted
    pub no_eos : NoEos eos (take a.emitted ids)
    pub ending :
        ((a.eos_hit ≡ false) × (a.emitted ≡ a.fed))
        ⊎ ((a.eos_hit ≡ true) × (a.fed ≡ suc a.emitted) × ((after d t a.fed).next ≡ eos))

  -- For a batch that starts with the next token of a greedy run and the ids of the batched pass
  -- over it: at least one and at most all of its tokens are committed, the state after feeding
  -- these is that of the greedy run, the emitted ids are the run's next tokens, none the end of
  -- the sequence, and either all committed ids are emitted or exactly the last one is not and is
  -- the end of the sequence.
  pub accept-Commits :
      (eos : ℕ) (t : Trace Rec Row) (ts : List ℕ)
      → Commits eos t
          (t.next ∷ ts)
          (feeds_ids d t.live (t.next ∷ ts) t.at)
          (accept eos (t.next ∷ ts) (feeds_ids d t.live (t.next ∷ ts) t.at))
  unfolding accept greedy
  accept-Commits eos t ts =
      let ids = feeds_ids d t.live (t.next ∷ ts) t.at in
      let (m, stops, f) = accept_from-FollowsGreedy ts t 1 in
      let size : length ids ≡ length (t.next ∷ ts) = length-feeds_ids d t.live (t.next ∷ ts) t.at in
      let stops' : accept_from ts ids 1 ≡ suc m = omega (arith, stops) in
      elim (Option-cases (find_eos eos ids (suc m) 0)) [
        | inl e ↦
            rw (stops', e)
              (record {
                some_fed = omega arith;
                fed_within = f.within;
                state = f.states (suc m) (omega arith);
                tokens = f.tokens (suc m) (omega arith);
                no_eos = find_eos-none eos ids (suc m) 0 e;
                ending = inl (refl, refl);
              })
        | inr (i, e) ↦
            let (j, at, below, free, cut) =
              find_eos-some eos ids (suc m) 0 i e (let w = f.within in omega (arith, size)) in
            let same : i ≡ j = omega arith in
            let next : i + 1 ≡ suc j = omega arith in
            rw (stops', e)
              (record {
                some_fed = omega arith;
                fed_within = let w = f.within in omega arith;
                state = rw next (f.states (suc j) below);
                tokens = rw same (f.tokens j (omega arith));
                no_eos = rw same free;
                ending = inr (
                  refl,
                  omega arith,
                  rw next (
                      snoc-injective (greedy d t j) _ _ (
                        sym (f.tokens (suc j) below)
                        ∙ cut
                        ∙ ap (λ us. us ++ eos ∷ []) (f.tokens j (omega arith)))),
                );
              })
      ]
