-- ===== src/Serving/Outputs.antt =====
-- The output of a slot over verify rounds.
use qwen_kernel.Prelude.{
  ◌>>=◌, ◌+◌, ◌||◌, ℕ, zero, suc, refl, inl, inr, Bool, List, ltb, leb, Bool-cases, length, take,
  Run, done, exited, stalled,
}
use qwen_kernel.Device.{Device}
use qwen_kernel.Prefill.{verify_round}
use qwen_kernel.PrefixCache.{PrefixCache}
use qwen_kernel.Serving.Delivery.{finish_now-Delivers}
use qwen_kernel.Serving.Emission.{Delivers, Delivers-same, take_tokens-Delivers}
use qwen_kernel.Slot.{Lane, Params}
use qwen_kernel.Speculate.{
  accept, end_round, history_size, may_speculate, settle, spec_draft, spec_loop, spec_round,
}

-- What a run that returns leaves.
abbrev pub OnDone : {A : Type 0} → (A → Type 0) → Run A → Type 0
OnDone P (done a) = P a
OnDone P exited = Unit
OnDone P stalled = Unit

pub OnDone-bind :
    {A B : Type 0} (P : B → Type 0) (r : Run A) (f : A → Run B)
    → ((a : A) → OnDone P (f a))
    → OnDone P (r >>= f)
OnDone-bind P (done a) f h = h a
OnDone-bind P exited f h = tt
OnDone-bind P stalled f h = tt

pub OnDone-then :
    {A B : Type 0} (Q : A → Type 0) (P : B → Type 0) (r : Run A) (f : A → Run B)
    → OnDone Q r
    → ((a : A) → Q a → OnDone P (f a))
    → OnDone P (r >>= f)
OnDone-then Q P (done a) f q h = h a q
OnDone-then Q P exited f q h = tt
OnDone-then Q P stalled f q h = tt

module _ {Rec Row : Type 0} (c : Params) (d : Device Rec Row) where
  spec_draft-Delivers :
      (sent : List ℕ) (l : Lane Rec Row)
      → Delivers c.chunk sent l
      → Delivers c.chunk sent (record l { slot = (spec_draft c l.slot).0 })
  unfolding spec_draft
  spec_draft-Delivers sent l h = elim (Bool-cases (ltb (history_size l.slot) (c.spec_l + 1))) [
    | inl short ↦ rw (short, spec_draft) h
    | inr go ↦ rw (go, spec_draft) (Delivers-same c.chunk sent l _ refl refl refl refl h)
  ]

  end_round-Delivers :
      (sent : List ℕ) (b : Bool) (k : PrefixCache Rec Row) (l : Lane Rec Row)
      → Delivers c.chunk sent l
      → Delivers c.chunk sent (end_round c d b k l).1
  unfolding end_round
  end_round-Delivers sent b k l h =
      elim (Bool-cases (b || leb l.slot.max_gen l.slot.gen || leb c.n_ctx l.slot.pos)) [
        | inl stop ↦ rw (stop, end_round) (finish_now-Delivers c d sent k l h)
        | inr go ↦ rw (go, end_round) h
      ]

  spec_round-Delivers :
      (sent : List ℕ) (idx : ℕ) (k : PrefixCache Rec Row) (l : Lane Rec Row) (toks : List ℕ)
      → Delivers c.chunk sent l
      → OnDone (λ r. Delivers c.chunk sent r.1) (spec_round c d idx k l toks)
  unfolding spec_round
  spec_round-Delivers sent idx k l toks h =
      let P = (λ (r : PrefixCache Rec Row × Lane Rec Row). Delivers c.chunk sent r.1) in
      OnDone-bind P (verify_round c d idx l.live toks l.slot.pos) _ (λ v.
        let a = accept c.eos toks v.ids in
        OnDone-bind P (settle c d idx l.slot.pos toks a.fed v) _ (λ lv.
          end_round-Delivers sent a.eos_hit k _ (
            Delivers-same c.chunk sent _ _ refl refl refl refl (
              take_tokens-Delivers c.chunk sent (take a.emitted v.ids)
                (record l { live = lv; slot = record (l.slot) { pos = l.slot.pos + a.fed } })
                (Delivers-same c.chunk sent l _ refl refl refl refl h)))))

  pub spec_loop-Delivers :
      (sent : List ℕ) (fuel idx : ℕ) (k : PrefixCache Rec Row) (l : Lane Rec Row)
      → Delivers c.chunk sent l
      → OnDone (λ r. Delivers c.chunk sent r.1) (spec_loop c d fuel idx k l)
  unfolding spec_loop
  spec_loop-Delivers sent zero idx k l h = tt
  spec_loop-Delivers sent (suc fuel) idx k l h =
      let P = (λ (r : PrefixCache Rec Row × Lane Rec Row). Delivers c.chunk sent r.1) in
      let drafted = spec_draft c l.slot in
      let l' : Lane Rec Row = record l { slot = drafted.0 } in
      let h' = spec_draft-Delivers sent l h in
      elim (Bool-cases (may_speculate c d l)) [
        | inr stop ↦ rw (stop, spec_loop) h
        | inl go ↦ elim (Bool-cases (ltb (length drafted.1) 2)) [
          | inl few ↦ rw (go, few, spec_loop) h'
          | inr more ↦
              rw (go, more, spec_loop)
                (OnDone-then P P (spec_round c d idx k l' drafted.1) _
                  (spec_round-Delivers sent idx k l' drafted.1 h')
                  (λ r q. spec_loop-Delivers sent fuel idx r.0 r.1 q))
        ]
      ]
