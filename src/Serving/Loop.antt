-- ===== src/Serving/Loop.antt =====
-- Phase 2: verify rounds until the slot has filled its output, drafts nothing or ends.
use qwen_kernel.Prelude.{
  ◌+◌, ◌≤◌, ◌<◌, ◌≡◌, ◌||◌, ◌∷◌, ℕ, zero, suc, refl, ap, inl, inr, Bool, true, false, List, arith,
  ltb, leb, Bool-cases, length, Run, done,
}
use qwen_kernel.Device.{Device, IsFaithful}
use qwen_kernel.PrefixCache.{PrefixCache}
use qwen_kernel.PrefixCache.Coherent.{IsCoherent, snapshot_slot-IsCoherent}
use qwen_kernel.Serving.Capture.{HasRun-Captured}
use qwen_kernel.Serving.Cases.{finish_cases}
use qwen_kernel.Serving.Draft.{Drafted, spec_draft-Drafted}
use qwen_kernel.Serving.Round.{Committed, Fits, end_round-Status}
use qwen_kernel.Serving.Rounds.{RoundDone, spec_round-RoundDone}
use qwen_kernel.Serving.Status.{Decoding, Status, decoding, ended, reading}
use qwen_kernel.Slot.{Lane, Params, reset_spec}
use qwen_kernel.Speculate.{end_round, may_speculate, spec_draft, spec_loop, spec_round}

-- An engine that owns all layers and whose verify batches fit the batched pass.
pub record IsWhole (c : Params) : Type 0 where
  pub first : c.l_first ≡ 0
  pub last : c.l_end ≡ c.n_layer
  pub some_batch : 1 ≤ c.max_b
  pub small_draft : c.spec_k ≤ c.max_b

module _ {Rec Row : Type 0} (c : Params) (d : Device Rec Row) (f : IsFaithful d) where
  end_round-pos :
      (b : Bool) (k : PrefixCache Rec Row) (l : Lane Rec Row)
      → (end_round c d b k l).1.slot.pos ≡ l.slot.pos
  unfolding end_round reset_spec
  end_round-pos b k l =
      elim (Bool-cases (b || leb l.slot.max_gen l.slot.gen || leb c.n_ctx l.slot.pos)) [
        | inl stop ↦
            rw (stop, end_round)
              (finish_cases (λ x. x.slot.pos ≡ l.slot.pos)
                (record l { slot = record (l.slot) { fin_pending = true } }) refl (λ _ _. refl))
        | inr go ↦ rw (go, end_round) refl
      ]

  end_round-IsCoherent :
      (b : Bool) (k : PrefixCache Rec Row) (l : Lane Rec Row) (n g : ℕ)
      → IsCoherent d k
      → Committed c d f l.slot l.live b n g
      → IsCoherent d (end_round c d b k l).0
  unfolding end_round
  end_round-IsCoherent b k l n g q h =
      let less : n ≤ g = elim h.next [
        | inl (_, e, _) ↦ omega arith
        | inr (_, e, _) ↦ omega arith
      ] in
      elim (Bool-cases (b || leb l.slot.max_gen l.slot.gen || leb c.n_ctx l.slot.pos)) [
        | inl stop ↦
            rw (stop, end_round)
              (snapshot_slot-IsCoherent d c k l.slot l.live q
                (HasRun-Captured c d l.slot l.live n g h.prompt_ok h.run h.generated less))
        | inr go ↦ rw (go, end_round) q
      ]

  -- What a run of rounds leaves: it ends, the slot keeps its status, the cache stays coherent.
  abbrev pub Served : Run (PrefixCache Rec Row × Lane Rec Row) → Type 0
  Served r =
      (k : PrefixCache Rec Row) × (l : Lane Rec Row) × (r ≡ done (k, l))
      × Status c d l.slot l.live
      × IsCoherent d k

  module _ (w : IsWhole c) (idx : ℕ) (slot_ok : idx < c.n_slots) where
    Decoding-round :
        (k : PrefixCache Rec Row) (l : Lane Rec Row) (n : ℕ) (toks : List ℕ)
        → Decoding c d l.slot l.live n
        → Drafted c d l.slot toks
        → RoundDone c d f l n k (spec_round c d idx k l toks)
    Decoding-round k l n toks e q =
        let size = ap length q.starts in
        let count = e.generated.count in
        let fits : Fits c idx l.slot.pos (length (l.slot.last ∷ q.rest)) = record {
          whole_first = w.first;
          whole_last = w.last;
          slot_ok = slot_ok;
          some_tokens = omega arith;
          in_batch = let a = q.small in let b = w.small_draft in omega (arith, size);
          in_context = let a = q.in_context in omega (arith, size);
        } in
        rw q.starts (
          spec_round-RoundDone c d f idx k l n q.rest e fits
            (let a = q.in_request in omega (arith, size)))

    -- On an engine that owns all layers and drafts no more than a batch holds, over a faithful
    -- device, the loop of verify rounds on a slot whose status is sound and a coherent cache, with
    -- fuel for one round per free position and at least one, ends without leaving the process; the
    -- slot's status stays sound and the cache coherent.
    pub spec_loop-Served :
        (fuel : ℕ) (k : PrefixCache Rec Row) (l : Lane Rec Row)
        → 1 ≤ fuel
        → c.n_ctx < l.slot.pos + fuel
        → IsCoherent d k
        → Status c d l.slot l.live
        → Served (spec_loop c d fuel idx k l)
    unfolding spec_loop
    spec_loop-Served zero k l p h q s = absurd (omega arith)
    spec_loop-Served (suc fuel) k l p h q (reading e) =
        let stop : may_speculate c d l ≡ false = let u = e.unread in ground arith in
        rw (stop, spec_loop) (k, l, refl, reading e, q)
    spec_loop-Served (suc fuel) k l p h q (ended g e) =
        let stop : may_speculate c d l ≡ false = let u = e.stopped in ground arith in
        rw (stop, spec_loop) (k, l, refl, ended g e, q)
    spec_loop-Served (suc fuel) k l p h q (decoding n e) = elim (Bool-cases (may_speculate c d l)) [
      | inr stop ↦ rw (stop, spec_loop) (k, l, refl, decoding n e, q)
      | inl go ↦
          let drafted = spec_draft c l.slot in
          let l' : Lane Rec Row = record l { slot = drafted.0 } in
          let (e', batch, at) = spec_draft-Drafted c d l.slot l.live n e in
          elim (Bool-cases (ltb (length drafted.1) 2)) [
            | inl few ↦ rw (go, few, spec_loop) (k, l', refl, decoding n e', q)
            | inr some_draft ↦
                let r = Decoding-round k l' n drafted.1 e' (batch (ground arith)) in
                let next = end_round c d r.hit k r.lane in
                let pos = end_round-pos r.hit k r.lane in
                let further = r.further in
                let inside = r.in_context in
                rw (go, some_draft, r.result, spec_loop)
                  (spec_loop-Served fuel next.0 next.1 (omega (arith, pos)) (omega (arith, pos))
                    (end_round-IsCoherent r.hit k r.lane r.fed r.count q r.committed)
                    (end_round-Status c d f k r.lane r.hit r.fed r.count r.committed))
          ]
    ]
