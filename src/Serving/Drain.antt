-- ===== src/Serving/Drain.antt =====
-- Phase 1 keeps every slot's status: draining touches only the queue, and frees a slot that ended.
use qwen_kernel.Prelude.{
  ◌≡◌, if◌then◌else◌, ℕ, refl, sym, ap, subst, inl, inr, Bool, true, false, List, [], arith, leb,
  Bool-cases, length,
}
use qwen_kernel.Device.{Device, Live}
use qwen_kernel.Serving.Cases.{finish_cases, freed}
use qwen_kernel.Serving.Lanes.{LaneOk, unused, used}
use qwen_kernel.Serving.Status.{Status, decoding, ended, reading}
use qwen_kernel.Slot.{
  Lane, Params, Slot, clear_drained, drain, drain_from, finish, pending, reset_spec,
}

module _ {Rec Row : Type 0} (c : Params) (d : Device Rec Row) where
  -- A slot whose queue was replaced; one that still reads its prompt has none.
  Status-queue :
      (s : Slot) (lv : Live Rec Row) (q : List ℕ) (h : ℕ)
      → (s.out_q ≡ [] → s.out_q_head ≡ 0 → (q ≡ []) × (h ≡ 0))
      → Status c d s lv
      → Status c d (record s { out_q = q; out_q_head = h }) lv
  Status-queue s lv q h none_left (reading e) =
      let (no_q, no_h) = none_left e.no_queue e.no_head in
      reading (record {
        active = e.active;
        running = e.running;
        prompt_ok = record { some_prompt = e.prompt_ok.some_prompt; fits = e.prompt_ok.fits };
        unread = e.unread;
        no_tokens = e.no_tokens;
        no_count = e.no_count;
        no_queue = no_q;
        no_head = no_h;
        state = e.state;
      })
  Status-queue s lv q h none_left (decoding n e) = decoding n (record {
    active = e.active;
    running = e.running;
    prompt_ok = record { some_prompt = e.prompt_ok.some_prompt; fits = e.prompt_ok.fits };
    run = record { read_all = e.run.read_all; position = e.run.position; state = e.run.state };
    generated = record {
      tokens = e.generated.tokens;
      count = e.generated.count;
      no_eos = e.generated.no_eos;
    };
    sampled = e.sampled;
    room = e.room;
    wanted = e.wanted;
  })
  Status-queue s lv q h none_left (ended g e) = ended g (record {
    stopped = e.stopped;
    prompt_ok = record { some_prompt = e.prompt_ok.some_prompt; fits = e.prompt_ok.fits };
    generated = record {
      tokens = e.generated.tokens;
      count = e.generated.count;
      no_eos = e.generated.no_eos;
    };
    within = e.within;
    reason = e.reason;
  })

  -- A slot that waits to be freed has ended; freeing it changes neither prompt nor tokens.
  freed-Status :
      (l : Lane Rec Row)
      → l.slot.fin_pending ≡ true
      → Status c d l.slot l.live
      → Status c d (freed l).slot (freed l).live
  unfolding reset_spec
  freed-Status l p (reading e) = let r = e.running in ground arith
  freed-Status l p (decoding n e) = let r = e.running in ground arith
  freed-Status l p (ended g e) = ended g (record {
    stopped = refl;
    prompt_ok = record { some_prompt = e.prompt_ok.some_prompt; fits = e.prompt_ok.fits };
    generated = record {
      tokens = e.generated.tokens;
      count = e.generated.count;
      no_eos = e.generated.no_eos;
    };
    within = e.within;
    reason = e.reason;
  })

  drained_slot :
      (s : Slot) (lv : Live Rec Row) (q : List ℕ) (h : ℕ)
      → (s.out_q ≡ [] → s.out_q_head ≡ 0 → (q ≡ []) × (h ≡ 0))
      → Status c d s lv
      → Status c d (clear_drained (record s { out_q = q; out_q_head = h })) lv
  unfolding clear_drained
  drained_slot s lv q h none_left e = elim (Bool-cases (leb (length q) h)) [
    | inl dry ↦ rw (dry, clear_drained) (Status-queue s lv [] 0 (λ _ _. (refl, refl)) e)
    | inr left ↦ rw (left, clear_drained) (Status-queue s lv q h none_left e)
  ]

  -- Draining an active slot.
  unfoldable pub drained : Lane Rec Row → Lane Rec Row
  drained l =
      let moved = drain_from c.chunk (pending l.slot) l.slot.out_q_head l.out in
      record l { slot = clear_drained (record (l.slot) { out_q_head = moved.0 }); out = moved.1 }

  pub drain_if :
      (l : Lane Rec Row) (b : Bool)
      → l.slot.active ≡ b
      → drain c.chunk l ≡ (if b then finish (drained l) else l)
  unfolding drain drained
  drain_if l b a = ap (λ x. if x then finish (drained l) else l) a

  drained-Status :
      (l : Lane Rec Row) → Status c d l.slot l.live → Status c d (drained l).slot (drained l).live
  unfolding drained drain_from
  drained-Status l e =
      drained_slot l.slot l.live l.slot.out_q
        (drain_from c.chunk (pending l.slot) l.slot.out_q_head l.out).0 (λ q h. (q, rw (q, h))) e

  pub drain-LaneOk :
      (l : Lane Rec Row)
      → LaneOk c d l.slot l.live
      → LaneOk c d (drain c.chunk l).slot (drain c.chunk l).live
  drain-LaneOk l e = elim (Bool-cases l.slot.active) [
    | inr a ↦ subst (λ x. LaneOk c d x.slot x.live) (sym (drain_if l false a)) e
    | inl a ↦
        let kept = drained-Status l (serves e a) in
        subst (λ x. LaneOk c d x.slot x.live) (sym (drain_if l true a))
          (finish_cases (λ x. LaneOk c d x.slot x.live) (drained l) (used kept)
            (λ p _. used (freed-Status (drained l) p kept)))
  ]
    where
      serves : {s : Slot} {lv : Live Rec Row} → LaneOk c d s lv → s.active ≡ true → Status c d s lv
      serves (unused n) a = cc
      serves (used e) a = e
