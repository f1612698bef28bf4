-- ===== src/Serving/Delivery.antt =====
-- A call of stepChunk hands out the generated tokens, in order and without loss, at most `chunk` of
-- them per slot.
use qwen_kernel.Prelude.{
  ◌+◌, ◌≡◌, ◌∙◌, ◌||◌, ◌++◌, ◌==◌, ℕ, refl, sym, ap, ap₂, subst, inl, inr, Bool, true, false, List,
  append-nil, append_assoc, arith, ltb, leb, Bool-cases, length, take, drop, length-append,
  length-take_le, length-drop, take-append-drop, take_all, drop-add,
}
use qwen_kernel.Chunk.{commit, commit_sample, end_step, finish_now, prefilling}
use qwen_kernel.Device.{Device}
use qwen_kernel.PrefixCache.{PrefixCache}
use qwen_kernel.Serving.Drain.{drain_if, drained}
use qwen_kernel.Serving.Emission.{
  Delivers, Delivers-same, Waits, drain_from-take, finish-Delivers, take_token-Delivers,
}
use qwen_kernel.Serving.Lanes.{commit-idle}
use qwen_kernel.Serving.Steps.{stepped}
use qwen_kernel.Slot.{Lane, Params, clear_drained, drain, idle, pending}
use qwen_kernel.Speculate.{take_token}

module _ {Rec Row : Type 0} (c : Params) (d : Device Rec Row) where
  -- Draining an active slot with nothing handed out in this call keeps what was sent, handed out
  -- and waiting equal to its generated tokens, in order; at most `chunk` tokens are handed out,
  -- and nothing waits while there is room.
  pub drain-Delivers :
      (sent : List ℕ) (l : Lane Rec Row)
      → l.slot.active ≡ true
      → Waits c.chunk sent l
      → Delivers c.chunk sent (drain c.chunk l)
  unfolding drained clear_drained
  drain-Delivers sent l a h =
      let q = l.slot.out_q in
      let head_ok = h.head_ok in
      let no_out = h.nothing_out in
      let empty_out : length l.out ≡ 0 = ap length no_out in
      let (j, head_at, out_at, some_left, fits, ends) =
        drain_from-take c.chunk (pending l.slot) l.slot.out_q_head l.out
          (omega (arith, empty_out)) in
      let waiting = length-drop l.slot.out_q_head q in
      let size : length (l.out ++ take j (pending l.slot)) ≡ j = omega (
        arith,
        length-append l.out (take j (pending l.slot)),
        length-take_le j (pending l.slot) some_left,
        empty_out,
      ) in
      let out_new : l.out ++ take j (pending l.slot) ≡ take j (pending l.slot) =
        ap (λ o. o ++ take j (pending l.slot)) no_out in
      subst (Delivers c.chunk sent) (sym (drain_if c d l true a)) (
        finish-Delivers c.chunk sent (drained c d l)
          (elim (Bool-cases (leb (length q) (l.slot.out_q_head + j))) [
            | inl dry ↦
                let all : take j (pending l.slot) ≡ pending l.slot =
                  take_all j (pending l.slot) (ground (arith, waiting)) in
                rw (head_at, out_at, dry)
                  (record {
                    head_ok = omega arith;
                    at_most = omega (arith, size, empty_out);
                    in_order = inl refl;
                    all_tokens = append-nil _ ∙ ap (λ o. sent ++ o) (out_new ∙ all) ∙ h.all_tokens;
                  })
            | inr left ↦
                rw (head_at, out_at, left)
                  (record {
                    head_ok = ground arith;
                    at_most = omega (arith, size, empty_out);
                    in_order = inr (elim ends [
                      | inl whole ↦ absurd (ground (arith, waiting))
                      | inr full ↦ omega (arith, size, empty_out)
                    ]);
                    all_tokens =
                        ap₂ (λ o r. sent ++ o ++ r) out_new (drop-add l.slot.out_q_head j q)
                        ∙ append_assoc sent (take j (pending l.slot)) (drop j (pending l.slot))
                        ∙ ap (λ r. sent ++ r) (take-append-drop j (pending l.slot))
                        ∙ h.all_tokens;
                  })
          ]))

  pub finish_now-Delivers :
      (sent : List ℕ) (k : PrefixCache Rec Row) (l : Lane Rec Row)
      → Delivers c.chunk sent l
      → Delivers c.chunk sent (finish_now c k l).1
  finish_now-Delivers sent k l h =
      finish-Delivers c.chunk sent (record l { slot = record (l.slot) { fin_pending = true } })
        (Delivers-same c.chunk sent l _ refl refl refl refl h)

  end_step-Delivers :
      (sent : List ℕ) (k : PrefixCache Rec Row) (l : Lane Rec Row)
      → Delivers c.chunk sent l
      → Delivers c.chunk sent (end_step c k l).1
  unfolding end_step
  end_step-Delivers sent k l h =
      elim (Bool-cases (leb c.n_ctx l.slot.pos || leb l.slot.max_gen l.slot.gen)) [
        | inl stop ↦ rw (stop, end_step) (finish_now-Delivers sent k l h)
        | inr go ↦ rw (go, end_step) h
      ]

  commit_sample-Delivers :
      (sent : List ℕ) (b : Bool) (k : PrefixCache Rec Row) (l : Lane Rec Row)
      → Delivers c.chunk sent l
      → Delivers c.chunk sent (commit_sample c b k l).1
  unfolding commit_sample
  commit_sample-Delivers sent b k l h =
      let l' : Lane Rec Row = record l { slot = stepped c d b l.slot } in
      let h' : Delivers c.chunk sent l' = Delivers-same c.chunk sent l l' refl refl refl refl h in
      elim (Bool-cases (l.samp == c.eos)) [
        | inl e ↦ rw (e, commit_sample) (finish_now-Delivers sent k l' h')
        | inr e ↦
            rw (e, commit_sample)
              (end_step-Delivers sent k (take_token c.chunk l' l.samp)
                (take_token-Delivers c.chunk sent l' l.samp h'))
      ]

  pub commit-Delivers :
      (sent : List ℕ) (k : PrefixCache Rec Row) (l : Lane Rec Row)
      → Delivers c.chunk sent l
      → Delivers c.chunk sent (commit c k l).1
  unfolding commit
  commit-Delivers sent k l h = elim (Bool-cases (idle l.slot)) [
    | inl rests ↦ subst (λ r. Delivers c.chunk sent r.1) (sym (commit-idle c d k l rests)) h
    | inr busy ↦ elim (Bool-cases (prefilling l.slot)) [
      | inr read ↦ rw (busy, read, commit) (commit_sample-Delivers sent false k l h)
      | inl unread ↦ elim (Bool-cases (ltb (l.slot.cursor + 1) (length l.slot.prompt))) [
        | inl more ↦
            rw (busy, unread, more, commit) (Delivers-same c.chunk sent l _ refl refl refl refl h)
        | inr last_one ↦
            rw (busy, unread, last_one, commit)
              (commit_sample-Delivers sent true k _
                (Delivers-same c.chunk sent l _ refl refl refl refl h))
      ]
    ]
  ]
