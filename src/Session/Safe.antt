-- ===== src/Session/Safe.antt =====
-- Whatever the order of the calls, what a slot generates is greedy decoding of its prompt.
use qwen_kernel.Prelude.{
  ◌+◌, ◌<◌, ◌≡◌, ◌∙◌, ℕ, refl, sym, subst, inl, inr, true, some, List, Option-cases, length,
  get_elem?, All-get_elem?, done,
}
use qwen_kernel.Chunk.{Engine, step_chunk}
use qwen_kernel.Device.{Device, IsFaithful, Live}
use qwen_kernel.Greedy.{begin, greedy}
use qwen_kernel.Serving.Calls.{EngineOk, step_chunk-EngineOk}
use qwen_kernel.Serving.Lanes.{LaneOk, unused, used}
use qwen_kernel.Serving.Loop.{IsWhole}
use qwen_kernel.Serving.Requests.{slot_cancel-EngineOk, slot_start-EngineOk}
use qwen_kernel.Serving.Status.{decoding, ended, reading}
use qwen_kernel.Session.{Reaches, by_cancel, by_start, by_step, opened}
use qwen_kernel.Slot.{Lane, Params, Slot}
use qwen_kernel.Speculate.Accept.{NoEos}
use qwen_kernel.Start.{StartError, bad_slot, refused, slot_start, start_error, started}

module _ {Rec Row : Type 0} (c : Params) (d : Device Rec Row) (f : IsFaithful d)
    (w : IsWhole c) where
  done_eq : {A : Type 0} {a b : A} → done a ≡ done b → a ≡ b
  done_eq h = cc

  started_done : {a b : Engine Rec Row} → done (started a) ≡ done (started b) → a ≡ b
  started_done h = cc

  refused_done :
      {P : Type 0} {a : Engine Rec Row} {err : StartError}
      → done (started a) ≡ done (refused err)
      → P
  refused_done h = cc

  started-EngineOk :
      (e e' : Engine Rec Row) (slot : ℕ) (prompt : List ℕ) (max_gen snap_prefix : ℕ)
      → EngineOk c d e
      → length prompt + max_gen < 4294967296
      → slot_start c d e slot prompt max_gen snap_prefix ≡ done (started e')
      → EngineOk c d e'
  unfolding slot_start
  started-EngineOk e e' slot prompt max_gen snap_prefix h small ran =
      elim (Option-cases (get_elem? e.lanes slot)) [
        | inl gone ↦ refused_done {err = bad_slot} (sym ran ∙ rw (gone, slot_start) refl)
        | inr (l, at) ↦ elim (Option-cases (start_error c slot l.slot prompt max_gen)) [
          | inr (err, bad) ↦ refused_done {err = err} (sym ran ∙ rw (at, bad, slot_start) refl)
          | inl ok ↦
              let (k, l', went, _, _, _, kept) =
                slot_start-EngineOk c d f w e slot l prompt max_gen snap_prefix h at ok small in
              subst (EngineOk c d) (started_done (sym went ∙ ran)) kept
        ]
      ]

  pub Reaches-EngineOk :
      {e e' : Engine Rec Row} → EngineOk c d e → Reaches c d e e' → EngineOk c d e'
  Reaches-EngineOk h (opened) = h
  Reaches-EngineOk h (by_start slot prompt max_gen snap_prefix p small ran) =
      started-EngineOk _ _ slot prompt max_gen snap_prefix (Reaches-EngineOk h p) small ran
  Reaches-EngineOk h (by_step r p ran) =
      let (r', ran', kept) = step_chunk-EngineOk c d f w _ (Reaches-EngineOk h p) in
      subst (λ x. EngineOk c d x.0) (done_eq (sym ran' ∙ ran)) kept
  Reaches-EngineOk h (by_cancel slot p) = slot_cancel-EngineOk c d _ slot (Reaches-EngineOk h p)

  lane-Greedy :
      (s : Slot) (lv : Live Rec Row)
      → LaneOk c d s lv
      → s.active ≡ true
      → (s.gen_tokens ≡ greedy d (begin d s.prompt) s.gen) × NoEos c.eos s.gen_tokens
  unfolding greedy
  lane-Greedy s lv (unused a) h = cc
  lane-Greedy s lv (used (reading e)) h = (rw (e.no_count, e.no_tokens), rw e.no_tokens tt)
  lane-Greedy s lv (used (decoding n e)) h =
      (rw e.generated.count e.generated.tokens, e.generated.no_eos)
  lane-Greedy s lv (used (ended g e)) h =
      (rw e.generated.count e.generated.tokens, e.generated.no_eos)

  -- After any sequence of started requests, stepChunk calls and cancels from a well-formed engine
  -- that owns all layers and drafts no more than a batch holds, over a faithful device, with
  -- requests whose prompt length and token limit do not wrap when added, an active slot has
  -- generated exactly the first `gen` tokens of greedy decoding of its prompt, none of them the
  -- end of the sequence, and the next stepChunk returns.
  pub session-Greedy :
      (e e' : Engine Rec Row) (i : ℕ) (l : Lane Rec Row)
      → EngineOk c d e
      → Reaches c d e e'
      → get_elem? e'.lanes i ≡ some l
      → l.slot.active ≡ true
      → (l.slot.gen_tokens ≡ greedy d (begin d l.slot.prompt) l.slot.gen)
        × NoEos c.eos l.slot.gen_tokens
        × ((r : Engine Rec Row × ℕ) × (step_chunk c d e' ≡ done r))
  session-Greedy e e' i l h p at a =
      let ok = Reaches-EngineOk h p in
      let lane_ok =
        All-get_elem? (λ (x : Lane Rec Row). LaneOk c d x.slot x.live) e'.lanes i ok.lanes_ok at in
      let (same, free) = lane-Greedy l.slot l.live lane_ok a in
      let (r, ran, _) = step_chunk-EngineOk c d f w e' ok in (same, free, (r, ran))
