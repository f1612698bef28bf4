-- ===== src/Serving/Calls.antt =====
-- Whole calls of stepChunk: they return, every slot keeps its status, and the prefix cache stays
-- coherent, over the three phases.
use qwen_kernel.Prelude.{
  ◌+◌, ◌<◌, ◌≡◌, ◌∙◌, ◌||◌, ◌∷◌, ◌==◌, ℕ, zero, suc, refl, ap, inl, inr, false, not, List, [], map,
  arith, Bool-cases, Option-cases, length, get_elem?, set, length-set, get_elem?-lt, All-set,
  All-get_elem?, length-map, All-map, Run, done,
}
use qwen_kernel.Chunk.{
  Engine, active_count, cleared, commit, commit_all, depth_from, dispatch, needs_step, only_from,
  running, serial_phase, spec_phase, step_chunk,
}
use qwen_kernel.Device.{Device, IsFaithful}
use qwen_kernel.PrefixCache.{PrefixCache}
use qwen_kernel.PrefixCache.Coherent.{IsCoherent}
use qwen_kernel.Serving.Drain.{drain-LaneOk}
use qwen_kernel.Serving.Lanes.{AllOk, LaneOk, serial_phase-AllOk, unused, used}
use qwen_kernel.Serving.Loop.{IsWhole, spec_loop-Served}
use qwen_kernel.Slot.{Lane, Params, drain}
use qwen_kernel.Speculate.{may_speculate, spec_loop}

module _ {Rec Row : Type 0} (c : Params) (d : Device Rec Row) where
  -- What every call of the engine's interface keeps.
  pub record EngineOk (e : Engine Rec Row) : Type 0 where
    pub all_slots : length e.lanes ≡ c.n_slots
    pub lanes_ok : AllOk c d e.lanes
    pub coherent : IsCoherent d e.cache

  length-dispatch : (z : ℕ) (ls : List (Lane Rec Row)) → length (dispatch d z ls) ≡ length ls
  unfolding dispatch
  length-dispatch zero ls = refl
  length-dispatch (suc z) [] = refl
  length-dispatch (suc z) (l ∷ ls) = ap suc (length-dispatch z ls)

  length-commit_all :
      (k : PrefixCache Rec Row) (ls : List (Lane Rec Row))
      → length (commit_all c k ls).1 ≡ length ls
  unfolding commit_all
  length-commit_all k [] = refl
  length-commit_all k (l ∷ ls) = ap suc (length-commit_all (commit c k l).0 ls)

  length-serial_phase :
      (n : ℕ) (e : Engine Rec Row) → length (serial_phase c d n e).lanes ≡ length e.lanes
  unfolding serial_phase
  length-serial_phase zero e = refl
  length-serial_phase (suc n) e =
      let z = depth_from 0 e.lanes 0 in
      let stepped = commit_all c e.cache (dispatch d z e.lanes) in
      elim (Bool-cases (z == 0 || not (needs_step c e.lanes))) [
        | inl stop ↦ rw (stop, serial_phase) refl
        | inr go ↦
            rw (go, serial_phase)
              (length-serial_phase n (record { lanes = stepped.1; cache = stepped.0 })
                ∙ length-commit_all e.cache (dispatch d z e.lanes)
                ∙ length-dispatch z e.lanes)
      ]

  module _ (f : IsFaithful d) (w : IsWhole c) where
    -- A call's result: it returns, and the engine is as good as before.
    abbrev pub Returns : Run (Engine Rec Row) → Type 0
    Returns r = (e : Engine Rec Row) × (r ≡ done e) × EngineOk e

    spec_lane :
        (idx : ℕ) (k : PrefixCache Rec Row) (l : Lane Rec Row)
        → idx < c.n_slots
        → IsCoherent d k
        → LaneOk c d l.slot l.live
        → (k' : PrefixCache Rec Row) × (l' : Lane Rec Row) × (spec_loop c d (c.n_ctx + 1) idx k l
            ≡ done (k', l'))
          × LaneOk c d l'.slot l'.live
          × IsCoherent d k'
    unfolding spec_loop
    spec_lane idx k l i q (unused a) =
        let n : c.n_ctx + 1 ≡ suc c.n_ctx = omega arith in
        let stop : may_speculate c d l ≡ false = ground arith in
        (k, l, rw (n, stop, spec_loop), unused a, q)
    spec_lane idx k l i q (used s) =
        let (k', l', ran, kept, coherent) =
          spec_loop-Served c d f w idx i (c.n_ctx + 1) k l (omega arith) (omega arith) q s in
        (k', l', ran, used kept, coherent)

    spec_phase-EngineOk : (e : Engine Rec Row) → EngineOk e → Returns (spec_phase c d e)
    unfolding spec_phase
    spec_phase-EngineOk e h =
        let only = only_from 0 e.lanes 0 in
        elim (Bool-cases (not c.spec_on || not (running e.lanes == 1))) [
          | inl skip ↦ (e, rw (skip, spec_phase), h)
          | inr go ↦ elim (Option-cases (get_elem? e.lanes only)) [
            | inl gone ↦ (e, rw (go, gone, spec_phase), h)
            | inr (l, at) ↦
                let inside = get_elem?-lt e.lanes only at in
                let slots = h.all_slots in
                let (k', l', ran, kept, coherent) =
                  spec_lane only e.cache l (omega arith) h.coherent (
                    All-get_elem? (λ (x : Lane Rec Row). LaneOk c d x.slot x.live) e.lanes only
                      h.lanes_ok at) in
                (
                  record { lanes = set e.lanes only l'; cache = k' },
                  rw (go, at, ran, spec_phase),
                  record {
                    all_slots = length-set e.lanes only l' ∙ slots;
                    lanes_ok =
                        All-set (λ (x : Lane Rec Row). LaneOk c d x.slot x.live) e.lanes only l'
                          h.lanes_ok kept;
                    coherent = coherent;
                  },
                )
          ]
        ]

    -- stepChunk returns.
    pub step_chunk-EngineOk :
        (e : Engine Rec Row)
        → EngineOk e
        → (r : Engine Rec Row × ℕ) × (step_chunk c d e ≡ done r) × EngineOk r.0
    unfolding step_chunk
    step_chunk-EngineOk e h =
        let same_lane = (λ (x : Lane Rec Row). LaneOk c d x.slot x.live) in
        let ls = map cleared e.lanes in
        let clear : AllOk c d ls =
          All-map same_lane same_lane cleared e.lanes (λ l q. q) h.lanes_ok in
        let size : length ls ≡ c.n_slots = length-map cleared e.lanes ∙ h.all_slots in
        let drained : Engine Rec Row = record e { lanes = map (drain c.chunk) ls } in
        elim (Bool-cases (active_count ls == 0)) [
          | inl none_active ↦ (
            (record e { lanes = ls }, 0),
            rw (none_active, step_chunk),
            record { all_slots = size; lanes_ok = clear; coherent = h.coherent },
          )
          | inr some_active ↦
              let (e', ran, ok) = spec_phase-EngineOk drained (record {
                all_slots = length-map (drain c.chunk) ls ∙ size;
                lanes_ok = All-map same_lane same_lane (drain c.chunk) ls (drain-LaneOk c d) clear;
                coherent = h.coherent;
              }) in
              let (lanes_ok, coherent) =
                serial_phase-AllOk c d f c.chunk e' ok.lanes_ok ok.coherent in
              (
                (serial_phase c d c.chunk e', active_count ls),
                rw (some_active, ran, step_chunk),
                record {
                  all_slots = length-serial_phase c.chunk e' ∙ ok.all_slots;
                  lanes_ok = lanes_ok;
                  coherent = coherent;
                },
              )
        ]
