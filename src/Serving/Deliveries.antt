-- ===== src/Serving/Deliveries.antt =====
-- The output of all slots over a call of stepChunk.
use qwen_kernel.Prelude.{
  ◌+◌, ◌≤◌, ◌≡◌, ◌||◌, ◌∷◌, ◌++◌, ◌==◌, ℕ, zero, suc, refl, sym, subst, inl, inr, true, false, not,
  Option, none, some, List, [], map, arith, Bool-cases, Option-cases, length, get_elem?, set, done,
}
use qwen_kernel.Chunk.{
  Engine, active_count, cleared, commit, commit_all, depth_from, dispatch, input_pos, input_tok,
  needs_step, only_from, running, serial_phase, spec_phase, step_chunk,
}
use qwen_kernel.Device.{Device, IsFaithful, Live, feed, sampled}
use qwen_kernel.PrefixCache.{PrefixCache}
use qwen_kernel.Serving.Calls.{EngineOk, step_chunk-EngineOk}
use qwen_kernel.Serving.Delivery.{commit-Delivers, drain-Delivers}
use qwen_kernel.Serving.Drain.{drain_if}
use qwen_kernel.Serving.Emission.{Delivers, Delivers-same}
use qwen_kernel.Serving.Lanes.{commit-idle}
use qwen_kernel.Serving.Loop.{IsWhole}
use qwen_kernel.Serving.Outputs.{OnDone, OnDone-then, spec_loop-Delivers}
use qwen_kernel.Slot.{Lane, Params, drain, pending}
use qwen_kernel.Speculate.{may_speculate, spec_loop}

module _ {Rec Row : Type 0} (c : Params) (d : Device Rec Row) where
  -- A slot free at entry stays silent; one that was active delivers, after what it sent before.
  abbrev pub Emits : Option (List ℕ) → Lane Rec Row → Type 0
  Emits none l = (l.slot.active ≡ false) × (l.out ≡ [])
  Emits (some sent) l = Delivers c.chunk sent l

  abbrev pub EmitsFrom : (ℕ → Option (List ℕ)) → ℕ → List (Lane Rec Row) → Type 0
  EmitsFrom sent i [] = Unit
  EmitsFrom sent i (l ∷ ls) = Emits (sent i) l × EmitsFrom sent (i + 1) ls

  -- Between calls: `none` for a free slot, else what an active one has sent.
  abbrev pub Rests : Option (List ℕ) → Lane Rec Row → Type 0
  Rests none l = l.slot.active ≡ false
  Rests (some sent) l =
      (l.slot.active ≡ true)
      × (l.slot.out_q_head ≤ length l.slot.out_q)
      × (sent ++ pending l.slot ≡ l.slot.gen_tokens)

  abbrev pub RestsFrom : (ℕ → Option (List ℕ)) → ℕ → List (Lane Rec Row) → Type 0
  RestsFrom sent i [] = Unit
  RestsFrom sent i (l ∷ ls) = Rests (sent i) l × RestsFrom sent (i + 1) ls

  EmitsFrom-get :
      (sent : ℕ → Option (List ℕ)) (i n : ℕ) (ls : List (Lane Rec Row)) {l : Lane Rec Row}
      → EmitsFrom sent i ls
      → get_elem? ls n ≡ some l
      → Emits (sent (i + n)) l
  EmitsFrom-get sent i n [] h e = cc
  EmitsFrom-get sent i zero (x ∷ ls) {l} h e =
      let z : i ≡ i + 0 = omega arith in
      let same : x ≡ l = cc in subst (λ j. Emits (sent j) l) z (subst (Emits (sent i)) same h.0)
  EmitsFrom-get sent i (suc n) (x ∷ ls) {l} h e =
      let z : i + 1 + n ≡ i + suc n = omega arith in
      subst (λ j. Emits (sent j) l) z (EmitsFrom-get sent (i + 1) n ls h.1 e)

  EmitsFrom-set :
      (sent : ℕ → Option (List ℕ)) (i n : ℕ) (ls : List (Lane Rec Row)) (l : Lane Rec Row)
      → EmitsFrom sent i ls
      → Emits (sent (i + n)) l
      → EmitsFrom sent i (set ls n l)
  EmitsFrom-set sent i n [] l h e = tt
  EmitsFrom-set sent i zero (x ∷ ls) l h e =
      let z : i + 0 ≡ i = omega arith in (subst (λ j. Emits (sent j) l) z e, h.1)
  EmitsFrom-set sent i (suc n) (x ∷ ls) l h e =
      let z : i + suc n ≡ i + 1 + n = omega arith in
      (h.0, EmitsFrom-set sent (i + 1) n ls l h.1 (subst (λ j. Emits (sent j) l) z e))

  drain-Emits :
      (s : Option (List ℕ)) (l : Lane Rec Row) → Rests s l → Emits s (drain c.chunk (cleared l))
  drain-Emits none l h = subst (Emits none) (sym (drain_if c d (cleared l) false h)) (h, refl)
  drain-Emits (some sent) l (a, p, w) =
      drain-Delivers c d sent (cleared l) a
        (record { head_ok = p; nothing_out = refl; all_tokens = w })

  drain-EmitsFrom :
      (sent : ℕ → Option (List ℕ)) (i : ℕ) (ls : List (Lane Rec Row))
      → RestsFrom sent i ls
      → EmitsFrom sent i (map (drain c.chunk) (map cleared ls))
  drain-EmitsFrom sent i [] h = tt
  drain-EmitsFrom sent i (l ∷ ls) h =
      (drain-Emits (sent i) l h.0, drain-EmitsFrom sent (i + 1) ls h.1)

  -- A slot that only saw the GPU work on it.
  Emits-stepped :
      (s : Option (List ℕ)) (l : Lane Rec Row) (lv : Live Rec Row) (t : ℕ)
      → Emits s l
      → Emits s (record l { live = lv; samp = t })
  Emits-stepped none l lv t h = h
  Emits-stepped (some sent) l lv t h = Delivers-same c.chunk sent l _ refl refl refl refl h

  commit-Emits :
      (s : Option (List ℕ)) (k : PrefixCache Rec Row) (l : Lane Rec Row)
      → Emits s l
      → Emits s (commit c k l).1
  commit-Emits none k l h =
      subst (λ r. Emits none r.1) (sym (commit-idle c d k l (let a = h.0 in ground arith))) h
  commit-Emits (some sent) k l h = commit-Delivers c d sent k l h

  step-EmitsFrom :
      (sent : ℕ → Option (List ℕ)) (i z : ℕ) (k : PrefixCache Rec Row) (ls : List (Lane Rec Row))
      → EmitsFrom sent i ls
      → EmitsFrom sent i (commit_all c k (dispatch d z ls)).1
  unfolding commit_all dispatch
  step-EmitsFrom sent i zero k [] h = tt
  step-EmitsFrom sent i (suc z) k [] h = tt
  step-EmitsFrom sent i zero k (l ∷ ls) h =
      (commit-Emits (sent i) k l h.0, step-EmitsFrom sent (i + 1) zero (commit c k l).0 ls h.1)
  step-EmitsFrom sent i (suc z) k (l ∷ ls) h =
      let l' : Lane Rec Row = record l {
        live = feed d l.live (input_tok l.slot) (input_pos l.slot);
        samp = sampled d l.live (input_tok l.slot) (input_pos l.slot);
      } in
      (
        commit-Emits (sent i) k l' (Emits-stepped (sent i) l _ _ h.0),
        step-EmitsFrom sent (i + 1) z (commit c k l').0 ls h.1,
      )

  serial_phase-EmitsFrom :
      (sent : ℕ → Option (List ℕ)) (n : ℕ) (e : Engine Rec Row)
      → EmitsFrom sent 0 e.lanes
      → EmitsFrom sent 0 (serial_phase c d n e).lanes
  unfolding serial_phase
  serial_phase-EmitsFrom sent zero e h = h
  serial_phase-EmitsFrom sent (suc n) e h =
      let z = depth_from 0 e.lanes 0 in
      elim (Bool-cases (z == 0 || not (needs_step c e.lanes))) [
        | inl stop ↦ rw (stop, serial_phase) h
        | inr go ↦
            rw (go, serial_phase)
              (serial_phase-EmitsFrom sent n _ (step-EmitsFrom sent 0 z e.cache e.lanes h))
      ]

  spec_loop-Emits :
      (s : Option (List ℕ)) (fuel idx : ℕ) (k : PrefixCache Rec Row) (l : Lane Rec Row)
      → Emits s l
      → OnDone (λ r. Emits s r.1) (spec_loop c d fuel idx k l)
  unfolding spec_loop
  spec_loop-Emits none zero idx k l h = tt
  spec_loop-Emits none (suc fuel) idx k l h =
      let stop : may_speculate c d l ≡ false = let a = h.0 in ground arith in rw (stop, spec_loop) h
  spec_loop-Emits (some sent) fuel idx k l h = spec_loop-Delivers c d sent fuel idx k l h

  spec_phase-EmitsFrom :
      (sent : ℕ → Option (List ℕ)) (e : Engine Rec Row)
      → EmitsFrom sent 0 e.lanes
      → OnDone (λ r. EmitsFrom sent 0 r.lanes) (spec_phase c d e)
  unfolding spec_phase
  spec_phase-EmitsFrom sent e h =
      let only = only_from 0 e.lanes 0 in
      elim (Bool-cases (not c.spec_on || not (running e.lanes == 1))) [
        | inl skip ↦ rw (skip, spec_phase) h
        | inr go ↦ elim (Option-cases (get_elem? e.lanes only)) [
          | inl gone ↦ rw (go, gone, spec_phase) h
          | inr (l, at) ↦
              let z : 0 + only ≡ only = omega arith in
              let one = EmitsFrom-get sent 0 only e.lanes h at in
              rw (go, at, spec_phase)
                (OnDone-then
                  (λ (r : PrefixCache Rec Row × Lane Rec Row). Emits (sent (0 + only)) r.1)
                  (λ (r : Engine Rec Row). EmitsFrom sent 0 r.lanes)
                  (spec_loop c d (c.n_ctx + 1) only e.cache l) _
                  (spec_loop-Emits (sent (0 + only)) (c.n_ctx + 1) only e.cache l one)
                  (λ r q. EmitsFrom-set sent 0 only e.lanes r.1 h q))
        ]
      ]

  -- With no active slot nothing is handed out.
  none_active :
      (sent : ℕ → Option (List ℕ)) (i : ℕ) (ls : List (Lane Rec Row))
      → RestsFrom sent i ls
      → active_count (map cleared ls) ≡ 0
      → EmitsFrom sent i (map cleared ls)
  unfolding active_count
  none_active sent i [] h e = tt
  none_active sent i (l ∷ ls) h e =
      (free_Emits (sent i) l h.0 (ground arith), none_active sent (i + 1) ls h.1 (ground arith))
    where
      free_Emits :
          (s : Option (List ℕ)) (l : Lane Rec Row)
          → Rests s l
          → l.slot.active ≡ false
          → Emits s (cleared l)
      free_Emits none l h a = (a, refl)
      free_Emits (some sent) l h a = let b = h.0 in cc

  step_chunk-EmitsFrom :
      (sent : ℕ → Option (List ℕ)) (e : Engine Rec Row)
      → RestsFrom sent 0 e.lanes
      → OnDone (λ r. EmitsFrom sent 0 r.0.lanes) (step_chunk c d e)
  unfolding step_chunk
  step_chunk-EmitsFrom sent e h =
      let drained : Engine Rec Row = record e {
        lanes = map (drain c.chunk) (map cleared e.lanes);
      } in
      elim (Bool-cases (active_count (map cleared e.lanes) == 0)) [
        | inl free ↦ rw (free, step_chunk) (none_active sent 0 e.lanes h (ground arith))
        | inr some_active ↦
            rw (some_active, step_chunk)
              (OnDone-then (λ (r : Engine Rec Row). EmitsFrom sent 0 r.lanes)
                (λ (r : Engine Rec Row × ℕ). EmitsFrom sent 0 r.0.lanes) (spec_phase c d drained) _
                (spec_phase-EmitsFrom sent drained (drain-EmitsFrom sent 0 e.lanes h))
                (λ r q. serial_phase-EmitsFrom sent c.chunk r q))
      ]

  module _ (f : IsFaithful d) (w : IsWhole c) where
    -- On a well-formed engine that owns all layers and drafts no more than a batch holds, over a
    -- faithful device, stepChunk returns. For every slot active at entry, whose earlier output and
    -- waiting queue are its generated tokens, earlier output, this call's output and the queue are
    -- then its generated tokens, in order; this call hands out at most `chunk` of them, and
    -- nothing waits while there is room. A slot free at entry stays free and silent. The engine
    -- stays well formed.
    pub step_chunk-Delivers :
        (sent : ℕ → Option (List ℕ)) (e : Engine Rec Row)
        → EngineOk c d e
        → RestsFrom sent 0 e.lanes
        → (r : Engine Rec Row × ℕ) × (step_chunk c d e ≡ done r)
          × EngineOk c d r.0
          × EmitsFrom sent 0 r.0.lanes
    step_chunk-Delivers sent e ok h =
        let (r, ran, kept) = step_chunk-EngineOk c d f w e ok in
        (
          r,
          ran,
          kept,
          subst (OnDone (λ (x : Engine Rec Row × ℕ). EmitsFrom sent 0 x.0.lanes)) ran
              (step_chunk-EmitsFrom sent e h),
        )
