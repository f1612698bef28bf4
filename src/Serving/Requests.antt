-- ===== src/Serving/Requests.antt =====
-- qk_slot_start and qk_slot_cancel keep the engine well formed; which requests are accepted.
use qwen_kernel.Prelude.{
  ◌+◌, ◌-◌, ◌%◌, ◌≤◌, ◌<◌, ◌≡◌, ◌∙◌, ◌↔◌, ◌∷◌, ℕ, refl, inl, inr, true, false, none, some, List, [],
  arith, Option-cases, length, get_elem?, set, length-set, get_elem?-lt, All, All-set, done,
}
use qwen_kernel.Chunk.{Engine}
use qwen_kernel.Device.{Device, IsFaithful}
use qwen_kernel.PrefixCache.{PrefixCache}
use qwen_kernel.Serving.Calls.{EngineOk}
use qwen_kernel.Serving.Lanes.{LaneOk, unused, used}
use qwen_kernel.Serving.Loop.{IsWhole}
use qwen_kernel.Serving.Starts.{start_lane-Reading}
use qwen_kernel.Serving.Status.{Reading, reading}
use qwen_kernel.Slot.{Lane, Params, Slot, reset_spec}
use qwen_kernel.Start.{all_below, cancel_lane, slot_cancel, slot_start, start_error, started}

module _ {Rec Row : Type 0} (c : Params) (d : Device Rec Row) where
  -- The checks of slot_start that a request passes.
  accepted :
      (slot : ℕ) (s : Slot) (prompt : List ℕ) (max_gen : ℕ)
      → length prompt + max_gen < 4294967296
      → start_error c slot s prompt max_gen ≡ none
      → (1 ≤ length prompt) × (length prompt + max_gen ≤ c.n_ctx)
  unfolding start_error
  accepted slot s prompt max_gen small h =
      let sum : (length prompt + max_gen) % 4294967296 ≡ length prompt + max_gen = omega arith in
      (ground arith, ground (arith, sum))

  all_below-All : (v : ℕ) (ts : List ℕ) → all_below v ts ≡ true → All (λ t. t < v) ts
  unfolding all_below
  all_below-All v [] h = tt
  all_below-All v (t ∷ ts) h = (ground arith, all_below-All v ts (ground arith))

  All-all_below : (v : ℕ) (ts : List ℕ) → All (λ t. t < v) ts → all_below v ts ≡ true
  unfolding all_below
  All-all_below v [] h = refl
  All-all_below v (t ∷ ts) h = let rest = All-all_below v ts h.1 in let first = h.0 in ground arith

  -- The checks of qk_slot_start pass exactly when the slot exists on an engine that owns all
  -- layers and is free, the prompt is not empty, prompt length and token limit, added in 32 bits,
  -- fit the context, and every token is in the vocabulary.
  pub start_error_iff :
      (slot : ℕ) (s : Slot) (prompt : List ℕ) (max_gen : ℕ)
      → (start_error c slot s prompt max_gen ≡ none) ↔ (
          (slot < c.n_slots)
          × (c.l_first ≡ 0)
          × (c.l_end ≡ c.n_layer)
          × (s.active ≡ false)
          × (1 ≤ length prompt)
          × ((length prompt + max_gen) % 4294967296 ≤ c.n_ctx)
          × All (λ t. t < c.vocab) prompt)
  unfolding start_error all_below
  start_error_iff slot s prompt max_gen = (
    λ h.
        let below : all_below c.vocab prompt ≡ true = ground arith in
        (
          ground arith,
          ground arith,
          ground arith,
          ground arith,
          ground arith,
          ground arith,
          all_below-All c.vocab prompt below,
        ),
    λ (a, b, e, g, h, i, j). let below = All-all_below c.vocab prompt j in ground arith,
  )

  module _ (f : IsFaithful d) (w : IsWhole c) where
    -- On a well-formed engine that owns all layers and drafts no more than a batch holds, over a
    -- faithful device, qk_slot_start on an existing slot, with a request that passes the checks
    -- and whose prompt length and token limit do not wrap when added, returns started; the slot
    -- then holds the prompt and the limit and has read a prefix of the prompt, no other slot
    -- changes, and the engine stays well formed.
    pub slot_start-EngineOk :
        (e : Engine Rec Row) (slot : ℕ) (l : Lane Rec Row) (prompt : List ℕ)
        (max_gen snap_prefix : ℕ)
        → EngineOk c d e
        → get_elem? e.lanes slot ≡ some l
        → start_error c slot l.slot prompt max_gen ≡ none
        → length prompt + max_gen < 4294967296
        → (k : PrefixCache Rec Row) × (l' : Lane Rec Row) × (slot_start c d e slot prompt max_gen
              snap_prefix
            ≡ done (started (record { lanes = set e.lanes slot l'; cache = k })))
          × (l'.slot.prompt ≡ prompt)
          × (l'.slot.max_gen ≡ max_gen)
          × Reading c d l'.slot l'.live
          × EngineOk c d (record { lanes = set e.lanes slot l'; cache = k })
    unfolding slot_start
    slot_start-EngineOk e slot l prompt max_gen snap_prefix h at ok small =
        let (some_prompt, fits) = accepted slot l.slot prompt max_gen small ok in
        let inside = get_elem?-lt e.lanes slot at in
        let slots = h.all_slots in
        let (k, l', ran, same_prompt, same_max, reads, coherent) =
          start_lane-Reading c d f w slot (omega arith) prompt (omega arith) e.cache l max_gen
            snap_prefix some_prompt h.coherent in
        (
          k,
          l',
          rw (at, ok, ran, slot_start),
          same_prompt,
          same_max,
          reads,
          record {
            all_slots = length-set e.lanes slot l' ∙ slots;
            lanes_ok =
                All-set (λ (x : Lane Rec Row). LaneOk c d x.slot x.live) e.lanes slot l' h.lanes_ok
                  (used (reading reads));
            coherent = coherent;
          },
        )

  -- qk_slot_cancel on any slot keeps a well-formed engine well formed.
  pub slot_cancel-EngineOk :
      (e : Engine Rec Row) (slot : ℕ) → EngineOk c d e → EngineOk c d (slot_cancel e slot)
  unfolding slot_cancel cancel_lane reset_spec
  slot_cancel-EngineOk e slot h = elim (Option-cases (get_elem? e.lanes slot)) [
    | inl gone ↦ rw (gone, slot_cancel) h
    | inr (l, at) ↦
        rw (at, slot_cancel)
          (record {
            all_slots = length-set e.lanes slot (cancel_lane l) ∙ h.all_slots;
            lanes_ok =
                All-set (λ (x : Lane Rec Row). LaneOk c d x.slot x.live) e.lanes slot
                  (cancel_lane l) h.lanes_ok (unused refl);
            coherent = h.coherent;
          })
  ]

  -- However small the context, a request on a free slot of an engine that owns all layers, with a
  -- non-empty prompt of at most 2^32 known tokens, passes the checks of qk_slot_start when its
  -- token limit is 2^32 less the prompt's length, since the sum wraps to 0.
  pub start_error_wraps :
      (slot : ℕ) (s : Slot) (prompt : List ℕ)
      → slot < c.n_slots
      → c.l_first ≡ 0
      → c.l_end ≡ c.n_layer
      → s.active ≡ false
      → 1 ≤ length prompt
      → length prompt ≤ 4294967296
      → All (λ t. t < c.vocab) prompt
      → start_error c slot s prompt (4294967296 - length prompt) ≡ none
  start_error_wraps slot s prompt slot_ok first last free some_prompt small known =
      (start_error_iff slot s prompt (4294967296 - length prompt)).1
        (slot_ok, first, last, free, some_prompt, omega arith, known)
