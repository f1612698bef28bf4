-- ===== src/Serving/Cancel.antt =====
-- qk_slot_cancel: what becomes of the slot, and of everything else.
use qwen_kernel.Prelude.{
  ◌+◌, ◌%◌, ◌≤◌, ◌<◌, ◌≡◌, ◌≢◌, ◌↔◌, ◌∷◌, ℕ, zero, suc, refl, ap, inl, inr, false, none, some, List,
  [], arith, Option-cases, length, get_elem?, set, get_elem?-lt, get_elem?-set_self, All,
}
use qwen_kernel.Chunk.{Engine}
use qwen_kernel.Device.{Device}
use qwen_kernel.Serving.Calls.{EngineOk}
use qwen_kernel.Serving.Requests.{slot_cancel-EngineOk, start_error_iff}
use qwen_kernel.Slot.{Lane, Params, Slot, reset_spec}
use qwen_kernel.Start.{cancel_lane, slot_cancel, start_error}

module _ {ℓ} {A : Type ℓ} where
  get_elem?-set_other :
      (xs : List A) (i j : ℕ) (v : A) → j ≢ i → get_elem? (set xs i v) j ≡ get_elem? xs j
  get_elem?-set_other [] i j v h = refl
  get_elem?-set_other (x ∷ xs) zero zero v h = absurd (h refl)
  get_elem?-set_other (x ∷ xs) zero (suc j) v h = refl
  get_elem?-set_other (x ∷ xs) (suc i) zero v h = refl
  get_elem?-set_other (x ∷ xs) (suc i) (suc j) v h =
      get_elem?-set_other xs i j v (λ e. h (ap suc e))

-- A slot that serves nothing and holds nothing back: no prompt, no queue, no index for drafts,
-- no counts; the next request that meets the bounds is accepted.
pub record IsFreed (c : Params) (slot : ℕ) (s : Slot) : Type 0 where
  pub free : s.active ≡ false
  pub no_prompt : s.prompt ≡ []
  pub no_queue : (s.out_q ≡ []) × ((s.out_q_head ≡ 0) × (s.fin_pending ≡ false))
  pub no_index : (s.ngram_built ≡ 0) × ((g : ℕ) → s.ngram g ≡ none)
  pub no_counts :
      (s.spec_rounds ≡ 0) × ((s.spec_fed ≡ 0) × ((s.spec_emitted ≡ 0) × (s.serial_steps ≡ 0)))
  pub accepts :
      (prompt : List ℕ) (max_gen : ℕ)
      → (start_error c slot s prompt max_gen ≡ none) ↔ (
          (c.l_first ≡ 0)
          × (c.l_end ≡ c.n_layer)
          × (1 ≤ length prompt)
          × ((length prompt + max_gen) % 4294967296 ≤ c.n_ctx)
          × All (λ t. t < c.vocab) prompt)

module _ {Rec Row : Type 0} (c : Params) where
  -- The engines before and after the cancelling of a slot.
  pub data Cancelled (slot : ℕ) (e e' : Engine Rec Row) : Type 0 where
    no_such_slot : c.n_slots ≤ slot → e' ≡ e → Cancelled slot e e'
    freed :
        (l l' : Lane Rec Row)
        → get_elem? e.lanes slot ≡ some l
        → get_elem? e'.lanes slot ≡ some l'
        → IsFreed c slot l'.slot
        → l'.live ≡ l.live
        → ((j : ℕ) → j ≢ slot → get_elem? e'.lanes j ≡ get_elem? e.lanes j)
        → e'.cache ≡ e.cache
        → Cancelled slot e e'

module _ {ℓ} {A : Type ℓ} where
  get_elem?-none : (xs : List A) (i : ℕ) → get_elem? xs i ≡ none → length xs ≤ i
  get_elem?-none [] i h = omega arith
  get_elem?-none (x ∷ xs) zero h = cc
  get_elem?-none (x ∷ xs) (suc i) h = omega (arith, get_elem?-none xs i h)

module _ {Rec Row : Type 0} (c : Params) (d : Device Rec Row) where
  cancel_lane-IsFreed :
      (slot : ℕ) (l : Lane Rec Row) → slot < c.n_slots → IsFreed c slot (cancel_lane l).slot
  unfolding cancel_lane reset_spec
  cancel_lane-IsFreed slot l inside = record {
    free = refl;
    no_prompt = refl;
    no_queue = (refl, (refl, refl));
    no_index = (refl, λ g. refl);
    no_counts = (refl, (refl, (refl, refl)));
    accepts = λ prompt max_gen.
        let iff = start_error_iff c d slot (cancel_lane l).slot prompt max_gen in
        (
          λ ok.
              let (a, first, last, b, more, fits, known) = iff.0 ok in
              (first, last, more, fits, known),
          λ (first, last, more, fits, known). iff.1 (inside, first, last, refl, more, fits, known),
        );
  }

  live-cancel_lane : (l : Lane Rec Row) → (cancel_lane l).live ≡ l.live
  unfolding cancel_lane
  live-cancel_lane l = refl

  -- On a well-formed engine qk_slot_cancel changes nothing when the slot does not exist, and else
  -- leaves the slot free, without prompt, waiting tokens, index or counts and with its stripes, so
  -- that qk_slot_start accepts exactly the requests that meet the bounds of an engine that owns
  -- all layers; every other slot and the prefix cache are as they were, and the engine stays well
  -- formed.
  pub slot_cancel-Cancelled :
      (e : Engine Rec Row) (slot : ℕ)
      → EngineOk c d e
      → Cancelled c slot e (slot_cancel e slot) × EngineOk c d (slot_cancel e slot)
  unfolding slot_cancel
  slot_cancel-Cancelled e slot h =
      let slots = h.all_slots in
      (
        elim (Option-cases (get_elem? e.lanes slot)) [
          | inl gone ↦
              let past = get_elem?-none e.lanes slot gone in
              no_such_slot (omega arith) (rw (gone, slot_cancel) refl)
          | inr (l, at) ↦
              let inside = get_elem?-lt e.lanes slot at in
              rw (at, slot_cancel)
                (freed l (cancel_lane l) at (get_elem?-set_self e.lanes slot (cancel_lane l) inside)
                  (cancel_lane-IsFreed slot l (omega arith)) (live-cancel_lane l)
                  (λ j other. get_elem?-set_other e.lanes slot j (cancel_lane l) other) refl)
        ],
        slot_cancel-EngineOk c d e slot h,
      )
