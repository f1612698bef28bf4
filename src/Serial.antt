-- ===== src/Serial.antt =====
-- serialPrefillLogits of src/main.cpp: the prompt through the recorded step of slots 0..slot, and
-- the argmax of the last row of logits. What a slot's step writes and its logits are parameters.
pub mod First
use qwen_kernel.Prelude.{
  ◌+◌, ◌-◌, ◌||◌, ◌∷◌, ◌==◌, if◌then◌else◌, ℕ, zero, suc, Bool, false, Option, none, some, List, [],
  ltb,
}

-- What the buffers hold of each slot, and slots[s].active.
pub record Slots (S : Type 0) : Type 0 where
  pub state : ℕ → S
  pub active : ℕ → Bool

-- Whether the loop over the lower slots meets an active one.
unfoldable pub lower_active : (ℕ → Bool) → ℕ → Bool
lower_active active zero = false
lower_active active (suc s) = lower_active active s || active s

-- resetSlot.
unfoldable pub reset_slot : {S : Type 0} → S → ℕ → (ℕ → S) → ℕ → S
reset_slot fresh slot state s = if s == slot then fresh else state s

-- A submit of stepCBs[slot]: all of slots 0..slot step, the lower ones on token 0 at position 0.
unfoldable pub submit_step : {S : Type 0} → (S → ℕ → ℕ → S) → ℕ → ℕ → ℕ → (ℕ → S) → ℕ → S
submit_step step slot tok pos state s =
    if s == slot then step (state s) tok pos else if ltb s slot then step (state s) 0 0 else state s

-- The loop over the prompt.
unfoldable pub feed_prompt : {S : Type 0} → (S → ℕ → ℕ → S) → ℕ → List ℕ → ℕ → (ℕ → S) → ℕ → S
unfolding submit_step
feed_prompt step slot [] pos state = state
feed_prompt step slot (t ∷ ts) pos state =
    feed_prompt step slot ts (pos + 1) (submit_step step slot t pos state)

-- The loop over the logits, whose value is best after index n; best starts as 0.
unfoldable pub best_of : {F : Type 0} → (F → F → Bool) → (ℕ → F) → ℕ → ℕ
best_of gt row zero = 0
best_of gt row (suc n) =
    let best = best_of gt row n in if gt (row (suc n)) (row best) then suc n else best

-- The token that is returned, the logits and the slots.
pub record SerialResult (S F : Type 0) : Type 0 where
  pub best : ℕ
  pub logits : ℕ → F
  pub slots : Slots S

-- bLogits[slot] after the prompt; with no token it is what it was.
unfoldable pub last_row : {F : Type 0} → List ℕ → (ℕ → F) → (ℕ → F) → ℕ → F
last_row [] stale row = stale
last_row (t ∷ ts) stale row = row

-- The refusal, which returns 0 and zeroed logits, is none.
unfoldable pub serial_prefill :
    {S F : Type 0}
    → (F → F → Bool)
    → S
    → (S → ℕ → ℕ → S)
    → (S → ℕ → F)
    → ℕ
    → List ℕ
    → ℕ
    → (ℕ → F)
    → Slots S
    → Option (SerialResult S F)
unfolding lower_active reset_slot feed_prompt best_of last_row
serial_prefill gt fresh step logits vocab toks slot stale e =
    if lower_active e.active slot
    then none
    else let state = feed_prompt step slot toks 0 (reset_slot fresh slot e.state) in
      let row = last_row toks stale (logits (state slot)) in
      some (record {
        best = best_of gt row (vocab - 1);
        logits = row;
        slots = record { state = state; active = λ s. if s == slot then false else e.active s };
      })
