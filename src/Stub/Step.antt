-- ===== src/Stub/Step.antt =====
-- qk_step_chunk of stub/qk_stub.c.
use qwen_kernel.Prelude.{
  ◌+◌, ◌-◌, ◌&&◌, ◌∷◌, ◌++◌, ◌==◌, if◌then◌else◌, ℕ, zero, suc, Bool, true, false, not, Option,
  none, some, List, [], map, ltb, leb,
}
use qwen_kernel.Stub.{StubEngine, StubSlot, next_id, stub_eos}
use qwen_kernel.Stub.Requests.{whole_engine}

-- A slot with its part of the output buffers: its out_tokens, of which out_counts is the length,
-- and its bit of out_finished.
pub record StubLane : Type 0 where
  pub slot : StubSlot
  pub out : List ℕ
  pub finished : Bool

-- The id that an active slot samples once its prompt is read.
unfoldable pub sampled_id : StubSlot → ℕ
unfolding next_id
sampled_id s = if s.eos_at_4 && (s.gen == 3) then stub_eos else next_id s.prev

abbrev pub stub_stop : StubLane → StubLane
stub_stop l = record l { slot = record (l.slot) { active = false }; finished = true }

abbrev pub stub_emit : StubLane → ℕ → StubLane
stub_emit l t = record l {
  slot = record (l.slot) { prev = t; gen = l.slot.gen + 1 };
  out = l.out ++ t ∷ [];
}

unfoldable pub stop_at_limit : StubLane → StubLane
stop_at_limit l = if leb l.slot.max_gen l.slot.gen then stub_stop l else l

-- The body of the loop over the slots.
unfoldable pub stub_tick : StubLane → StubLane
unfolding sampled_id stop_at_limit
stub_tick l =
    if not l.slot.active
    then l
    else if ltb 0 l.slot.prefill_left
    then record l { slot = record (l.slot) { prefill_left = l.slot.prefill_left - 1 } }
    else if sampled_id l.slot == stub_eos
    then stub_stop l
    else stop_at_limit (stub_emit l (sampled_id l.slot))

-- The loop over the steps.
unfoldable pub stub_steps : ℕ → List StubLane → List StubLane
unfolding stub_tick
stub_steps zero ls = ls
stub_steps (suc n) ls = stub_steps n (map stub_tick ls)

unfoldable pub count_active : List StubSlot → ℕ
count_active [] = 0
count_active (s ∷ ss) = (if s.active then 1 else 0) + count_active ss

abbrev pub fresh_lane : StubSlot → StubLane
fresh_lane s = record { slot = s; out = []; finished = false }

-- qk_step_chunk with all pointers given: none for the code -5, or the slots that were active at
-- entry, the new engine, and the lanes that hold the outputs.
unfoldable pub stub_step_chunk : StubEngine → Option (ℕ × (StubEngine × List StubLane))
unfolding count_active stub_steps
stub_step_chunk e =
    let ls = map fresh_lane e.slots in
    let after = stub_steps e.cfg.chunk ls in
    if not (whole_engine e)
    then none
    else if count_active e.slots == 0
    then some (0, (e, ls))
    else some (count_active e.slots, (record e { slots = map (λ l. l.slot) after }, after))
