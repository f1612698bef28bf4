-- ===== src/Stub/Requests.antt =====
-- qk_slot_start and qk_slot_cancel of stub/qk_stub.c.
use qwen_kernel.Prelude.{
  ◌+◌, ◌-◌, ◌%◌, ◌||◌, ◌==◌, if◌then◌else◌, ℕ, Bool, true, false, not, Option, none, some, List,
  ltb, leb, length, get_or, set,
}
use qwen_kernel.Start.{
  StartError, all_below, bad_bounds, bad_slot, bad_token, slot_busy, split_engine,
}
use qwen_kernel.Stub.{StubEngine, StubSlot, stub_n_layer, stub_vocab, zero_slot}

abbrev pub whole_engine : StubEngine → Bool
whole_engine e = if e.l_first == 0 then e.l_end == stub_n_layer else false

-- The checks, in order; n_prompt + max_gen is a uint32_t sum. The prompt is given.
unfoldable pub stub_start_error : StubEngine → ℕ → List ℕ → ℕ → Option StartError
unfolding all_below
stub_start_error e slot prompt max_gen =
    if leb e.cfg.n_slots slot
    then some bad_slot
    else if not (whole_engine e)
    then some split_engine
    else if (get_or e.slots slot zero_slot).active
    then some slot_busy
    else if ltb (length prompt) 1 || ltb e.cfg.n_ctx ((length prompt + max_gen) % 4294967296)
    then some bad_bounds
    else if not (all_below stub_vocab prompt)
    then some bad_token
    else none

-- The slot of an accepted_slot request.
unfoldable pub accepted_slot : List ℕ → ℕ → StubSlot
accepted_slot prompt max_gen = record {
  active = true;
  prefill_left = length prompt;
  prev = get_or prompt (length prompt - 1) 0;
  gen = 0;
  max_gen = max_gen;
  eos_at_4 = get_or prompt 0 0 == 7;
}

pub data StubStarted : Type 0 where
  start_refused : StartError → StubStarted
  start_accepted : StubEngine → StubStarted

unfoldable pub stub_slot_start : StubEngine → ℕ → List ℕ → ℕ → StubStarted
unfolding stub_start_error accepted_slot
stub_slot_start e slot prompt max_gen = elim (stub_start_error e slot prompt max_gen) [
  | some err ↦ start_refused err
  | none ↦ start_accepted (record e { slots = set e.slots slot (accepted_slot prompt max_gen) })
]

unfoldable pub stub_slot_cancel : StubEngine → ℕ → StubEngine
stub_slot_cancel e slot =
    if ltb slot e.cfg.n_slots
    then record e {
      slots = set e.slots slot (record (get_or e.slots slot zero_slot) { active = false });
    }
    else e
