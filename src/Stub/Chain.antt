-- ===== src/Stub/Chain.antt =====
-- Stub stages in a row compute what one stub engine computes; and the stub refuses a request exactly
-- when the engine does.
use qwen_kernel.Prelude.{
  ◌+◌, ◌%◌, ◌≤◌, ◌<◌, ◌≡◌, ◌∷◌, ℕ, refl, Bool, true, false, not, Option, none, some, List, [],
  get_or,
}
use qwen_kernel.Slot.{Params, Slot, split_stage}
use qwen_kernel.Stage.{StageError}
use qwen_kernel.Start.{start_error}
use qwen_kernel.Stub.{StubEngine, stub_vocab, zero_slot}
use qwen_kernel.Stub.Requests.{stub_start_error, whole_engine}
use qwen_kernel.Stub.Stage.{
  Conversions, Frame, id_frame, row_frame, stub_first, stub_last, stub_stage_run,
}

-- A driver's pass over stub stages: each runs on what the one before it wrote, up to the first
-- code that is not 0.
module _ {F : Type 0} (conv : Conversions F) where
  unfoldable pub stub_chain : List StubEngine → ℕ → Frame F → ℕ → Option StageError × Frame F
  unfolding stub_stage_run
  stub_chain [] slot f base = (none, f)
  stub_chain (e ∷ es) slot f base =
      let ran = stub_stage_run conv e slot f base in
      let rest = stub_chain es slot ran.1.1 base in
      elim ran.0 [ some err ↦ (some err, f) | none ↦ rest ]

-- Stages that take their slot and n tokens at base, of which the head alone owns the first layer
-- and e alone the last one.
unfoldable pub InOrder : ℕ → ℕ → ℕ → Bool → List StubEngine → StubEngine → Type 0
InOrder slot n base head [] e =
    (slot < e.cfg.n_slots)
    × ((base + n) % 4294967296 ≤ e.cfg.n_ctx)
    × (stub_first e ≡ head)
    × (stub_last e ≡ true)
InOrder slot n base head (s ∷ es) e =
    (slot < s.cfg.n_slots)
    × ((base + n) % 4294967296 ≤ s.cfg.n_ctx)
    × (stub_first s ≡ head)
    × (stub_last s ≡ false)
    × InOrder slot n base false es e

is_ids : {F : Type 0} → Frame F → Bool
is_ids (id_frame ts) = true
is_ids (row_frame rs) = false

-- The ids survive the conversion to float: they are below 2^24.
abbrev pub Exact : {F : Type 0} → Conversions F → Type 0
Exact conv = (t : ℕ) → t < 16777216 → conv.to_uint (conv.of_uint t) ≡ t

-- On a stub and an engine of the same slots and context, with the stub's vocabulary, both split or
-- both not, and a slot that is busy on both or on neither, the checks of qk_slot_start yield the
-- same code.
pub stub_start_error-engine :
    (c : Params) (s : Slot) (e : StubEngine) (slot : ℕ) (prompt : List ℕ) (max_gen : ℕ)
    → c.n_slots ≡ e.cfg.n_slots
    → c.n_ctx ≡ e.cfg.n_ctx
    → c.vocab ≡ stub_vocab
    → split_stage c ≡ not (whole_engine e)
    → s.active ≡ (get_or e.slots slot zero_slot).active
    → stub_start_error e slot prompt max_gen ≡ start_error c slot s prompt max_gen
unfolding stub_start_error start_error
stub_start_error-engine c s e slot prompt max_gen n x v w a = rw (n, x, v, w, a) refl
