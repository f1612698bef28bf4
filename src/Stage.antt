-- ===== src/Stage.antt =====
-- qk_stage_run of src/main.cpp on an engine that owns all layers: token ids in, greedy ids out,
-- in passes of at most maxB tokens; and the checks of stageRun for every kind of stage.
pub mod Whole
use qwen_kernel.Prelude.{
  ◌>>=◌, ◌+◌, ◌||◌, ◌++◌, ◌==◌, if◌then◌else◌, ℕ, zero, suc, min, Bool, true, false, not, Option,
  none, some, List, [], ltb, leb, length, take, drop, Run, done, exited, stalled,
}
use qwen_kernel.Device.{Device, Live}
use qwen_kernel.Prefill.{bad_args, seeded}
use qwen_kernel.Slot.{Params, first_stage, last_stage}

-- The negative return codes of stageRun.
pub data StageError : Type 0 where
  bad_range : StageError
  bad_input : StageError
  bad_output : StageError

-- Which of the pointers toks, hiddenIn, hiddenOut and idsOut are given.
pub record Given : Type 0 where
  pub toks : Bool
  pub hidden_in : Bool
  pub hidden_out : Bool
  pub ids_out : Bool

unfoldable pub stage_error : Params → ℕ → ℕ → ℕ → Given → Option StageError
stage_error c slot n base g =
    if leb c.n_slots slot || ltb n 1 || ltb c.n_ctx (base + n)
    then some bad_range
    else if (if first_stage c then not g.toks || g.hidden_in else not g.hidden_in)
    then some bad_input
    else if (if last_stage c then not g.ids_out else not g.hidden_out)
    then some bad_output
    else none

module _ {Rec Row : Type 0} (c : Params) (d : Device Rec Row) where
  -- prefillBatchLast in live mode with an argmax per position.
  unfoldable pub prefill_ids : ℕ → Live Rec Row → List ℕ → ℕ → Run (Live Rec Row × List ℕ)
  prefill_ids slot lv toks base =
      if bad_args c (length toks) slot base true
      then exited
      else done (d.batch (seeded c d lv base) toks base, d.batch_ids (seeded c d lv base) toks base)

  -- The loop of stageRun over the tokens that are left.
  unfoldable pub stage_loop : ℕ → ℕ → Live Rec Row → List ℕ → ℕ → Run (Live Rec Row × List ℕ)
  unfolding prefill_ids
  stage_loop zero slot lv toks base = stalled
  stage_loop (suc fuel) slot lv toks base =
      let n = min c.max_b (length toks) in
      elim (length toks == 0) [
        | true ↦ done (lv, [])
        | false ↦ prefill_ids slot lv (take n toks) base >>= λ r.
            stage_loop fuel slot r.0 (drop n toks) (base + n) >>= λ s. done (s.0, r.1 ++ s.1)
      ]

-- What stageRun returns: an error code, or 0 with the slot's new stripes and the ids.
pub data StageResult (Rec Row : Type 0) : Type 0 where
  stage_refused : StageError → StageResult Rec Row
  stage_ran : Live Rec Row → List ℕ → StageResult Rec Row

module _ {Rec Row : Type 0} (c : Params) (d : Device Rec Row) where
  -- stageRun with token ids in and ids out.
  unfoldable pub stage_run : ℕ → Live Rec Row → List ℕ → ℕ → Run (StageResult Rec Row)
  unfolding stage_error stage_loop
  stage_run slot lv toks base =
      elim (stage_error c slot (length toks) base
        (record { toks = true; hidden_in = false; hidden_out = false; ids_out = true })) [
          | some err ↦ done (stage_refused err)
          | none ↦
              stage_loop c d (length toks + 1) slot lv toks base >>= λ r. done (stage_ran r.0 r.1)
        ]
