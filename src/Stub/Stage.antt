-- ===== src/Stub/Stage.antt =====
-- qk_stage_run and qk_stage_topk of stub/qk_stub.c. The conversions between uint32_t and float are
-- parameters.
use qwen_kernel.Prelude.{
  ◌+◌, ◌-◌, ◌%◌, ◌⊎◌, ◌||◌, ◌∷◌, ◌==◌, if◌then◌else◌, ℕ, zero, suc, inl, inr, Bool, true, false,
  not, Option, none, some, List, [], map, ltb, leb, length, get_or,
}
use qwen_kernel.Stage.{Given, StageError, bad_input, bad_output, bad_range}
use qwen_kernel.Stub.{StubEngine, next_id, stub_n_layer, stub_vocab}

-- (float)n and (uint32_t)x.
pub record Conversions (F : Type 0) : Type 0 where
  pub of_uint : ℕ → F
  pub to_uint : F → ℕ

abbrev pub stub_first : StubEngine → Bool
stub_first e = e.l_first == 0

abbrev pub stub_last : StubEngine → Bool
stub_last e = e.l_end == stub_n_layer

-- base + n is a uint32_t sum.
unfoldable pub stub_stage_error : StubEngine → ℕ → ℕ → ℕ → Given → Option StageError
stub_stage_error e slot n base g =
    if leb e.cfg.n_slots slot || ltb n 1 || ltb e.cfg.n_ctx ((base + n) % 4294967296)
    then some bad_range
    else if (if stub_first e then not g.toks || g.hidden_in else not g.hidden_in)
    then some bad_input
    else if (if stub_last e then not g.ids_out else not g.hidden_out)
    then some bad_output
    else none

-- What a stage reads and writes: token ids, or rows of QK_NEMBD floats.
pub data Frame (F : Type 0) : Type 0 where
  id_frame : List ℕ → Frame F
  row_frame : List (List F) → Frame F

unfoldable pub frame_rows : {F : Type 0} → Frame F → ℕ
frame_rows (id_frame ts) = length ts
frame_rows (row_frame rs) = length rs

abbrev pub given : {F : Type 0} → StubEngine → Frame F → Given
given e (id_frame ts) = record {
  toks = true;
  hidden_in = false;
  hidden_out = not (stub_last e);
  ids_out = stub_last e;
}
given e (row_frame rs) = record {
  toks = false;
  hidden_in = true;
  hidden_out = not (stub_last e);
  ids_out = stub_last e;
}

module _ {F : Type 0} (conv : Conversions F) where
  -- row0 of each position.
  unfoldable pub row0s : Frame F → List F
  row0s (id_frame ts) = map conv.of_uint ts
  row0s (row_frame rs) = map (λ r. get_or r 0 (conv.of_uint 0)) rs

  -- A row of hidden_out: row0, then the number of layers of the stage.
  unfoldable pub hidden_row : StubEngine → F → List F
  hidden_row e x = let k = conv.of_uint (e.l_end - e.l_first) in x ∷ k ∷ k ∷ k ∷ []

  unfoldable pub stage_frame : StubEngine → Frame F → Frame F
  unfolding next_id row0s hidden_row
  stage_frame e f =
      if stub_last e
      then id_frame (map (λ x. next_id (conv.to_uint x)) (row0s f))
      else row_frame (map (hidden_row e) (row0s f))

  -- ids_out[n - 1], for last_id.
  unfoldable pub final_id : Frame F → ℕ → ℕ
  final_id (id_frame ts) old = get_or ts (length ts - 1) old
  final_id (row_frame rs) old = old

  unfoldable pub stub_stage_run :
      StubEngine → ℕ → Frame F → ℕ → Option StageError × (StubEngine × Frame F)
  unfolding stub_stage_error stage_frame final_id frame_rows
  stub_stage_run e slot f base =
      let out = stage_frame e f in
      elim (stub_stage_error e slot (frame_rows f) base (given e f)) [
        | some err ↦ (some err, (e, f))
        | none ↦ (
          none,
          (
            record e {
              last_id = final_id out e.last_id;
              last_rows = if stub_last e then frame_rows f else 0;
            },
            out,
          ),
        )
      ]

-- The codes -1 and -2 of qk_stage_topk.
pub data TopkError : Type 0 where
  bad_topk : TopkError
  no_rows : TopkError

-- ids[i] and vals[i], the values: 5, 4, 3, 2, then -20, given as an
-- offset above -20.
unfoldable pub topk_rows : ℕ → ℕ → ℕ → List (ℕ × ℕ)
topk_rows zero i last = []
topk_rows (suc n) i last =
    ((last + i) % stub_vocab, if ltb i 4 then 25 - i else 0) ∷ topk_rows n (i + 1) last

unfoldable pub stub_stage_topk : StubEngine → ℕ → TopkError ⊎ List (ℕ × ℕ)
unfolding topk_rows
stub_stage_topk e k =
    if not (stub_last e) || ltb k 1 || ltb 256 k
    then inl bad_topk
    else if e.last_rows == 0
    then inl no_rows
    else inr (topk_rows k 0 e.last_id)
