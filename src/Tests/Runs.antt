-- ===== src/Tests/Runs.antt =====
-- A request on the toy engine, run to its end and call by call.
use qwen_kernel.Prelude.{
  ◌≡◌, ◌∷◌, ℕ, zero, suc, refl, true, false, none, some, List, [], map, get_elem?, Run, done,
  exited, stalled,
}
use qwen_kernel.Chunk.{
  Engine, active_count, commit, commit_all, commit_sample, depth_from, dispatch, end_step,
  input_pos, input_tok, needs_step, only_from, running, serial_phase, spec_phase, step_chunk,
}
use qwen_kernel.Device.{feed, feeds, feeds_ids, sampled}
use qwen_kernel.Prefill.{prefill_batch, promote_scratch, verify_round}
use qwen_kernel.PrefixCache.{
  match_from, match_prefix, matches, pick, pick_from, snapshot_key, snapshot_slot,
}
use qwen_kernel.Slot.{Lane, Params, clear_drained, drain, drain_from, emit_tok, finish, reset_spec}
use qwen_kernel.Speculate.{
  accept, accept_from, copy_toks, draft_at, end_round, find_eos, gram_from, gram_hash, index_grams,
  settle, spec_draft, spec_loop, spec_round, take_token, take_tokens,
}
use qwen_kernel.Start.{
  StartResult, admit, all_below, batch_to, occupied, prefill_batched, prefill_history,
  prefill_prompt, refused, resident, slot_start, start_error, start_lane, started,
}
use qwen_kernel.Toy.{engine, free_lane, params, toy}

abbrev pub prompt20 : List ℕ
prompt20 = 1 ∷ 2 ∷ 3 ∷ 1 ∷ 2 ∷ 3 ∷ 1 ∷ 2 ∷ 3 ∷ 1 ∷ 2 ∷ 3 ∷ 1 ∷ 2 ∷ 3 ∷ 1 ∷ 2 ∷ 3 ∷ 1 ∷ 2 ∷ []

-- The tokens that a request gets over n calls of step_chunk.
abbrev tokens_of : Engine ℕ ℕ → List (List ℕ)
tokens_of e = map (λ l. l.out) e.lanes

chunks : Params → ℕ → Engine ℕ ℕ → List (List (List ℕ))
chunks c zero e = []
chunks c (suc n) e = elim (step_chunk c toy e) [
  | done r ↦ tokens_of r.0 ∷ chunks c n r.0
  | exited ↦ []
  | stalled ↦ []
]

serve : Params → List (List (List ℕ))
serve c = elim (slot_start c toy engine 0 prompt20 12 0) [
  | done r ↦ elim r [ refused e ↦ [] | started e ↦ chunks c 5 e ]
  | exited ↦ []
  | stalled ↦ []
]

serve_a : List (List (List ℕ))
serve_a = serve params

serve_b : List (List (List ℕ))
serve_b = serve (record params { spec_on = false; no_batch = true })

-- The engine after a request on slot 0, and after a call of stepChunk.
abbrev engine_of : Run (StartResult ℕ ℕ) → Engine ℕ ℕ
engine_of r = elim r [
  | done s ↦ elim s [ refused err ↦ engine | started e ↦ e ]
  | exited ↦ engine
  | stalled ↦ engine
]

abbrev pub after_step : Run (Engine ℕ ℕ × ℕ) → Engine ℕ ℕ × ℕ
after_step r = elim r [ done s ↦ s | exited ↦ (engine, 0) | stalled ↦ (engine, 0) ]

abbrev pub engine1 : Engine ℕ ℕ
engine1 = engine_of (slot_start params toy engine 0 prompt20 12 0)

abbrev pub engine2 : Engine ℕ ℕ
engine2 = (after_step (step_chunk params toy engine1)).0

pub start_runs : slot_start params toy engine 0 prompt20 12 0 ≡ done (started engine1)
unfolding slot_start start_error all_below start_lane resident match_prefix match_from matches
    prefill_prompt prefill_batched prefill_history batch_to prefill_batch admit occupied reset_spec
    snapshot_slot pick pick_from snapshot_key feeds feed
start_runs = refl

pub step_runs : step_chunk params toy engine1 ≡ done (after_step (step_chunk params toy engine1))
unfolding slot_start start_error all_below start_lane resident match_prefix match_from matches
    prefill_prompt prefill_batched prefill_history batch_to prefill_batch admit occupied reset_spec
    snapshot_slot pick pick_from snapshot_key feeds feed step_chunk active_count drain drain_from
    clear_drained finish spec_phase running only_from spec_loop spec_draft draft_at copy_toks
    index_grams gram_hash gram_from spec_round verify_round accept accept_from find_eos settle
    promote_scratch take_token take_tokens emit_tok end_round serial_phase depth_from needs_step
    dispatch input_tok input_pos commit_all commit commit_sample end_step feeds_ids sampled
step_runs = refl

abbrev pub lane2 : Lane ℕ ℕ
lane2 = elim (get_elem? engine2.lanes 0) [ none ↦ free_lane | some l ↦ l ]

pub at_lane2 : get_elem? engine2.lanes 0 ≡ some lane2
unfolding slot_start start_error all_below start_lane resident match_prefix match_from matches
    prefill_prompt prefill_batched prefill_history batch_to prefill_batch admit occupied reset_spec
    snapshot_slot pick pick_from snapshot_key feeds feed step_chunk active_count drain drain_from
    clear_drained finish spec_phase running only_from spec_loop spec_draft draft_at copy_toks
    index_grams gram_hash gram_from spec_round verify_round accept accept_from find_eos settle
    promote_scratch take_token take_tokens emit_tok end_round serial_phase depth_from needs_step
    dispatch input_tok input_pos commit_all commit commit_sample end_step feeds_ids sampled
at_lane2 = refl

pub active_lane2 : lane2.slot.active ≡ true
unfolding slot_start start_error all_below start_lane resident match_prefix match_from matches
    prefill_prompt prefill_batched prefill_history batch_to prefill_batch admit occupied reset_spec
    snapshot_slot pick pick_from snapshot_key feeds feed step_chunk active_count drain drain_from
    clear_drained finish spec_phase running only_from spec_loop spec_draft draft_at copy_toks
    index_grams gram_hash gram_from spec_round verify_round accept accept_from find_eos settle
    promote_scratch take_token take_tokens emit_tok end_round serial_phase depth_from needs_step
    dispatch input_tok input_pos commit_all commit commit_sample end_step feeds_ids sampled
active_lane2 = refl

tokens_lane2 : lane2.slot.gen_tokens ≡ 2 ∷ []
unfolding slot_start start_error all_below start_lane resident match_prefix match_from matches
    prefill_prompt prefill_batched prefill_history batch_to prefill_batch admit occupied reset_spec
    snapshot_slot pick pick_from snapshot_key feeds feed step_chunk active_count drain drain_from
    clear_drained finish spec_phase running only_from spec_loop spec_draft draft_at copy_toks
    index_grams gram_hash gram_from spec_round verify_round accept accept_from find_eos settle
    promote_scratch take_token take_tokens emit_tok end_round serial_phase depth_from needs_step
    dispatch input_tok input_pos commit_all commit commit_sample end_step feeds_ids sampled
tokens_lane2 = refl
