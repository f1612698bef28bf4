-- ===== src/Chunk.antt =====
-- stepChunk of src/main.cpp: the drain of phase 1, the verify rounds of phase 2, the serial steps
-- of phase 3, over all slots, and the entry point qk_step_chunk.
use qwen_kernel.Prelude.{
  ◌>>=◌, ◌+◌, ◌&&◌, ◌||◌, ◌∷◌, ◌==◌, if◌then◌else◌, ℕ, zero, suc, Bool, true, false, not, none,
  some, List, [], map, ltb, leb, length, get_elem?, get_or, set, Run, done,
}
use qwen_kernel.Device.{Device, feed, sampled}
use qwen_kernel.PrefixCache.{PrefixCache, snapshot_slot}
use qwen_kernel.Slot.{Lane, Params, Slot, drain, finish, idle, split_stage}
use qwen_kernel.Speculate.{spec_loop, take_token}

-- The slots with their stripes, and the prefix cache.
pub record Engine (Rec Row : Type 0) : Type 0 where
  pub lanes : List (Lane Rec Row)
  pub cache : PrefixCache Rec Row

abbrev pub prefilling : Slot → Bool
prefilling s = ltb s.cursor (length s.prompt)

-- slotInMap[s] and slotPosMap[s] of a serial step.
unfoldable pub input_tok : Slot → ℕ
input_tok s = if idle s then 0 else if prefilling s then get_or s.prompt s.cursor 0 else s.last

unfoldable pub input_pos : Slot → ℕ
input_pos s = if idle s then 0 else if prefilling s then s.cursor else s.pos

module _ {Rec Row : Type 0} where
  -- maxZ: one above the highest slot that runs.
  unfoldable pub depth_from : ℕ → List (Lane Rec Row) → ℕ → ℕ
  depth_from i [] z = z
  depth_from i (l ∷ ls) z = depth_from (i + 1) ls (if idle l.slot then z else i + 1)

  -- `need`: some slot has prompt left to read or may still emit in this call.
  unfoldable pub needs_step : Params → List (Lane Rec Row) → Bool
  needs_step c [] = false
  needs_step c (l ∷ ls) =
      (not (idle l.slot) && (prefilling l.slot || ltb (length l.out) c.chunk)) || needs_step c ls

  -- The recorded command buffer of depth z: it steps the first z slots, idle ones with zeros.
  unfoldable pub dispatch : Device Rec Row → ℕ → List (Lane Rec Row) → List (Lane Rec Row)
  dispatch d zero ls = ls
  dispatch d (suc z) [] = []
  dispatch d (suc z) (l ∷ ls) =
      record l {
        live = feed d l.live (input_tok l.slot) (input_pos l.slot);
        samp = sampled d l.live (input_tok l.slot) (input_pos l.slot);
      }
      ∷ dispatch d z ls

  abbrev pub finish_now :
      Params → PrefixCache Rec Row → Lane Rec Row → PrefixCache Rec Row × Lane Rec Row
  finish_now c k l = (
    snapshot_slot c k l.slot l.live,
    finish (record l { slot = record (l.slot) { fin_pending = true } }),
  )

  -- The limits, after a token was taken.
  unfoldable pub end_step :
      Params → PrefixCache Rec Row → Lane Rec Row → PrefixCache Rec Row × Lane Rec Row
  end_step c k l =
      if leb c.n_ctx l.slot.pos || leb l.slot.max_gen l.slot.gen then finish_now c k l else (k, l)

  -- A step that sampled a token which counts: the last prompt token, or a decode step.
  unfoldable pub commit_sample :
      Params → Bool → PrefixCache Rec Row → Lane Rec Row → PrefixCache Rec Row × Lane Rec Row
  commit_sample c was_prefill k l =
      let s = record (l.slot) {
        pos = l.slot.pos + (if was_prefill then 0 else 1);
        serial_steps = l.slot.serial_steps + 1;
      } in
      let l' = record l { slot = s } in
      if l.samp == c.eos then finish_now c k l' else end_step c k (take_token c.chunk l' l.samp)

  -- What the host does with one slot after a serial step.
  unfoldable pub commit :
      Params → PrefixCache Rec Row → Lane Rec Row → PrefixCache Rec Row × Lane Rec Row
  unfolding commit_sample
  commit c k l =
      if idle l.slot
      then (k, l)
      else if prefilling l.slot && ltb (l.slot.cursor + 1) (length l.slot.prompt)
      then (k, record l { slot = record (l.slot) { cursor = l.slot.cursor + 1 } })
      else if prefilling l.slot
      then commit_sample c true k (record l {
        slot = record (l.slot) { cursor = length l.slot.prompt; pos = length l.slot.prompt };
      })
      else commit_sample c false k l

  unfoldable pub commit_all :
      Params → PrefixCache Rec Row → List (Lane Rec Row) → PrefixCache Rec Row × List (Lane Rec Row)
  commit_all c k [] = (k, [])
  commit_all c k (l ∷ ls) =
      let one = commit c k l in let others = commit_all c one.0 ls in (others.0, one.1 ∷ others.1)

  -- Phase 3: at most `n` serial steps.
  unfoldable pub serial_phase : Params → Device Rec Row → ℕ → Engine Rec Row → Engine Rec Row
  serial_phase c d zero e = e
  serial_phase c d (suc n) e =
      let z = depth_from 0 e.lanes 0 in
      let stepped = commit_all c e.cache (dispatch d z e.lanes) in
      let rest = serial_phase c d n (record { lanes = stepped.1; cache = stepped.0 }) in
      if z == 0 || not (needs_step c e.lanes) then e else rest

  -- nAct and `only` of phase 2: how many slots run, and the last of them.
  unfoldable pub running : List (Lane Rec Row) → ℕ
  running [] = 0
  running (l ∷ ls) = (if idle l.slot then 0 else 1) + running ls

  unfoldable pub only_from : ℕ → List (Lane Rec Row) → ℕ → ℕ
  only_from i [] only = only
  only_from i (l ∷ ls) only = only_from (i + 1) ls (if idle l.slot then only else i)

  -- Phase 2, with fuel for one round per position.
  unfoldable pub spec_phase : Params → Device Rec Row → Engine Rec Row → Run (Engine Rec Row)
  unfolding running only_from
  spec_phase c d e =
      let only = only_from 0 e.lanes 0 in
      if not c.spec_on || not (running e.lanes == 1)
      then done e
      else elim (get_elem? e.lanes only) [
        | none ↦ done e
        | some l ↦ spec_loop c d (c.n_ctx + 1) only e.cache l >>= λ r.
            done (record { lanes = set e.lanes only r.1; cache = r.0 })
      ]

  -- outCnt[s] = 0 and *outFin = 0 at entry.
  abbrev pub cleared : Lane Rec Row → Lane Rec Row
  cleared l = record l { out = []; fin = false }

  unfoldable pub active_count : List (Lane Rec Row) → ℕ
  active_count [] = 0
  active_count (l ∷ ls) = (if l.slot.active then 1 else 0) + active_count ls

  -- stepChunk: the engine after the call and the number of slots active at entry.
  unfoldable pub step_chunk : Params → Device Rec Row → Engine Rec Row → Run (Engine Rec Row × ℕ)
  step_chunk c d e =
      let ls = map cleared e.lanes in
      let n = active_count ls in
      if n == 0 then done (record e { lanes = ls }, 0) else (do
        e' ← spec_phase c d (record e { lanes = map (drain c.chunk) ls })
        done (serial_phase c d c.chunk e', n))

-- qk_step_chunk with its pointers present: -5 on a split stage.
pub data StepResult (Rec Row : Type 0) : Type 0 where
  split_engine : StepResult Rec Row
  advanced : Engine Rec Row → ℕ → StepResult Rec Row

module _ {Rec Row : Type 0} where
  unfoldable pub qk_step_chunk : Params → Device Rec Row → Engine Rec Row → Run (StepResult Rec Row)
  qk_step_chunk c d e =
      if split_stage c
      then done split_engine
      else (step_chunk c d e >>= λ r. done (advanced r.0 r.1))
