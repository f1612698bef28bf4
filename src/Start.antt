-- ===== src/Start.antt =====
-- qk_slot_start and qk_slot_cancel of src/main.cpp.
use qwen_kernel.Prelude.{
  ◌>>=◌, ◌+◌, ◌-◌, ◌%◌, ◌&&◌, ◌||◌, ◌∷◌, ◌==◌, if◌then◌else◌, ℕ, zero, suc, min, Bool, true, false,
  not, Option, none, some, List, [], ltb, leb, length, get_elem?, set, take, drop, Run, done,
  stalled,
}
use qwen_kernel.Chunk.{Engine}
use qwen_kernel.Device.{Device, Live, reset_live}
use qwen_kernel.Prefill.{prefill_batch}
use qwen_kernel.PrefixCache.{PrefixCache, entry_size, match_prefix, restore_into, snapshot_slot}
use qwen_kernel.Slot.{Lane, Params, Slot, reset_spec, split_stage}

-- The negative return codes.
pub data StartError : Type 0 where
  bad_slot : StartError
  slot_busy : StartError
  bad_bounds : StartError
  bad_token : StartError
  split_engine : StartError

unfoldable pub all_below : ℕ → List ℕ → Bool
all_below v [] = true
all_below v (t ∷ ts) = ltb t v && all_below v ts

-- The history boundary at which the state is cached, 0 for none.
abbrev pub snap_at : ℕ → ℕ → ℕ → ℕ
snap_at snap_prefix start target =
    if ltb start snap_prefix && ltb snap_prefix target then snap_prefix else 0

module _ {Rec Row : Type 0} (c : Params) (d : Device Rec Row) where
  -- batch_to: chunks of at most maxB while 16 or more tokens are missing. The slot's new stripes,
  -- and the position reached.
  unfoldable pub batch_to : ℕ → ℕ → List ℕ → ℕ → ℕ → Live Rec Row → Run (Live Rec Row × ℕ)
  batch_to zero idx prompt limit pos lv = stalled
  batch_to (suc fuel) idx prompt limit pos lv =
      let n = min c.max_b (limit - pos) in
      elim (ltb pos limit && leb 16 (limit - pos)) [
        | false ↦ done (lv, pos)
        | true ↦ prefill_batch c d idx lv (take n (drop pos prompt)) pos >>= λ lv'.
            batch_to fuel idx prompt limit (pos + n) lv'
      ]

-- What the prefill of slot_start leaves: cache, stripes, position, and where a history snapshot
-- was taken (0 for none).
pub record Prefilled (Rec Row : Type 0) : Type 0 where
  pub cache : PrefixCache Rec Row
  pub live : Live Rec Row
  pub reached : ℕ
  pub snap_pos : ℕ

pub data StartResult (Rec Row : Type 0) : Type 0 where
  refused : StartError → StartResult Rec Row
  started : Engine Rec Row → StartResult Rec Row

-- The slot that a request occupies once its prompt is prefilled up to `reached`.
unfoldable pub occupied : Slot → List ℕ → ℕ → ℕ → Slot
unfolding reset_spec
occupied s prompt max_gen reached = reset_spec (record s {
  active = true;
  prompt = prompt;
  gen_tokens = [];
  cursor = reached;
  pos = reached;
  gen = 0;
  max_gen = max_gen;
  last = 0;
})

-- The checks of slot_start, in order; n_prompt + max_gen is a uint32_t sum.
unfoldable pub start_error : Params → ℕ → Slot → List ℕ → ℕ → Option StartError
unfolding all_below
start_error c slot s prompt max_gen =
    if leb c.n_slots slot
    then some bad_slot
    else if split_stage c
    then some split_engine
    else if s.active
    then some slot_busy
    else if ltb (length prompt) 1 || ltb c.n_ctx ((length prompt + max_gen) % 4294967296)
    then some bad_bounds
    else if not (all_below c.vocab prompt)
    then some bad_token
    else none

module _ {Rec Row : Type 0} (c : Params) (d : Device Rec Row) where
  -- The state that the slot starts from: a cached prefix restored, or a reset slot.
  unfoldable pub resident : PrefixCache Rec Row → Live Rec Row → List ℕ → Prefilled Rec Row
  unfolding entry_size
  resident k lv prompt = elim (match_prefix k prompt (length prompt)) [
    | none ↦ record { cache = k; live = reset_live d; reached = 0; snap_pos = 0 }
    | some i ↦ record {
      cache = (restore_into k i lv).0;
      live = (restore_into k i lv).1;
      reached = entry_size k i;
      snap_pos = 0;
    }
  ]

  -- The prefill up to the history boundary, with its snapshot.
  unfoldable pub prefill_history :
      ℕ → Slot → List ℕ → ℕ → Prefilled Rec Row → Run (Prefilled Rec Row)
  prefill_history idx s prompt limit p = if limit == 0 then done p else (do
    r ← batch_to c d (c.n_ctx + 1) idx prompt limit p.reached p.live
    done (
        if c.share_fork && ltb p.reached r.1
        then record {
          cache = snapshot_slot c p.cache (record s { pos = r.1; prompt = prompt }) r.0;
          live = r.0;
          reached = r.1;
          snap_pos = r.1;
        }
        else record p { live = r.0; reached = r.1 }))

  -- Both prefills, up to the last prompt token.
  unfoldable pub prefill_batched :
      ℕ → Slot → List ℕ → ℕ → Prefilled Rec Row → Run (Prefilled Rec Row)
  prefill_batched idx s prompt snap_prefix p = do
    let target = length prompt - 1
    h ← prefill_history idx s prompt (snap_at snap_prefix p.reached target) p
    r ← batch_to c d (c.n_ctx + 1) idx prompt target h.reached h.live
    done (record h { live = r.0; reached = r.1 })

  -- QK_NO_BATCH skips them.
  unfoldable pub prefill_prompt :
      ℕ → Slot → List ℕ → ℕ → Prefilled Rec Row → Run (Prefilled Rec Row)
  prefill_prompt idx s prompt snap_prefix p =
      if c.no_batch then done p else prefill_batched idx s prompt snap_prefix p

  -- The slot goes active; without a history snapshot the whole prefill is cached.
  unfoldable pub admit :
      Lane Rec Row → List ℕ → ℕ → ℕ → Prefilled Rec Row → PrefixCache Rec Row × Lane Rec Row
  admit l prompt max_gen start p =
      let s = occupied l.slot prompt max_gen p.reached in
      (
        (if c.share_fork && p.snap_pos == 0 && ltb start p.reached
            then snapshot_slot c p.cache s p.live
            else p.cache),
        record l { slot = s; live = p.live },
      )

  -- qk_slot_start on one lane.
  unfoldable pub start_lane :
      ℕ
      → PrefixCache Rec Row
      → Lane Rec Row
      → List ℕ
      → ℕ
      → ℕ
      → Run (PrefixCache Rec Row × Lane Rec Row)
  start_lane idx k l prompt max_gen snap_prefix = do
    let begin = resident k l.live prompt
    p ← prefill_prompt idx l.slot prompt snap_prefix begin
    done (admit l prompt max_gen begin.reached p)

  -- qk_slot_start.
  unfoldable pub slot_start : Engine Rec Row → ℕ → List ℕ → ℕ → ℕ → Run (StartResult Rec Row)
  unfolding start_error
  slot_start e slot prompt max_gen snap_prefix = elim (get_elem? e.lanes slot) [
    | none ↦ done (refused bad_slot)
    | some l ↦ elim (start_error c slot l.slot prompt max_gen) [
      | some err ↦ done (refused err)
      | none ↦ start_lane slot e.cache l prompt max_gen snap_prefix >>= λ r.
          done (started (record { lanes = set e.lanes slot r.1; cache = r.0 }))
    ]
  ]

module _ {Rec Row : Type 0} where
  unfoldable pub cancel_lane : Lane Rec Row → Lane Rec Row
  unfolding reset_spec
  cancel_lane l = record l { slot = reset_spec (record (l.slot) { active = false; prompt = [] }) }

  -- qk_slot_cancel.
  unfoldable pub slot_cancel : Engine Rec Row → ℕ → Engine Rec Row
  unfolding cancel_lane
  slot_cancel e slot = elim (get_elem? e.lanes slot) [
    | none ↦ e
    | some l ↦ record e { lanes = set e.lanes slot (cancel_lane l) }
  ]
