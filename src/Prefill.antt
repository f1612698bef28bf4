-- ===== src/Prefill.antt =====
-- The batched forward pass as the serving code calls it: the argument checks of prefillBatchLast
-- (which exit the process) and the effect on the slot's stripes; verifyRound and promoteScratch.
use qwen_kernel.Prelude.{
  ◌+◌, ◌&&◌, ◌||◌, ◌==◌, if◌then◌else◌, ℕ, Bool, true, false, not, List, ltb, leb, length, Run,
  done, exited,
}
use qwen_kernel.Device.{Device, Live, reset_live}
use qwen_kernel.Slot.{Params, first_stage, last_stage}

-- The check at the head of prefillBatchLast, for a call with token ids (hiddenIn is null).
abbrev pub bad_args : Params → ℕ → ℕ → ℕ → Bool → Bool
bad_args c n slot base head =
    ltb n 1
    || ltb c.max_b n
    || leb c.n_slots slot
    || ltb c.n_ctx (base + n)
    || not (first_stage c)
    || (head && not (last_stage c))

-- What a verify round leaves: the live stripes, the scratch stripes, the greedy ids.
pub record Verified (Rec Row : Type 0) : Type 0 where
  pub live : Live Rec Row
  pub scratch : Rec
  pub ids : List ℕ

module _ {Rec Row : Type 0} (c : Params) (d : Device Rec Row) where
  -- base = 0 zeroes the slot's stripes first.
  abbrev pub seeded : Live Rec Row → ℕ → Live Rec Row
  seeded lv base = if base == 0 then reset_live d else lv

  -- prefillBatchLast in live mode, with no head pass (wantLogits false, argmaxOut null).
  unfoldable pub prefill_batch : ℕ → Live Rec Row → List ℕ → ℕ → Run (Live Rec Row)
  prefill_batch slot lv toks base =
      if bad_args c (length toks) slot base false
      then exited
      else done (d.batch (seeded lv base) toks base)

  -- verifyRound: the scratch stripe is seeded from the live one, the pass runs against scratch and
  -- the live K/V cache. The live recurrent stripes stay as they were.
  unfoldable pub verify_round : ℕ → Live Rec Row → List ℕ → ℕ → Run (Verified Rec Row)
  verify_round slot lv toks base =
      let scratch = record lv { kv = (seeded lv base).kv } in
      let after = d.batch scratch toks base in
      if bad_args c (length toks) slot base true
      then exited
      else done (record {
        live = record { rec = (seeded lv base).rec; kv = after.kv };
        scratch = after.rec;
        ids = d.batch_ids scratch toks base;
      })

module _ {Rec Row : Type 0} where
  -- promoteScratch: the scratch stripe becomes the live one; K/V is in place already.
  unfoldable pub promote_scratch : Verified Rec Row → Live Rec Row
  promote_scratch v = record { rec = v.scratch; kv = v.live.kv }
