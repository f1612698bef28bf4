-- ===== src/Slot.antt =====
-- One serving slot of the engine: `qk_engine::Slot` of src/main.cpp, the engine's fixed parameters,
-- and the lane that a call of qk_step_chunk works on (a slot, its stripes, its part of the output).
use qwen_kernel.Prelude.{
  ◌+◌, ◌&&◌, ◌||◌, ◌∷◌, ◌++◌, ◌==◌, if◌then◌else◌, ℕ, Bool, true, false, not, Option, none, List,
  [], ltb, leb, length, drop,
}
use qwen_kernel.Device.{Live}

-- The fields of qk_engine that the serving code reads and never writes after open(), and the
-- environment's QK_NO_BATCH.
pub record Params : Type 0 where
  pub n_slots : ℕ
  pub n_ctx : ℕ
  pub chunk : ℕ
  pub vocab : ℕ
  pub eos : ℕ
  pub max_b : ℕ
  pub n_layer : ℕ
  pub l_first : ℕ
  pub l_end : ℕ
  pub share_fork : Bool
  pub spec_on : Bool
  pub spec_l : ℕ
  pub spec_k : ℕ
  pub no_batch : Bool

abbrev pub first_stage : Params → Bool
first_stage c = c.l_first == 0

abbrev pub last_stage : Params → Bool
last_stage c = c.l_end == c.n_layer

abbrev pub split_stage : Params → Bool
split_stage c = not (c.l_first == 0) || not (c.l_end == c.n_layer)

-- The unordered_map `ngram` is a function; outQ and outQHead are as in the source.
pub record Slot : Type 0 where
  pub active : Bool
  pub prompt : List ℕ
  pub gen_tokens : List ℕ
  pub cursor : ℕ
  pub pos : ℕ
  pub gen : ℕ
  pub max_gen : ℕ
  pub last : ℕ
  pub out_q : List ℕ
  pub out_q_head : ℕ
  pub fin_pending : Bool
  pub ngram : ℕ → Option ℕ
  pub ngram_built : ℕ
  pub spec_rounds : ℕ
  pub spec_fed : ℕ
  pub spec_emitted : ℕ
  pub serial_steps : ℕ

unfoldable pub reset_spec : Slot → Slot
reset_spec s = record s {
  out_q = [];
  out_q_head = 0;
  fin_pending = false;
  ngram = λ _. none;
  ngram_built = 0;
  spec_rounds = 0;
  spec_fed = 0;
  spec_emitted = 0;
  serial_steps = 0;
}

-- A slot with its live stripes, its entry of sampMap, the tokens outTok[s*chunk ..) of this call
-- (outCnt is their number) and its bit of outFin.
pub record Lane (Rec Row : Type 0) : Type 0 where
  pub slot : Slot
  pub live : Live Rec Row
  pub samp : ℕ
  pub out : List ℕ
  pub fin : Bool

-- outQ from outQHead on: what the slot still has to emit.
abbrev pub pending : Slot → List ℕ
pending s = drop s.out_q_head s.out_q

-- Not running on the GPU: free, or finished with tokens still queued.
abbrev pub idle : Slot → Bool
idle s = not s.active || s.fin_pending

-- The drain loop of phase 1, over what waits: the new head and the new output.
unfoldable pub drain_from : ℕ → List ℕ → ℕ → List ℕ → ℕ × List ℕ
drain_from chunk [] head out = (head, out)
drain_from chunk (t ∷ rest) head out =
    let later = drain_from chunk rest (head + 1) (out ++ t ∷ []) in
    if ltb (length out) chunk then later else (head, out)

unfoldable pub clear_drained : Slot → Slot
clear_drained s =
    if leb (length s.out_q) s.out_q_head then record s { out_q = []; out_q_head = 0 } else s

module _ {Rec Row : Type 0} where
  -- `finish`: a finished slot is freed once its queue is drained.
  unfoldable pub finish : Lane Rec Row → Lane Rec Row
  unfolding reset_spec
  finish l =
      if l.slot.fin_pending && leb (length l.slot.out_q) l.slot.out_q_head
      then record l { slot = record (reset_spec l.slot) { active = false }; fin = true }
      else l

  -- `emitTok`: at most chunkN tokens per call, the overflow waits in outQ.
  unfoldable pub emit_tok : ℕ → Lane Rec Row → ℕ → Lane Rec Row
  emit_tok chunk l t =
      if ltb (length l.out) chunk
      then record l { out = l.out ++ t ∷ [] }
      else record l { slot = record (l.slot) { out_q = l.slot.out_q ++ t ∷ [] } }

  -- Phase 1 of stepChunk for one slot.
  unfoldable pub drain : ℕ → Lane Rec Row → Lane Rec Row
  unfolding clear_drained
  drain chunk l =
      if l.slot.active
      then (let moved = drain_from chunk (pending l.slot) l.slot.out_q_head l.out in
          finish (record l {
            slot = clear_drained (record (l.slot) { out_q_head = moved.0 });
            out = moved.1;
          }))
      else l
