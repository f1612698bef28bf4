-- ===== src/Session.antt =====
-- A server's use of the C interface of include/qk.h: qk_slot_start, qk_step_chunk and
-- qk_slot_cancel in any order.
pub mod Safe
use qwen_kernel.Prelude.{◌+◌, ◌<◌, ◌≡◌, ℕ, List, length, done}
use qwen_kernel.Chunk.{Engine, step_chunk}
use qwen_kernel.Device.{Device}
use qwen_kernel.Slot.{Params}
use qwen_kernel.Start.{slot_cancel, slot_start, started}

-- The engines that a sequence of calls leads to.
pub data Reaches {Rec Row : Type 0} (c : Params) (d : Device Rec Row)
    : Engine Rec Row → Engine Rec Row → Type 0 where
  opened : {e : Engine Rec Row} → Reaches c d e e
  by_start :
      {e e' e'' : Engine Rec Row} (slot : ℕ) (prompt : List ℕ) (max_gen snap_prefix : ℕ)
      → Reaches c d e e'
      → length prompt + max_gen < 4294967296
      → slot_start c d e' slot prompt max_gen snap_prefix ≡ done (started e'')
      → Reaches c d e e''
  by_step :
      {e e' : Engine Rec Row} (r : Engine Rec Row × ℕ)
      → Reaches c d e e'
      → step_chunk c d e' ≡ done r
      → Reaches c d e r.0
  by_cancel :
      {e e' : Engine Rec Row} (slot : ℕ) → Reaches c d e e' → Reaches c d e (slot_cancel e' slot)
