-- ===== src/Batch/Delta.antt =====
-- prefillBatchLast: the commands of a recurrent (DeltaNet) layer, up to its output projection.
use qwen_kernel.Prelude.{
  ◌*◌, ◌/◌, ◌&&◌, ◌∷◌, ◌++◌, ◌==◌, if◌then◌else◌, ℕ, Bool, true, false, List, [], leb,
}
use qwen_kernel.Batch.{
  Command, Flags, LayerKind, Model, barrier, p_ab_b, p_conv_b, p_gate_b, p_step_b, p_step_b_cols,
  p_step_gate, s_ab, s_conv, s_gate, s_p1, s_p2, s_step, s_step_gate, s_wo,
}
use qwen_kernel.Batch.Project.{disp, proj}

module _ (m : Model) (f : Flags) (n layer : ℕ) (l : LayerKind) where
  unfoldable pub step_cols : Bool
  step_cols = f.dn_step_cols && leb 192 n && leb f.dn_step_cols_first layer && (m.d_s == 128)

  unfoldable pub step_depth : ℕ
  unfolding step_cols
  step_depth = if step_cols then m.d_s * f.dn_step_cols_lanes / 64 else 1

  -- The state update and the gate: fused for a single token.
  unfoldable pub scan_commands : List Command
  unfolding disp step_cols step_depth
  scan_commands =
      if (n == 1) && f.dn_step_gate
      then disp m n p_step_gate s_step_gate m.h_v (m.d_s ∷ m.h_k ∷ m.h_v ∷ m.k_div ∷ [])
        ∷ barrier
        ∷ []
      else disp m step_depth (if step_cols then p_step_b_cols else p_step_b) s_step m.h_v
          (m.d_s ∷ m.h_k ∷ m.h_v ∷ n ∷ m.k_div ∷ [])
        ∷ barrier
        ∷ disp m n p_gate_b s_gate m.h_v (m.d_s ∷ m.h_v ∷ n ∷ [])
        ∷ barrier
        ∷ []

  unfoldable pub delta_commands : List Command
  unfolding disp proj scan_commands
  delta_commands =
      proj m f n layer n s_p1 m.ch_qkv m.n_embd false l.iq4_p1
        ∷ proj m f n layer n s_p2 m.d_in m.n_embd false l.iq4_p2
        ∷ disp m n p_ab_b s_ab (2 * m.h_v) (m.n_embd ∷ m.h_v ∷ n ∷ [])
        ∷ barrier
        ∷ disp m n p_conv_b s_conv (m.ch_qkv / m.d_s)
            (m.ch_qkv ∷ m.d_s ∷ 2 * m.h_k * m.d_s ∷ n ∷ [])
        ∷ barrier
        ∷ scan_commands
      ++ proj m f n layer n s_wo m.n_embd m.d_in true l.iq4_wo ∷ barrier ∷ []
