-- ===== src/Batch/Project.antt =====
-- prefillBatchLast: the lambdas disp, gemmProj and proj.
use qwen_kernel.Prelude.{
  ◌+◌, ◌-◌, ◌/◌, ◌%◌, ◌&&◌, ◌||◌, ◌∷◌, ◌==◌, if◌then◌else◌, ℕ, min, Bool, not, List, [], leb,
}
use qwen_kernel.Batch.{
  Command, DescSet, Flags, Kernel, Model, dispatch_grid, p_gemm_b, p_gemm_b4, p_gemm_b_coop,
  p_gemm_b_coop2, p_gemm_b_coop2_b64, p_gemm_b_coop_split, p_gemv_a, p_gemv_a4, p_gemv_o, p_gemv_o4,
}

abbrev pub w32 : ℕ → ℕ
w32 x = x % 4294967296

-- (a + b - 1) / b on uint32_t.
abbrev pub blocks : ℕ → ℕ → ℕ
blocks a b = w32 (a + (b - 1)) / b

abbrev pub grid_x : Model → ℕ → ℕ
grid_x m wgs = min wgs m.grid_limit

-- disp, at a depth zdim.
unfoldable pub disp : Model → ℕ → Kernel → DescSet → ℕ → List ℕ → Command
disp m zdim k s wgs args = dispatch_grid k s args (grid_x m wgs) (blocks wgs (grid_x m wgs)) zdim

module _ (m : Model) (f : Flags) (n layer : ℕ) where
  unfoldable pub use_coop : ℕ → ℕ → Bool → Bool
  use_coop rows cols iq4 =
      f.prefill_coopmat
      && leb f.prefill_coopmat_first layer
      && not iq4
      && leb 192 n
      && (rows % 128 == 0)
      && (cols % 32 == 0)
      && (n % 64 == 0)

  unfoldable pub use_coop_split : ℕ → ℕ → Bool → Bool
  unfolding use_coop
  use_coop_split rows cols iq4 =
      not (use_coop rows cols iq4)
      && f.prefill_coopmat_split
      && leb f.prefill_coopmat_split_first layer
      && not iq4
      && leb 192 n
      && (rows % 64 == 0)
      && (cols % 32 == 0)
      && (n % 64 == 0)

  unfoldable pub use_coop_b64 : ℕ → ℕ → Bool → Bool
  unfolding use_coop
  use_coop_b64 rows cols iq4 =
      use_coop rows cols iq4
      && not f.gemm_coop_v1
      && leb rows 2048
      && f.has_coop2_b64
      && f.gemm_coop_b64

  unfoldable pub gemm_kernel : ℕ → ℕ → Bool → Kernel
  unfolding use_coop use_coop_split use_coop_b64
  gemm_kernel rows cols iq4 =
      if iq4
      then p_gemm_b4
      else if use_coop rows cols iq4
      then (if f.gemm_coop_v1
          then p_gemm_b_coop
          else if use_coop_b64 rows cols iq4
          then p_gemm_b_coop2_b64
          else p_gemm_b_coop2)
      else if use_coop_split rows cols iq4
      then p_gemm_b_coop_split
      else p_gemm_b

  -- gemmProj: a tile of the output has 64 or 128 rows, and 64 tokens.
  unfoldable pub gemm_proj : DescSet → ℕ → ℕ → Bool → Command
  unfolding gemm_kernel use_coop_split use_coop_b64
  gemm_proj s rows cols iq4 =
      dispatch_grid (gemm_kernel rows cols iq4) s (rows ∷ cols ∷ n ∷ [])
        (if use_coop_split rows cols iq4 || use_coop_b64 rows cols iq4
          then blocks rows 64
          else blocks rows 128)
        1 (blocks n 64)

  unfoldable pub proj : ℕ → DescSet → ℕ → ℕ → Bool → Bool → Command
  unfolding gemm_proj disp
  proj zdim s rows cols is_out iq4 =
      if leb 48 n
      then gemm_proj s rows cols iq4
      else if is_out
      then disp m zdim (if iq4 then p_gemv_o4 else p_gemv_o) s (blocks rows 2) (rows ∷ cols ∷ [])
      else disp m zdim (if iq4 then p_gemv_a4 else p_gemv_a) s (blocks rows 4) (rows ∷ cols ∷ [])
