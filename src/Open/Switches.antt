-- ===== src/Open/Switches.antt =====
-- qk_engine::open: the switches that the environment sets.
use qwen_kernel.Prelude.{
  ◌≡◌, ◌&&◌, ◌||◌, ◌==◌, if◌then◌else◌, ℕ, min, Bool, true, false, not, Option, none, some, arith,
  leb,
}
use qwen_kernel.Batch.{
  Flags, Kernel, Model, p_attn_b_coop, p_attn_b_coop2, p_gemm_b_coop, p_gemm_b_coop2,
  p_gemm_b_coop2_b64, p_gemm_b_coop_split,
}
use qwen_kernel.Batch.Attention.{attn_br32, attn_coop, attn_kernel}
use qwen_kernel.Batch.Project.{gemm_kernel, use_coop, use_coop_b64, use_coop_split, w32}

-- The variables, without their prefix QK_.
pub data Variable : Type 0 where
  env_no_splitk : Variable
  env_attn_live_dispatch : Variable
  env_attn_gqa_auto : Variable
  env_attn_gqa_group : Variable
  env_attn_gqa_threshold : Variable
  env_moe_select_fast : Variable
  env_moe_route_fused : Variable
  env_moe_select_hier : Variable
  env_moe_shared_gu_64 : Variable
  env_moe_down_128 : Variable
  env_moe_shared_down_32 : Variable
  env_moe_group_prefill : Variable
  env_moe_group_prefill_gu : Variable
  env_moe_group_prefill_down : Variable
  env_moe_group_prefill_rows : Variable
  env_moe_group_prefill_down_rows : Variable
  env_dn_step_gate_fused : Variable
  env_dn_step_cols : Variable
  env_dn_step_cols_first_layer : Variable
  env_attn_prefill_coopmat : Variable
  env_attn_prefill_coopmat_br16 : Variable
  env_attn_prefill_coopmat_first_layer : Variable
  env_prefill_coopmat_bm64 : Variable
  env_moe_logits_gemm : Variable
  env_moe_logits_gemm_first_layer : Variable
  env_prefill_coopmat_split : Variable
  env_prefill_coopmat_split_first_layer : Variable
  env_prefill_coopmat : Variable
  env_prefill_coopmat_first_layer : Variable
  env_moe_prefill_coopmat : Variable
  env_moe_prefill_coopmat_first_layer : Variable
  env_prefill_coopmat_v1 : Variable
  env_moe_shared_coopmat_gu : Variable
  env_moe_shared_coopmat_down : Variable
  env_moe_shared_coopmat_first_layer : Variable
  env_moe_shared_coopmat_down_first_layer : Variable

-- The cooperative pipelines that the device could build.
pub record Built : Type 0 where
  pub attn_b_coop : Bool
  pub attn_b_coop2 : Bool
  pub gemm_b_coop : Bool
  pub gemm_b_coop2_b64 : Bool
  pub gemm_b_coop_split : Bool
  pub moe_gu_group_coop : Bool
  pub moe_gus_coop : Bool

-- A variable's value is what atol reads; a negative one counts as 0, which every test takes alike.
abbrev pub is_set : Option ℕ → Bool
is_set none = false
is_set (some x) = true

unfoldable pub first_layer : ℕ → Option ℕ → ℕ → ℕ
first_layer n_layer none def = def
first_layer n_layer (some x) def = min n_layer (w32 x)

unfoldable pub one_or_two : Option ℕ → ℕ
one_or_two none = 2
one_or_two (some x) = if (x == 1) || (x == 2) then x else 2

unfoldable pub group_size : Option ℕ → ℕ
group_size none = 1
group_size (some x) = if (x == 2) || (x == 4) || (x == 8) then x else 1

unfoldable pub threshold : ℕ → Option ℕ → ℕ
threshold n_ctx none = 2048
threshold n_ctx (some x) = if leb 256 x && leb (w32 x) n_ctx then w32 x else 2048

-- The switches, but for those that other code sets: the formats of the model, the split sizes, the
-- lanes of QK_DN_COLS_LANES, and QK_SUBMIT_LAYERS and QK_ATTN_BUDGET of prefillBatchLast.
unfoldable pub read_switches : (Variable → Option ℕ) → Built → ℕ → ℕ → Flags → Flags
unfolding first_layer one_or_two group_size threshold
read_switches env b n_layer n_ctx f =
    let group_all = is_set (env env_moe_group_prefill) in
    let moe_coop = is_set (env env_moe_prefill_coopmat) && b.moe_gu_group_coop in
    let shared_first = first_layer n_layer (env env_moe_shared_coopmat_first_layer) 6 in
    record f {
      use_split_k = not (is_set (env env_no_splitk));
      attn_live_dispatch = is_set (env env_attn_live_dispatch);
      attn_gqa_auto = is_set (env env_attn_gqa_auto);
      attn_gqa_group = group_size (env env_attn_gqa_group);
      attn_gqa_threshold = threshold n_ctx (env env_attn_gqa_threshold);
      select256 = is_set (env env_moe_select_fast);
      route_fused = is_set (env env_moe_route_fused);
      select_hier = is_set (env env_moe_select_hier);
      shared_gu64 = is_set (env env_moe_shared_gu_64);
      down128 = is_set (env env_moe_down_128);
      shared_down32 = is_set (env env_moe_shared_down_32);
      group_gu = group_all || is_set (env env_moe_group_prefill_gu);
      group_down = group_all || is_set (env env_moe_group_prefill_down);
      group_rows = one_or_two (env env_moe_group_prefill_rows);
      group_down_rows = one_or_two (env env_moe_group_prefill_down_rows);
      dn_step_gate = is_set (env env_dn_step_gate_fused);
      dn_step_cols = is_set (env env_dn_step_cols);
      dn_step_cols_first = first_layer n_layer (env env_dn_step_cols_first_layer) 0;
      attn_coopmat = is_set (env env_attn_prefill_coopmat) && b.attn_b_coop;
      attn_coop_br32 = not (is_set (env env_attn_prefill_coopmat_br16)) && b.attn_b_coop2;
      attn_coopmat_first = first_layer n_layer (env env_attn_prefill_coopmat_first_layer) 4;
      gemm_coop_b64 = is_set (env env_prefill_coopmat_bm64);
      has_coop2_b64 = b.gemm_b_coop2_b64;
      logits_gemm = is_set (env env_moe_logits_gemm);
      logits_gemm_first = first_layer n_layer (env env_moe_logits_gemm_first_layer) 8;
      prefill_coopmat_split = is_set (env env_prefill_coopmat_split) && b.gemm_b_coop_split;
      prefill_coopmat_split_first =
          first_layer n_layer (env env_prefill_coopmat_split_first_layer) 4;
      prefill_coopmat = is_set (env env_prefill_coopmat) && b.gemm_b_coop;
      prefill_coopmat_first = first_layer n_layer (env env_prefill_coopmat_first_layer) 10;
      moe_coopmat = moe_coop;
      moe_coopmat_first = first_layer n_layer (env env_moe_prefill_coopmat_first_layer) 4;
      gemm_coop_v1 = is_set (env env_prefill_coopmat_v1);
      shared_coopmat_gu = b.moe_gus_coop && (moe_coop || is_set (env env_moe_shared_coopmat_gu));
      shared_coopmat_down =
          b.moe_gus_coop && (moe_coop || is_set (env env_moe_shared_coopmat_down));
      shared_coopmat_first = shared_first;
      shared_coopmat_down_first =
          first_layer n_layer (env env_moe_shared_coopmat_down_first_layer) shared_first;
    }

-- The kernels that are built on every device, and the cooperative ones that this one has; the
-- second cooperative product is built with the first.
unfoldable pub is_built : Built → Kernel → Bool
is_built b p_gemm_b_coop = b.gemm_b_coop
is_built b p_gemm_b_coop2 = b.gemm_b_coop
is_built b p_gemm_b_coop2_b64 = b.gemm_b_coop2_b64
is_built b p_gemm_b_coop_split = b.gemm_b_coop_split
is_built b p_attn_b_coop = b.attn_b_coop
is_built b p_attn_b_coop2 = b.attn_b_coop2
is_built b k = true

module _ (env : Variable → Option ℕ) (b : Built) (n_layer n_ctx : ℕ) (m : Model) (f : Flags) where
  gemm_kernel-is_built :
      (n il rows cols : ℕ) (iq4 : Bool)
      → is_built b (gemm_kernel m (read_switches env b n_layer n_ctx f) n il rows cols iq4) ≡ true
  unfolding is_built gemm_kernel read_switches use_coop use_coop_split use_coop_b64
  gemm_kernel-is_built n il rows cols iq4 = ground arith

  attn_kernel-is_built :
      (n base il : ℕ)
      → is_built b (attn_kernel m (read_switches env b n_layer n_ctx f) n base il) ≡ true
  unfolding is_built attn_kernel attn_coop attn_br32 read_switches
  attn_kernel-is_built n base il = ground arith

  -- With the switches that the environment sets, whatever it holds, the kernels chosen for a
  -- projection and for the tiled attention are built on the device.
  pub read_switches-is_built :
      (n base il rows cols : ℕ) (iq4 : Bool)
      → (is_built b (gemm_kernel m (read_switches env b n_layer n_ctx f) n il rows cols iq4) ≡ true)
        × (is_built b (attn_kernel m (read_switches env b n_layer n_ctx f) n base il) ≡ true)
  read_switches-is_built n base il rows cols iq4 =
      (gemm_kernel-is_built n il rows cols iq4, attn_kernel-is_built n base il)
