-- ===== src/Batch.antt =====
-- The command buffer of prefillBatchLast in src/main.cpp: which kernels it dispatches over how many
-- workgroups, with barriers and submissions between them. The debug dumps (QK_DUMP_X,
-- QK_DUMP_TAPS) are taken as off; profiling stamps are left out; of the push constants the integers
-- are kept.
pub mod Project
pub mod Delta
pub mod Attention
pub mod Experts
pub mod Pass
pub mod Tiles
pub mod Groups
pub mod Buffers
pub mod Hazards
pub mod Ordered
pub mod OrderedPass
use qwen_kernel.Prelude.{ℕ, Bool, List}

-- The pipelines.
pub data Kernel : Type 0 where
  p_emb : Kernel
  p_rms : Kernel
  p_gemv_a : Kernel
  p_gemv_a4 : Kernel
  p_gemv_o : Kernel
  p_gemv_o4 : Kernel
  p_gemm_b : Kernel
  p_gemm_b4 : Kernel
  p_gemm_b_coop : Kernel
  p_gemm_b_coop2 : Kernel
  p_gemm_b_coop2_b64 : Kernel
  p_gemm_b_coop_split : Kernel
  p_ab_b : Kernel
  p_conv_b : Kernel
  p_step_gate : Kernel
  p_step_b : Kernel
  p_step_b_cols : Kernel
  p_gate_b : Kernel
  p_prep_b : Kernel
  p_attn_s : Kernel
  p_attn_s_g2 : Kernel
  p_attn_s_g4 : Kernel
  p_attn_s_g8 : Kernel
  p_attn_r : Kernel
  p_attn_b : Kernel
  p_attn_b_coop : Kernel
  p_attn_b_coop2 : Kernel
  p_add_n : Kernel
  p_add_n_route : Kernel
  p_moe_l : Kernel
  p_moe_l_gemm : Kernel
  p_moe_rs : Kernel
  p_moe_rs_hier : Kernel
  p_moe_s : Kernel
  p_moe_s256 : Kernel
  p_moe_group_pairs : Kernel
  p_moe_gus : Kernel
  p_moe_gus64 : Kernel
  p_moe_gus_coop : Kernel
  p_moe_gu : Kernel
  p_moe_gu4 : Kernel
  p_moe_gu_group3 : Kernel
  p_moe_gu_group3_row2 : Kernel
  p_moe_gu_group_coop : Kernel
  p_moe_dn4 : Kernel
  p_moe_dn4_128 : Kernel
  p_moe_dn6 : Kernel
  p_moe_dn_group4 : Kernel
  p_moe_dn_group4_row2 : Kernel
  p_moe_dn_group6 : Kernel
  p_moe_dn_group6_row2 : Kernel
  p_moe_dn_group_coop4 : Kernel
  p_moe_dn_group_coop6 : Kernel
  p_moe_dns_b : Kernel
  p_moe_dns_b32 : Kernel
  p_moe_dns_coop : Kernel
  p_add3 : Kernel
  p_add3_group : Kernel
  p_head : Kernel
  p_am1 : Kernel
  p_am2 : Kernel

-- The descriptor sets: those of a layer (BLayer), and the shared ones. sP2 is another set in a
-- recurrent layer (s_p2) than in an attention layer (s_p2_kv).
pub data DescSet : Type 0 where
  s_emb : DescSet
  s_rms : DescSet
  s_p1 : DescSet
  s_p2 : DescSet
  s_p2_kv : DescSet
  s_p3 : DescSet
  s_ab : DescSet
  s_conv : DescSet
  s_step : DescSet
  s_step_gate : DescSet
  s_gate : DescSet
  s_wo : DescSet
  s_prep : DescSet
  s_attn : DescSet
  s_attn_s : DescSet
  s_attn_r : DescSet
  s_add_n : DescSet
  s_add_n_route : DescSet
  s_moe_l : DescSet
  s_moe_rs : DescSet
  s_moe_s : DescSet
  s_moe_s256 : DescSet
  s_moe_group_pairs : DescSet
  s_moe_gus : DescSet
  s_moe_gu : DescSet
  s_moe_gu_group : DescSet
  s_moe_dn : DescSet
  s_moe_dn_group : DescSet
  s_moe_dns : DescSet
  s_add3 : DescSet
  s_add3_group : DescSet
  s_head : DescSet
  s_am1 : DescSet
  s_am2 : DescSet

-- What is recorded. `barrier` makes what shaders and transfers wrote visible to shaders,
-- `copy_barrier` what shaders wrote to transfers. `submit` is flushCB up to its closing barrier.
pub data Command : Type 0 where
  dispatch_grid : Kernel → DescSet → List ℕ → ℕ → ℕ → ℕ → Command
  barrier : Command
  copy_barrier : Command
  submit : Command
  zero_carry : ℕ → Command
  copy_carry : ℕ → ℕ → Command
  copy_hidden_in : ℕ → Command
  copy_hidden_out : ℕ → Command
  copy_logits : ℕ → Command
  copy_ids : ℕ → Command

-- The sizes of the model, and of the device's grid.
pub record Model : Type 0 where
  pub n_layer : ℕ
  pub n_embd : ℕ
  pub ch_qkv : ℕ
  pub d_in : ℕ
  pub d_s : ℕ
  pub h_k : ℕ
  pub h_v : ℕ
  pub h_q : ℕ
  pub h_kv : ℕ
  pub dh : ℕ
  pub n_rot : ℕ
  pub ff_e : ℕ
  pub n_exp : ℕ
  pub n_used : ℕ
  pub n_vocab : ℕ
  pub ctx : ℕ
  pub k_div : ℕ
  pub grid_limit : ℕ

-- The switches that qk_engine::open reads from the environment.
pub record Flags : Type 0 where
  pub prefill_coopmat : Bool
  pub prefill_coopmat_first : ℕ
  pub prefill_coopmat_split : Bool
  pub prefill_coopmat_split_first : ℕ
  pub gemm_coop_v1 : Bool
  pub gemm_coop_b64 : Bool
  pub has_coop2_b64 : Bool
  pub dn_step_gate : Bool
  pub dn_step_cols : Bool
  pub dn_step_cols_first : ℕ
  pub dn_step_cols_lanes : ℕ
  pub use_split_k : Bool
  pub attn_gqa_auto : Bool
  pub attn_gqa_threshold : ℕ
  pub attn_gqa_group : ℕ
  pub attn_live_dispatch : Bool
  pub attn_split_max : ℕ
  pub attn_chunk : ℕ
  pub attn_coopmat : Bool
  pub attn_coopmat_first : ℕ
  pub attn_coop_br32 : Bool
  pub attn_budget : ℕ
  pub route_fused : Bool
  pub select_hier : Bool
  pub select256 : Bool
  pub logits_gemm : Bool
  pub logits_gemm_first : ℕ
  pub shared_coopmat_gu : Bool
  pub shared_coopmat_down : Bool
  pub shared_coopmat_first : ℕ
  pub shared_coopmat_down_first : ℕ
  pub shared_gu64 : Bool
  pub shared_down32 : Bool
  pub group_gu : Bool
  pub group_down : Bool
  pub group_rows : ℕ
  pub group_down_rows : ℕ
  pub moe_coopmat : Bool
  pub moe_coopmat_first : ℕ
  pub gu_iq4 : Bool
  pub down128 : Bool
  pub flush_every : ℕ

-- What a layer is: recurrent or attention, and the formats of its weights.
pub record LayerKind : Type 0 where
  pub recurrent : Bool
  pub iq4_p1 : Bool
  pub iq4_p2 : Bool
  pub iq4_p3 : Bool
  pub iq4_wo : Bool
  pub down_q6 : Bool
