-- ===== src/Batch/Experts.antt =====
-- prefillBatchLast: the commands of a layer's experts, after its attention or recurrent part: norm,
-- router, shared expert, routed experts, and the sum.
use qwen_kernel.Prelude.{
  ◌*◌, ◌/◌, ◌%◌, ◌&&◌, ◌||◌, ◌∷◌, ◌++◌, ◌==◌, if◌then◌else◌, ℕ, Bool, not, List, [], leb,
}
use qwen_kernel.Batch.{
  Command, Flags, Model, barrier, dispatch_grid, p_add3, p_add3_group, p_add_n, p_add_n_route,
  p_moe_dn4, p_moe_dn4_128, p_moe_dn6, p_moe_dn_group4, p_moe_dn_group4_row2, p_moe_dn_group6,
  p_moe_dn_group6_row2, p_moe_dn_group_coop4, p_moe_dn_group_coop6, p_moe_dns_b, p_moe_dns_b32,
  p_moe_dns_coop, p_moe_group_pairs, p_moe_gu, p_moe_gu4, p_moe_gu_group3, p_moe_gu_group3_row2,
  p_moe_gu_group_coop, p_moe_gus, p_moe_gus64, p_moe_gus_coop, p_moe_l, p_moe_l_gemm, p_moe_rs,
  p_moe_rs_hier, p_moe_s, p_moe_s256, s_add3, s_add3_group, s_add_n, s_add_n_route, s_moe_dn,
  s_moe_dn_group, s_moe_dns, s_moe_group_pairs, s_moe_gu, s_moe_gu_group, s_moe_gus, s_moe_l,
  s_moe_rs, s_moe_s, s_moe_s256,
}
use qwen_kernel.Batch.Project.{blocks, disp, w32}

module _ (m : Model) (f : Flags) (n layer : ℕ) where
  -- pcv.
  abbrev pub moe_args : List ℕ
  moe_args = m.n_embd ∷ m.ff_e ∷ m.n_exp ∷ m.n_used ∷ []

  unfoldable pub fuse_route : Bool
  fuse_route = f.route_fused && (n == 1)

  unfoldable pub use_logits_gemm : Bool
  unfolding fuse_route
  use_logits_gemm =
      f.logits_gemm
      && not fuse_route
      && leb 192 n
      && (n % 32 == 0)
      && (m.n_exp % 64 == 0)
      && (m.n_embd % 32 == 0)
      && leb f.logits_gemm_first layer

  -- The residual norm and the router's logits.
  unfoldable pub router_commands : List Command
  unfolding disp fuse_route use_logits_gemm
  router_commands =
      disp m n (if fuse_route then p_add_n_route else p_add_n)
        (if fuse_route then s_add_n_route else s_add_n) 1 (m.n_embd ∷ [])
      ∷ barrier
      ∷ (if use_logits_gemm
          then disp m (n / 32) p_moe_l_gemm s_moe_l (m.n_exp / 64) moe_args
          else disp m n
              (if fuse_route then (if f.select_hier then p_moe_rs_hier else p_moe_rs) else p_moe_l)
              (if fuse_route then s_moe_rs else s_moe_l) m.n_exp moe_args)
      ∷ []

  unfoldable pub shared_coop_ok : Bool
  shared_coop_ok =
      leb f.shared_coopmat_first layer
      && leb 192 n
      && (n % 64 == 0)
      && (m.ff_e % 64 == 0)
      && (m.n_embd % 64 == 0)

  unfoldable pub shared_coop_gu : Bool
  unfolding shared_coop_ok
  shared_coop_gu = f.shared_coopmat_gu && shared_coop_ok

  unfoldable pub shared_coop_down : Bool
  unfolding shared_coop_ok
  shared_coop_down =
      f.shared_coopmat_down && shared_coop_ok && leb f.shared_coopmat_down_first layer

  -- dispSharedDown.
  unfoldable pub shared_down : Command
  unfolding disp shared_coop_down
  shared_down =
      if shared_coop_down
      then dispatch_grid p_moe_dns_coop s_moe_dns moe_args (m.n_embd / 64) 1 (n / 64)
      else disp m n (if f.shared_down32 then p_moe_dns_b32 else p_moe_dns_b) s_moe_dns m.n_embd
          moe_args

  unfoldable pub shared_gate_up : Command
  unfolding disp shared_coop_gu
  shared_gate_up =
      if shared_coop_gu
      then dispatch_grid p_moe_gus_coop s_moe_gus moe_args (m.ff_e / 64) 1 (n / 64)
      else disp m n (if f.shared_gu64 then p_moe_gus64 else p_moe_gus) s_moe_gus m.ff_e moe_args

  unfoldable pub select_commands : List Command
  unfolding disp fuse_route
  select_commands =
      let fast = f.select256 || f.route_fused in
      if fuse_route
      then []
      else disp m n (if fast then p_moe_s256 else p_moe_s) (if fast then s_moe_s256 else s_moe_s) 1
          moe_args
        ∷ barrier
        ∷ []

  unfoldable pub group_eligible : Bool
  group_eligible = leb m.n_exp (w32 (n * m.n_used)) && (m.ff_e == 512)

  unfoldable pub use_group_gu : Bool
  unfolding group_eligible
  use_group_gu = group_eligible && not f.gu_iq4 && f.group_gu

  unfoldable pub use_group_down : Bool
  unfolding group_eligible
  use_group_down = group_eligible && f.group_down

  unfoldable pub pair_commands : List Command
  unfolding disp use_group_gu use_group_down
  pair_commands =
      if use_group_gu || use_group_down
      then disp m 1 p_moe_group_pairs s_moe_group_pairs 1 (m.n_exp ∷ m.n_used ∷ n ∷ [])
        ∷ barrier
        ∷ []
      else []

  unfoldable pub moe_coop : Bool
  moe_coop =
      f.moe_coopmat
      && not f.gu_iq4
      && leb f.moe_coopmat_first layer
      && leb 192 n
      && (m.n_embd % 64 == 0)
      && (m.ff_e % 64 == 0)

  unfoldable pub gate_up : Command
  unfolding disp use_group_gu moe_coop
  gate_up =
      if use_group_gu && moe_coop
      then dispatch_grid p_moe_gu_group_coop s_moe_gu_group moe_args (m.ff_e / 64) m.n_exp 1
      else if use_group_gu
      then dispatch_grid (if f.group_rows == 2 then p_moe_gu_group3_row2 else p_moe_gu_group3)
          s_moe_gu_group moe_args (blocks m.ff_e f.group_rows) m.n_exp 1
      else disp m n (if f.gu_iq4 then p_moe_gu4 else p_moe_gu) s_moe_gu (m.n_used * m.ff_e) moe_args

  abbrev pub down_rows : ℕ
  down_rows = if f.gu_iq4 then 1 else f.group_down_rows

  -- The routed experts' down projection, given the layer's format, and the final sum.
  unfoldable pub down_commands : Bool → List Command
  unfolding disp use_group_down moe_coop shared_down
  down_commands q6 =
      if use_group_down && moe_coop
      then dispatch_grid (if q6 then p_moe_dn_group_coop6 else p_moe_dn_group_coop4) s_moe_dn_group
          moe_args (m.n_embd / 64) m.n_exp 1
        ∷ shared_down
        ∷ barrier
        ∷ disp m n p_add3_group s_add3_group 1 (m.n_embd ∷ m.n_used ∷ [])
        ∷ []
      else if use_group_down
      then dispatch_grid
          (if q6
            then (if down_rows == 2 then p_moe_dn_group6_row2 else p_moe_dn_group6)
            else (if down_rows == 2 then p_moe_dn_group4_row2 else p_moe_dn_group4))
          s_moe_dn_group moe_args (blocks m.n_embd down_rows) m.n_exp 1
        ∷ shared_down
        ∷ barrier
        ∷ disp m n p_add3_group s_add3_group 1 (m.n_embd ∷ m.n_used ∷ [])
        ∷ []
      else disp m n (if q6 then p_moe_dn6 else if f.down128 then p_moe_dn4_128 else p_moe_dn4)
          s_moe_dn m.n_embd moe_args
        ∷ shared_down
        ∷ barrier
        ∷ disp m n p_add3 s_add3 1 (m.n_embd ∷ [])
        ∷ []

  unfoldable pub expert_commands : Bool → List Command
  unfolding router_commands shared_gate_up select_commands pair_commands gate_up down_commands
  expert_commands q6 =
      router_commands
      ++ (shared_gate_up
          ∷ barrier
          ∷ (select_commands
              ++ (pair_commands ++ (gate_up ∷ barrier ∷ (down_commands q6 ++ barrier ∷ [])))))
