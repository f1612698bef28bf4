-- ===== src/Batch/Attention.antt =====
-- prefillBatchLast: the commands of an attention layer, up to its output projection.
use qwen_kernel.Prelude.{
  ◌+◌, ◌-◌, ◌*◌, ◌/◌, ◌%◌, ◌&&◌, ◌∷◌, ◌++◌, ◌==◌, if◌then◌else◌, ℕ, zero, suc, min, max, Bool, true,
  false, List, [], ltb, leb,
}
use qwen_kernel.Batch.{
  Command, Flags, Kernel, LayerKind, Model, barrier, dispatch_grid, p_attn_b, p_attn_b_coop,
  p_attn_b_coop2, p_attn_r, p_attn_s, p_attn_s_g2, p_attn_s_g4, p_attn_s_g8, p_prep_b, s_attn,
  s_attn_r, s_attn_s, s_p1, s_p2_kv, s_p3, s_prep, s_wo, submit,
}
use qwen_kernel.Batch.Project.{blocks, disp, proj, w32}

module _ (m : Model) (f : Flags) (n base layer : ℕ) where
  -- The integers of pcFaB.
  abbrev pub attn_args : ℕ → List ℕ
  attn_args qbase = m.ctx ∷ m.dh ∷ m.n_rot ∷ m.h_q ∷ m.h_kv ∷ base ∷ n ∷ qbase ∷ []

  unfoldable pub gqa_group : ℕ
  gqa_group =
      if f.attn_gqa_auto && leb f.attn_gqa_threshold (w32 (base + 1)) then 4 else f.attn_gqa_group

  unfoldable pub split_kernel : Kernel
  unfolding gqa_group
  split_kernel =
      if gqa_group == 8
      then p_attn_s_g8
      else if gqa_group == 4
      then p_attn_s_g4
      else if gqa_group == 2
      then p_attn_s_g2
      else p_attn_s

  -- The splits that a single query at `base` has keys for.
  unfoldable pub live_splits : ℕ
  live_splits =
      if f.attn_live_dispatch
      then min f.attn_split_max (blocks (w32 (base + 1)) f.attn_chunk)
      else f.attn_split_max

  -- The split-K path of a single query.
  unfoldable pub split_commands : List Command
  unfolding disp gqa_group split_kernel live_splits
  split_commands =
      let args =
        0 ∷ m.ctx ∷ m.dh ∷ m.n_rot ∷ m.h_q ∷ m.h_kv ∷ f.attn_split_max ∷ f.attn_chunk ∷ [] in
      dispatch_grid split_kernel s_attn_s args live_splits (m.h_q / gqa_group) 1
      ∷ barrier
      ∷ disp m 1 p_attn_r s_attn_r m.h_q args
      ∷ []

  unfoldable pub attn_coop : Bool
  attn_coop = f.attn_coopmat && leb 192 n && (m.dh == 256) && leb f.attn_coopmat_first layer

  unfoldable pub attn_br32 : Bool
  unfolding attn_coop
  attn_br32 = attn_coop && f.attn_coop_br32

  -- qb, the queries of a workgroup.
  unfoldable pub query_block : ℕ
  unfolding attn_br32
  query_block = if attn_br32 then 32 else 16

  unfoldable pub attn_kernel : Kernel
  unfolding attn_coop attn_br32
  attn_kernel = if attn_br32 then p_attn_b_coop2 else if attn_coop then p_attn_b_coop else p_attn_b

  -- qt, the queries of a tile: within the budget, down to a multiple of qb, at least qb.
  unfoldable pub query_tile : ℕ
  unfolding query_block
  query_tile =
      let q = min (w32 (max 1 (f.attn_budget / w32 (base + n)))) n in
      max query_block (q - q % query_block)

  -- The loop over the tiles, from the query qo on; qo stays below 2 * maxB, so it is not wrapped.
  unfoldable pub tile_commands : ℕ → ℕ → List Command
  unfolding disp attn_kernel query_block query_tile
  tile_commands zero qo = []
  tile_commands (suc fuel) qo =
      let tile = min query_tile (n - qo) in
      let rest = tile_commands fuel (qo + query_tile) in
      if ltb qo n
      then disp m (blocks tile query_block) attn_kernel s_attn m.h_q (attn_args qo)
          ∷ (if ltb (qo + tile) n then barrier ∷ submit ∷ barrier ∷ [] else [])
        ++ rest
      else []

  -- The tiled path; n steps are enough for the loop.
  unfoldable pub core_commands : List Command
  unfolding split_commands tile_commands
  core_commands = if f.use_split_k && (n == 1) then split_commands else tile_commands n 0

module _ (m : Model) (f : Flags) (n base layer : ℕ) (l : LayerKind) where
  unfoldable pub attention_commands : List Command
  unfolding disp proj core_commands
  attention_commands =
      proj m f n layer n s_p1 m.ch_qkv m.n_embd false l.iq4_p1
        ∷ proj m f n layer n s_p2_kv (m.h_kv * m.dh) m.n_embd false l.iq4_p2
        ∷ proj m f n layer n s_p3 (m.h_kv * m.dh) m.n_embd false l.iq4_p3
        ∷ barrier
        ∷ disp m n p_prep_b s_prep (m.h_q + 2 * m.h_kv) (attn_args m f n base layer 0)
        ∷ barrier
        ∷ core_commands m f n base layer
      ++ barrier ∷ proj m f n layer n s_wo m.n_embd m.d_in true l.iq4_wo ∷ []
