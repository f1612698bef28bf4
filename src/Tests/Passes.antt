-- ===== src/Tests/Passes.antt =====
-- The theorems on recorded passes, blocks and start-up at concrete inputs.
use qwen_kernel.Prelude.{
  ◌+◌, ◌*◌, ◌/◌, ◌%◌, ◌≤◌, ◌≡◌, ◌∷◌, ◌++◌, ℕ, zero, suc, max, refl, inl, true, false, some, List,
  [], arith, get_or, All,
}
use qwen_kernel.Batch.{Flags, LayerKind, Model, p_head, s_head, s_p1}
use qwen_kernel.Batch.Attention.{attn_kernel, query_block, tile_commands}
use qwen_kernel.Batch.Groups.{GemmCovers, Spread, disp-Spread, gemm_proj-GemmCovers}
use qwen_kernel.Batch.Hazards.{ordered}
use qwen_kernel.Batch.OrderedPass.{pass_commands-ordered}
use qwen_kernel.Batch.Pass.{pass_commands}
use qwen_kernel.Batch.Project.{disp, gemm_kernel, gemm_proj}
use qwen_kernel.Batch.Tiles.{queries_of, tile_commands-bound, tile_commands-once, tiles_of}
use qwen_kernel.Gguf.Directory.{Directory, Tensor, kv_int_or, kv_str_or}
use qwen_kernel.Open.{
  Shape, blk, digits, embd_name, gate_exps, gate_inp, head_name, norm_name, open_shape,
}
use qwen_kernel.Open.Layout.{snap_offsets, snap_offsets-apart}
use qwen_kernel.Open.Shapes.{IsFit, open_shape-IsFit}
use qwen_kernel.Open.Switches.{Built, is_built, read_switches, read_switches-is_built}
use qwen_kernel.Quants.{f16_to_f32, f32_to_f16}
use qwen_kernel.Quants.Blocks.{BlockQ6, Floats, dequant_q6}
use qwen_kernel.Quants.Halves.{f32_to_f16-f16_to_f32}
use qwen_kernel.Quants.Rows.{dequant_q6-at, q6_row_at}
use qwen_kernel.Stub.{Config, range}

abbrev model : Model
model = record {
  n_layer = 4;
  n_embd = 256;
  ch_qkv = 512;
  d_in = 256;
  d_s = 128;
  h_k = 1;
  h_v = 2;
  h_q = 2;
  h_kv = 1;
  dh = 256;
  n_rot = 64;
  ff_e = 512;
  n_exp = 64;
  n_used = 8;
  n_vocab = 1000;
  ctx = 4096;
  k_div = 2;
  grid_limit = 65535;
}

abbrev flags : Flags
flags = record {
  prefill_coopmat = true;
  prefill_coopmat_first = 0;
  prefill_coopmat_split = true;
  prefill_coopmat_split_first = 0;
  gemm_coop_v1 = false;
  gemm_coop_b64 = true;
  has_coop2_b64 = true;
  dn_step_gate = true;
  dn_step_cols = true;
  dn_step_cols_first = 0;
  dn_step_cols_lanes = 8;
  use_split_k = true;
  attn_gqa_auto = true;
  attn_gqa_threshold = 1024;
  attn_gqa_group = 2;
  attn_live_dispatch = true;
  attn_split_max = 16;
  attn_chunk = 256;
  attn_coopmat = true;
  attn_coopmat_first = 0;
  attn_coop_br32 = true;
  attn_budget = 12000;
  route_fused = true;
  select_hier = true;
  select256 = true;
  logits_gemm = true;
  logits_gemm_first = 0;
  shared_coopmat_gu = true;
  shared_coopmat_down = true;
  shared_coopmat_first = 0;
  shared_coopmat_down_first = 0;
  shared_gu64 = true;
  shared_down32 = true;
  group_gu = true;
  group_down = true;
  group_rows = 2;
  group_down_rows = 2;
  moe_coopmat = true;
  moe_coopmat_first = 0;
  gu_iq4 = false;
  down128 = false;
  flush_every = 1;
}

abbrev layer_a : LayerKind
layer_a = record {
  recurrent = true;
  iq4_p1 = false;
  iq4_p2 = false;
  iq4_p3 = false;
  iq4_wo = false;
  down_q6 = false;
}

abbrev layer_b : LayerKind
layer_b = record layer_a { recurrent = false; down_q6 = true }

tile_commands-once_example :
    tiles_of (query_block model flags 192 64 0) 150 (tile_commands model flags 192 64 0 192 0) ≡ 1
tile_commands-once_example = tile_commands-once model flags 192 64 0 150 (omega arith) (omega arith)

tile_commands-bound_example :
    All
      (λ c.
        queries_of (query_block model flags 192 64 0) c
        ≤ max (query_block model flags 192 64 0) (flags.attn_budget / (64 + 192)))
      (tile_commands model flags 192 64 0 192 0)
tile_commands-bound_example = tile_commands-bound model flags 192 64 0 (omega arith)

gemm_proj-GemmCovers_example : GemmCovers 512 192 (gemm_proj model flags 192 0 s_p1 512 256 false)
gemm_proj-GemmCovers_example =
    gemm_proj-GemmCovers model flags 192 0 s_p1 512 256 false (omega arith) (omega arith)

disp-Spread_example : Spread 65535 100000 (disp model 1 p_head s_head 100000 [])
disp-Spread_example =
    disp-Spread model 1 p_head s_head 100000 [] (omega arith) (omega arith) (omega arith)

pass_commands-ordered_example :
    ordered [] []
      (pass_commands model flags 192 64 1 0 (layer_a ∷ layer_b ∷ []) false true true true)
    ≡ true
pass_commands-ordered_example =
    pass_commands-ordered model flags 192 64 1 0 (layer_a ∷ layer_b ∷ []) false true true true

f32_to_f16-f16_to_f32_example : f32_to_f16 (f16_to_f32 15361) ≡ 15361
f32_to_f16-f16_to_f32_example =
    f32_to_f16-f16_to_f32 15361 (omega arith) (inl (omega arith, omega arith))

abbrev nat_floats : Floats ℕ
nat_floats = record {
  of_bits = λ x. x;
  of_uint = λ x. x;
  of_i8 = λ x. x;
  of_i32 = λ x. x;
  mul = λ x y. x * y;
  add = λ x y. x + y;
  half = 1;
  one_f = 1;
  minus_one = 0;
}

abbrev fill : ℕ → List ℕ
fill zero = []
fill (suc n) = n % 200 ∷ fill n

abbrev block : BlockQ6
block = record { ql = fill 128; qh = fill 64; scales = fill 16; d = 15360 }

dequant_q6-at_example :
    get_or (dequant_q6 nat_floats (block ∷ []) 0 (fill 256)) (0 + 200) 0
    ≡ q6_row_at nat_floats (block ∷ []) 200 0
dequant_q6-at_example =
    dequant_q6-at nat_floats 0 (block ∷ []) 0 200 (fill 256) (omega arith) (omega arith)

abbrev some_built : Built
some_built = record {
  attn_b_coop = true;
  attn_b_coop2 = false;
  gemm_b_coop = true;
  gemm_b_coop2_b64 = false;
  gemm_b_coop_split = false;
  moe_gu_group_coop = true;
  moe_gus_coop = true;
}

read_switches-is_built_example :
    (is_built some_built (
        gemm_kernel model (read_switches (λ v. some 0) some_built 4 4096 flags) 192 0 512 256 false)
      ≡ true)
    × (is_built some_built
          (attn_kernel model (read_switches (λ v. some 0) some_built 4 4096 flags) 192 64 0)
        ≡ true)
read_switches-is_built_example =
    read_switches-is_built (λ v. some 0) some_built 4 4096 model flags 192 64 0 512 256 false

abbrev strides : List (ℕ × ℕ)
strides = (12, 40) ∷ (8, 8) ∷ (12, 40) ∷ []

snap_offsets-apart_example :
    ((get_or (snap_offsets strides 0).0 0 (0, 0)).0 + (get_or strides 0 (0, 0)).0
      ≡ (get_or (snap_offsets strides 0).0 0 (0, 0)).1)
    × ((get_or (snap_offsets strides 0).0 0 (0, 0)).1 + (get_or strides 0 (0, 0)).1
        ≤ (get_or (snap_offsets strides 0).0 2 (0, 0)).0)
    × ((get_or (snap_offsets strides 0).0 2 (0, 0)).1 + (get_or strides 2 (0, 0)).1
        ≤ (snap_offsets strides 0).1)
snap_offsets-apart_example = snap_offsets-apart strides 0 0 2 (omega arith) (omega arith)

abbrev tensor : ℕ → ℕ → Tensor
tensor t n = record { type = t; ne = 2048 ∷ n ∷ []; offset = 0 }

abbrev gguf : Directory
gguf = record {
  keys = record { kv_int = []; kv_str = []; alignment = 32; split_count = 0; split_total = 0 };
  tensors =
      (embd_name, tensor 14 1000)
      ∷ (norm_name, tensor 0 1)
      ∷ (head_name, tensor 14 1000)
      ∷ (blk ++ digits 10 20 ++ gate_inp, tensor 0 256)
      ∷ (blk ++ digits 10 20 ++ gate_exps, tensor 18 512)
      ∷ [];
}

abbrev small_cfg : Config
small_cfg = record { n_slots = 2; n_ctx = 64; chunk = 4 }

abbrev gguf_shape : Shape
gguf_shape = record {
  n_slots = 2;
  n_ctx = 64;
  chunk = 4;
  n_layer = 40;
  n_used = 8;
  k_div = 0;
  eos_tok = 248046;
  bos_tok = 248044;
  l_first = 20;
  l_end = 40;
  emb_q8 = false;
  vocab = 1000;
  n_exp = 256;
  ff_e = 512;
}

open_shape-IsFit_example : IsFit gguf_shape
unfolding open_shape kv_int_or kv_str_or
open_shape-IsFit_example = open_shape-IsFit small_cfg (range 20 40) (some gguf) gguf_shape refl
