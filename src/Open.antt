-- ===== src/Open.antt =====
-- qk_engine::open of src/main.cpp: the checks of the configuration and the model's shape (here), the
-- layout of a snapshot (Layout), and the switches of the environment (Switches).
pub mod Layout
pub mod Switches
pub mod Shapes
use qwen_kernel.Prelude.{
  ◌+◌, ◌/◌, ◌%◌, ◌⊎◌, ◌&&◌, ◌||◌, ◌∷◌, ◌++◌, ◌==◌, if◌then◌else◌, ℕ, zero, suc, inl, inr, Bool,
  false, not, Option, none, some, List, [], ltb, leb, get_or,
}
use qwen_kernel.Gguf.Directory.{Directory, Tensor, find, kv_int_or, kv_str_or, same_str}
use qwen_kernel.Stub.{Config, LayersEnv, malformed, range, unset}

-- "general.architecture"
abbrev pub arch_key : List ℕ
arch_key =
    103 ∷ 101 ∷ 110 ∷ 101 ∷ 114 ∷ 97 ∷ 108 ∷ 46 ∷ 97 ∷ 114 ∷ 99 ∷ 104 ∷ 105 ∷ 116 ∷ 101 ∷ 99 ∷ 116
    ∷ 117 ∷ 114 ∷ 101 ∷ []

-- ".block_count"
abbrev pub block_count_key : List ℕ
block_count_key = 46 ∷ 98 ∷ 108 ∷ 111 ∷ 99 ∷ 107 ∷ 95 ∷ 99 ∷ 111 ∷ 117 ∷ 110 ∷ 116 ∷ []

-- ".expert_used_count"
abbrev pub used_count_key : List ℕ
used_count_key =
    46 ∷ 101 ∷ 120 ∷ 112 ∷ 101 ∷ 114 ∷ 116 ∷ 95 ∷ 117 ∷ 115 ∷ 101 ∷ 100 ∷ 95 ∷ 99 ∷ 111 ∷ 117 ∷ 110
    ∷ 116 ∷ []

-- "qwen3next"
abbrev pub qwen3next : List ℕ
qwen3next = 113 ∷ 119 ∷ 101 ∷ 110 ∷ 51 ∷ 110 ∷ 101 ∷ 120 ∷ 116 ∷ []

-- "tokenizer.ggml.eos_token_id"
abbrev pub eos_key : List ℕ
eos_key =
    116 ∷ 111 ∷ 107 ∷ 101 ∷ 110 ∷ 105 ∷ 122 ∷ 101 ∷ 114 ∷ 46 ∷ 103 ∷ 103 ∷ 109 ∷ 108 ∷ 46 ∷ 101
    ∷ 111 ∷ 115 ∷ 95 ∷ 116 ∷ 111 ∷ 107 ∷ 101 ∷ 110 ∷ 95 ∷ 105 ∷ 100 ∷ []

-- "tokenizer.ggml.bos_token_id"
abbrev pub bos_key : List ℕ
bos_key =
    116 ∷ 111 ∷ 107 ∷ 101 ∷ 110 ∷ 105 ∷ 122 ∷ 101 ∷ 114 ∷ 46 ∷ 103 ∷ 103 ∷ 109 ∷ 108 ∷ 46 ∷ 98 ∷ 111
    ∷ 115 ∷ 95 ∷ 116 ∷ 111 ∷ 107 ∷ 101 ∷ 110 ∷ 95 ∷ 105 ∷ 100 ∷ []

-- "token_embd.weight"
abbrev pub embd_name : List ℕ
embd_name =
    116 ∷ 111 ∷ 107 ∷ 101 ∷ 110 ∷ 95 ∷ 101 ∷ 109 ∷ 98 ∷ 100 ∷ 46 ∷ 119 ∷ 101 ∷ 105 ∷ 103 ∷ 104 ∷ 116
    ∷ []

-- "output_norm.weight"
abbrev pub norm_name : List ℕ
norm_name =
    111 ∷ 117 ∷ 116 ∷ 112 ∷ 117 ∷ 116 ∷ 95 ∷ 110 ∷ 111 ∷ 114 ∷ 109 ∷ 46 ∷ 119 ∷ 101 ∷ 105 ∷ 103
    ∷ 104 ∷ 116 ∷ []

-- "output.weight"
abbrev pub head_name : List ℕ
head_name = 111 ∷ 117 ∷ 116 ∷ 112 ∷ 117 ∷ 116 ∷ 46 ∷ 119 ∷ 101 ∷ 105 ∷ 103 ∷ 104 ∷ 116 ∷ []

-- "blk."
abbrev pub blk : List ℕ
blk = 98 ∷ 108 ∷ 107 ∷ 46 ∷ []

-- ".ffn_gate_inp.weight"
abbrev pub gate_inp : List ℕ
gate_inp =
    46 ∷ 102 ∷ 102 ∷ 110 ∷ 95 ∷ 103 ∷ 97 ∷ 116 ∷ 101 ∷ 95 ∷ 105 ∷ 110 ∷ 112 ∷ 46 ∷ 119 ∷ 101 ∷ 105
    ∷ 103 ∷ 104 ∷ 116 ∷ []

-- ".ffn_gate_exps.weight"
abbrev pub gate_exps : List ℕ
gate_exps =
    46 ∷ 102 ∷ 102 ∷ 110 ∷ 95 ∷ 103 ∷ 97 ∷ 116 ∷ 101 ∷ 95 ∷ 101 ∷ 120 ∷ 112 ∷ 115 ∷ 46 ∷ 119 ∷ 101
    ∷ 105 ∷ 103 ∷ 104 ∷ 116 ∷ []

-- The decimal digits of a 32-bit number; ten are enough.
unfoldable pub digits : ℕ → ℕ → List ℕ
digits zero n = []
digits (suc k) n =
    let rest = digits k (n / 10) in (if n / 10 == 0 then [] else rest) ++ (48 + n % 10) ∷ []

-- What open() refuses, in the order of its checks.
pub data OpenError : Type 0 where
  config_refused : OpenError
  no_file : OpenError
  bad_block_count : OpenError
  bad_used_count : OpenError
  bad_layers : OpenError
  bad_tensors : OpenError
  no_router : OpenError
  bad_experts : OpenError

-- The fields that open() sets before it creates a buffer.
pub record Shape : Type 0 where
  pub n_slots : ℕ
  pub n_ctx : ℕ
  pub chunk : ℕ
  pub n_layer : ℕ
  pub n_used : ℕ
  pub k_div : ℕ
  pub eos_tok : ℕ
  pub bos_tok : ℕ
  pub l_first : ℕ
  pub l_end : ℕ
  pub emb_q8 : Bool
  pub vocab : ℕ
  pub n_exp : ℕ
  pub ff_e : ℕ

unfoldable pub open_refuses : Config → Bool
open_refuses c =
    ltb c.n_slots 1
    || ltb 16 c.n_slots
    || ltb c.n_ctx 64
    || ltb 65536 c.n_ctx
    || ltb c.chunk 1
    || ltb 32 c.chunk

abbrev pub key_u32 : Directory → List ℕ → ℕ → ℕ
key_u32 g key def = kv_int_or g key def % 4294967296

-- QK_LAYERS, or all layers.
unfoldable pub owned_layers : LayersEnv → ℕ → Option (ℕ × ℕ)
owned_layers unset n = some (0, n)
owned_layers (range a b) n = if ltb a b && leb b n then some (a, b) else none
owned_layers malformed n = none

-- ne[1] of the layer's router and of its gate tensor, and the check of the experts' shape.
unfoldable pub check_experts : Shape → Option Tensor → Option Tensor → OpenError ⊎ Shape
check_experts s none ge = inl no_router
check_experts s (some gi) none = inl no_router
check_experts s (some gi) (some ge) =
    let n_exp = get_or gi.ne 1 0 % 4294967296 in
    let ff_e = get_or ge.ne 1 0 % 4294967296 in
    if ltb n_exp s.n_used || ltb 512 n_exp || not (ff_e % 256 == 0)
    then inl bad_experts
    else inr (record s { n_exp = n_exp; ff_e = ff_e })

unfoldable pub open_experts : Directory → Shape → OpenError ⊎ Shape
unfolding digits check_experts
open_experts g s =
    check_experts s (find (blk ++ digits 10 s.l_first ++ gate_inp) g.tensors)
      (find (blk ++ digits 10 s.l_first ++ gate_exps) g.tensors)

-- The embedding, the final norm and the head.
unfoldable pub check_tensors :
    Directory → Shape → Option Tensor → Option Tensor → Option Tensor → OpenError ⊎ Shape
unfolding open_experts
check_tensors g s none tn th = inl bad_tensors
check_tensors g s (some te) none th = inl bad_tensors
check_tensors g s (some te) (some tn) none = inl bad_tensors
check_tensors g s (some te) (some tn) (some th) =
    let next =
      open_experts g (record s { emb_q8 = te.type == 8; vocab = get_or th.ne 1 0 % 4294967296 }) in
    if (not (te.type == 14) && not (te.type == 8)) || not (th.type == 14)
    then inl bad_tensors
    else next

unfoldable pub open_tensors : Directory → Shape → OpenError ⊎ Shape
unfolding check_tensors
open_tensors g s =
    check_tensors g s (find embd_name g.tensors) (find norm_name g.tensors)
      (find head_name g.tensors)

-- The shape that the keys give, for the layers owned.
unfoldable pub keyed_shape : Config → Directory → ℕ × ℕ → Shape
keyed_shape c g r =
    let arch = kv_str_or g arch_key [] in
    record {
      n_slots = c.n_slots;
      n_ctx = c.n_ctx;
      chunk = c.chunk;
      n_layer = key_u32 g (arch ++ block_count_key) 40;
      n_used = key_u32 g (arch ++ used_count_key) 8;
      k_div = if same_str arch qwen3next then 2 else 0;
      eos_tok = key_u32 g eos_key 248046;
      bos_tok = key_u32 g bos_key 248044;
      l_first = r.0;
      l_end = r.1;
      emb_q8 = false;
      vocab = 0;
      n_exp = 256;
      ff_e = 512;
    }

unfoldable pub open_owned : Config → Directory → Option (ℕ × ℕ) → OpenError ⊎ Shape
unfolding keyed_shape open_tensors
open_owned c g none = inl bad_layers
open_owned c g (some r) = open_tensors g (keyed_shape c g r)

unfoldable pub open_keys : Config → LayersEnv → Directory → OpenError ⊎ Shape
unfolding owned_layers open_owned
open_keys c env g =
    let arch = kv_str_or g arch_key [] in
    let n_layer = key_u32 g (arch ++ block_count_key) 40 in
    let n_used = key_u32 g (arch ++ used_count_key) 8 in
    let owned = open_owned c g (owned_layers env n_layer) in
    if ltb n_layer 1 || ltb 256 n_layer
    then inl bad_block_count
    else if ltb n_used 1 || ltb 16 n_used
    then inl bad_used_count
    else owned

-- open() up to its buffers; the file is none when it cannot be read.
unfoldable pub open_shape : Config → LayersEnv → Option Directory → OpenError ⊎ Shape
unfolding open_refuses open_keys
open_shape c env none = if open_refuses c then inl config_refused else inl no_file
open_shape c env (some g) =
    let rest = open_keys c env g in if open_refuses c then inl config_refused else rest
