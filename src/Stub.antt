-- ===== src/Stub.antt =====
-- stub/qk_stub.c: the engine that tests link in place of the real one. Its records, qk_open, the
-- getters, the state snapshots and the generator of its ids.
pub mod Requests
pub mod Step
pub mod Stage
pub mod Stream
pub mod Calls
pub mod Chain
use qwen_kernel.Prelude.{
  ◌+◌, ◌*◌, ◌%◌, ◌||◌, ◌∷◌, if◌then◌else◌, ℕ, zero, suc, Bool, true, false, Option, none, some,
  List, [], ltb, leb,
}

-- QK_NLAYER, QK_NEMBD, QK_VOCAB, QK_EOS and QK_BOS.
abbrev pub stub_n_layer : ℕ
stub_n_layer = 40

abbrev pub stub_n_embd : ℕ
stub_n_embd = 4

abbrev pub stub_vocab : ℕ
stub_vocab = 248320

abbrev pub stub_eos : ℕ
stub_eos = 248046

abbrev pub stub_bos : ℕ
stub_bos = 248044

-- qk_config.
pub record Config : Type 0 where
  pub n_slots : ℕ
  pub n_ctx : ℕ
  pub chunk : ℕ

pub record StubSlot : Type 0 where
  pub active : Bool
  pub prefill_left : ℕ
  pub prev : ℕ
  pub gen : ℕ
  pub max_gen : ℕ
  pub eos_at_4 : Bool

-- The slots are the n_slots that the configuration asks for, of the 16 in the array.
pub record StubEngine : Type 0 where
  pub cfg : Config
  pub slots : List StubSlot
  pub l_first : ℕ
  pub l_end : ℕ
  pub last_id : ℕ
  pub last_rows : ℕ

-- calloc.
abbrev pub zero_slot : StubSlot
zero_slot = record {
  active = false;
  prefill_left = 0;
  prev = 0;
  gen = 0;
  max_gen = 0;
  eos_at_4 = false;
}

abbrev pub replicate : ℕ → StubSlot → List StubSlot
replicate zero s = []
replicate (suc n) s = s ∷ replicate n s

unfoldable pub bad_config : Config → Bool
bad_config c =
    ltb c.n_slots 1
    || ltb 16 c.n_slots
    || ltb c.n_ctx 64
    || ltb 4096 c.n_ctx
    || ltb c.chunk 1
    || ltb 32 c.chunk

-- What QK_LAYERS holds: unset, two numbers, or text that sscanf does not read as such.
pub data LayersEnv : Type 0 where
  unset : LayersEnv
  range : ℕ → ℕ → LayersEnv
  malformed : LayersEnv

-- The layers that the variable asks for.
unfoldable pub layer_range : LayersEnv → Option (ℕ × ℕ)
layer_range unset = some (0, stub_n_layer)
layer_range (range a b) = if leb b a || ltb stub_n_layer b then none else some (a, b)
layer_range malformed = none

abbrev pub stub_opened : Config → ℕ × ℕ → StubEngine
stub_opened c r = record {
  cfg = c;
  slots = replicate c.n_slots zero_slot;
  l_first = r.0;
  l_end = r.1;
  last_id = 0;
  last_rows = 0;
}

-- qk_open: the path and the memory are given.
unfoldable pub stub_open : Config → LayersEnv → Option StubEngine
unfolding bad_config layer_range
stub_open c env =
    if bad_config c
    then none
    else elim (layer_range env) [ none ↦ none | some r ↦ some (stub_opened c r) ]

-- qk_state_n, and the bounds check that qk_state_save and qk_state_load consist of.
abbrev pub stub_state_n : ℕ
stub_state_n = 3

unfoldable pub stub_state_ok : StubEngine → ℕ → ℕ → Bool
stub_state_ok e slot idx = if leb e.cfg.n_slots slot || leb stub_state_n idx then false else true

-- The greedy id that follows a token: a product that wraps at 32 bits, reduced.
unfoldable pub next_id : ℕ → ℕ
next_id t = ((t * 1103515245 + 12345) % 4294967296) % 248000
