-- ===== src/Toy.antt =====
-- A concrete device and engine for the tests and witnesses: sums modulo small numbers in place of
-- the kernels, and a token that depends on the state, the position and one K/V row.
use qwen_kernel.Prelude.{◌+◌, ◌*◌, ◌%◌, ◌≡◌, ◌∷◌, ℕ, refl, ap, true, false, none, List, [], arith}
use qwen_kernel.Chunk.{Engine}
use qwen_kernel.Device.{Device, IsFaithful, Live, feed, feeds, feeds_ids, reset_live, sampled}
use qwen_kernel.PrefixCache.{Entry}
use qwen_kernel.Serving.Calls.{EngineOk}
use qwen_kernel.Serving.Lanes.{unused}
use qwen_kernel.Serving.Loop.{IsWhole}
use qwen_kernel.Slot.{Lane, Params, Slot}

abbrev pub toy : Device ℕ ℕ
toy = record {
  zero_rec = 1;
  zero_row = 0;
  rec_of = λ r k t p. (r + t * 3) % 7;
  row_of = λ r k t p. t + r;
  argmax_of = λ r k t p. (r * 3 + t) % 5;
  batch = λ lv ts p. feeds toy_steps lv ts p;
  batch_ids = λ lv ts p. feeds_ids toy_steps lv ts p;
}
  where
    toy_steps : Device ℕ ℕ
    toy_steps = record {
      zero_rec = 1;
      zero_row = 0;
      rec_of = λ r k t p. (r + t * 3) % 7;
      row_of = λ r k t p. t + r;
      argmax_of = λ r k t p. (r * 3 + t) % 5;
      batch = λ lv ts p. lv;
      batch_ids = λ lv ts p. [];
    }

abbrev pub params : Params
params = record {
  n_slots = 2;
  n_ctx = 64;
  chunk = 4;
  vocab = 50;
  eos = 40;
  max_b = 16;
  n_layer = 4;
  l_first = 0;
  l_end = 4;
  share_fork = true;
  spec_on = true;
  spec_l = 2;
  spec_k = 5;
  no_batch = false;
}

abbrev pub free_slot : Slot
free_slot = record {
  active = false;
  prompt = [];
  gen_tokens = [];
  cursor = 0;
  pos = 0;
  gen = 0;
  max_gen = 0;
  last = 0;
  out_q = [];
  out_q_head = 0;
  fin_pending = false;
  ngram = λ _. none;
  ngram_built = 0;
  spec_rounds = 0;
  spec_fed = 0;
  spec_emitted = 0;
  serial_steps = 0;
}

abbrev pub free_lane : Lane ℕ ℕ
free_lane = record { slot = free_slot; live = reset_live toy; samp = 0; out = []; fin = false }

abbrev pub empty_entry : Entry ℕ ℕ
empty_entry = record { tokens = []; snap = reset_live toy; lru = 0; valid = false }

abbrev pub engine : Engine ℕ ℕ
engine = record {
  lanes = free_lane ∷ free_lane ∷ [];
  cache = record { entries = empty_entry ∷ empty_entry ∷ empty_entry ∷ []; clock = 0 };
}

-- The toy kernels keep what the engine relies on.
toy-feeds : (lv : Live ℕ ℕ) (ts : List ℕ) (p : ℕ) → toy.batch lv ts p ≡ feeds toy lv ts p
unfolding feeds feed
toy-feeds lv [] p = refl
toy-feeds lv (t ∷ ts) p = toy-feeds (feed toy lv t p) ts (p + 1)

toy-feeds_ids :
    (lv : Live ℕ ℕ) (ts : List ℕ) (p : ℕ) → toy.batch_ids lv ts p ≡ feeds_ids toy lv ts p
unfolding feeds_ids feed sampled
toy-feeds_ids lv [] p = refl
toy-feeds_ids lv (t ∷ ts) p =
    ap (◌∷◌ (sampled toy lv t p)) (toy-feeds_ids (feed toy lv t p) ts (p + 1))

pub toy-IsFaithful : IsFaithful toy
toy-IsFaithful = record {
  rec_causal = λ r k k' t p h. refl;
  row_causal = λ r k k' t p h. refl;
  argmax_causal = λ r k k' t p h. refl;
  batch_serial = toy-feeds;
  ids_serial = toy-feeds_ids;
}

pub params-IsWhole : IsWhole params
params-IsWhole = record {
  first = refl;
  last = refl;
  some_batch = omega arith;
  small_draft = omega arith;
}

pub engine-EngineOk : EngineOk params toy engine
engine-EngineOk = record {
  all_slots = refl;
  lanes_ok = (unused refl, (unused refl, tt));
  coherent = ((λ h. cc), ((λ h. cc), ((λ h. cc), tt)));
}
