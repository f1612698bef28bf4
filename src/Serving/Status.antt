-- ===== src/Serving/Status.antt =====
-- The states of a slot, against greedy decoding of its prompt.
use qwen_kernel.Prelude.{◌+◌, ◌≤◌, ◌<◌, ◌≡◌, ◌⊎◌, ℕ, suc, true, false, [], length, take}
use qwen_kernel.Device.{Device, Live, feeds, reset_live}
use qwen_kernel.Device.Agree.{Agree}
use qwen_kernel.Greedy.{after, begin, greedy}
use qwen_kernel.Slot.{Params, Slot, idle}
use qwen_kernel.Speculate.Accept.{NoEos}

-- The prompt of a running request fits the context.
pub record HasPrompt (c : Params) (s : Slot) : Type 0 where
  pub some_prompt : 1 ≤ length s.prompt
  pub fits : length s.prompt ≤ c.n_ctx

module _ {Rec Row : Type 0} (c : Params) (d : Device Rec Row) where
  -- The slot has fed the prompt and n generated tokens.
  pub record HasRun (s : Slot) (lv : Live Rec Row) (n : ℕ) : Type 0 where
    pub read_all : s.cursor ≡ length s.prompt
    pub position : s.pos ≡ length s.prompt + n
    pub state : Agree s.pos lv (after d (begin d s.prompt) (suc n)).live

  -- The slot has generated the first g greedy tokens, none of them the end of the sequence.
  pub record HasTokens (s : Slot) (g : ℕ) : Type 0 where
    pub tokens : s.gen_tokens ≡ greedy d (begin d s.prompt) g
    pub count : s.gen ≡ g
    pub no_eos : NoEos c.eos s.gen_tokens

  -- Part of the prompt is still to be read.
  pub record Reading (s : Slot) (lv : Live Rec Row) : Type 0 where
    pub active : s.active ≡ true
    pub running : s.fin_pending ≡ false
    pub prompt_ok : HasPrompt c s
    pub unread : s.cursor < length s.prompt
    pub no_tokens : s.gen_tokens ≡ []
    pub no_count : s.gen ≡ 0
    pub no_queue : s.out_q ≡ []
    pub no_head : s.out_q_head ≡ 0
    pub state : Agree s.cursor lv (feeds d (reset_live d) (take s.cursor s.prompt) 0)

  -- n tokens are fed back, the next one is sampled and waits in `last`.
  pub record Decoding (s : Slot) (lv : Live Rec Row) (n : ℕ) : Type 0 where
    pub active : s.active ≡ true
    pub running : s.fin_pending ≡ false
    pub prompt_ok : HasPrompt c s
    pub run : HasRun s lv n
    pub generated : HasTokens s (suc n)
    pub sampled : s.last ≡ (after d (begin d s.prompt) (suc n)).next
    pub room : s.pos < c.n_ctx
    pub wanted : suc n < s.max_gen

  -- The request is over with g tokens: the limit is reached, the context is full, or greedy
  -- decoding samples the end of the sequence next.
  pub record Ended (s : Slot) (g : ℕ) : Type 0 where
    pub stopped : idle s ≡ true
    pub prompt_ok : HasPrompt c s
    pub generated : HasTokens s g
    pub within : (g ≤ s.max_gen) ⊎ (g ≡ 1)
    pub reason :
        (s.max_gen ≤ g)
        ⊎ (c.n_ctx < length s.prompt + g)
        ⊎ ((after d (begin d s.prompt) (suc g)).next ≡ c.eos)

  pub data Status (s : Slot) (lv : Live Rec Row) : Type 0 where
    reading : Reading s lv → Status s lv
    decoding : (n : ℕ) → Decoding s lv n → Status s lv
    ended : (g : ℕ) → Ended s g → Status s lv
