-- ===== src/Greedy.antt =====
-- The reference for everything that the engine emits: plain greedy decoding, one token at a time,
-- from a reset slot, with no batching, no cache and no speculation.
pub mod Laws
pub mod Agree
use qwen_kernel.Prelude.{◌+◌, ◌-◌, ◌∷◌, ◌++◌, ℕ, zero, suc, List, [], length, get_or, take}
use qwen_kernel.Device.{Device, Live, feed, feeds, reset_live, sampled}

-- A state with the token that is fed next and its position.
pub record Trace (Rec Row : Type 0) : Type 0 where
  pub live : Live Rec Row
  pub next : ℕ
  pub at : ℕ

module _ {Rec Row : Type 0} (d : Device Rec Row) where
  unfoldable pub advance : Trace Rec Row → Trace Rec Row
  advance t = record {
    live = feed d t.live t.next t.at;
    next = sampled d t.live t.next t.at;
    at = t.at + 1;
  }

  unfoldable pub after : Trace Rec Row → ℕ → Trace Rec Row
  after t zero = t
  after t (suc n) = advance (after t n)

  -- The first n tokens that greedy decoding generates.
  unfoldable pub greedy : Trace Rec Row → ℕ → List ℕ
  greedy t zero = []
  greedy t (suc n) = greedy t n ++ (after t (suc n)).next ∷ []

  -- A reset slot that has read all of the prompt but its last token, which is fed next.
  unfoldable pub begin : List ℕ → Trace Rec Row
  begin prompt = record {
    live = feeds d (reset_live d) (take (length prompt - 1) prompt) 0;
    next = get_or prompt (length prompt - 1) 0;
    at = length prompt - 1;
  }
