-- ===== src/Greedy/Agree.antt =====
-- A slot that agrees with a greedy run keeps agreeing when both take the same step.
use qwen_kernel.Prelude.{◌+◌, ◌≡◌, ℕ}
use qwen_kernel.Device.{Device, IsFaithful, Live, feed, sampled}
use qwen_kernel.Device.Agree.{Agree, feed-Agree, sampled-Agree}
use qwen_kernel.Greedy.{Trace, advance}

module _ {Rec Row : Type 0} (d : Device Rec Row) (f : IsFaithful d) where
  pub advance-Agree :
      (lv : Live Rec Row) (tr : Trace Rec Row) (t p : ℕ)
      → t ≡ tr.next
      → p ≡ tr.at
      → Agree p lv tr.live
      → Agree (p + 1) (feed d lv t p) (advance d tr).live × (sampled d lv t p ≡ (advance d tr).next)
  unfolding advance
  advance-Agree lv tr t p e q h =
      (rw (← e, ← q) (feed-Agree d f t p h), rw (← e, ← q) (sampled-Agree d f t p h))
