-- ===== src/Device/Steps.antt =====
-- Laws of consecutive steps.
use qwen_kernel.Prelude.{◌+◌, ◌<◌, ◌≡◌, ◌∙◌, ◌∷◌, ◌++◌, ℕ, refl, List, [], arith, length}
use qwen_kernel.Device.{Device, Live, feed, feeds, feeds_ids}

module _ {Rec Row : Type 0} (d : Device Rec Row) where
  -- Feeding a list is feeding its first part, and then the rest from where that ended.
  pub feeds-append :
      (lv : Live Rec Row) (ts us : List ℕ) (p : ℕ)
      → feeds d lv (ts ++ us) p ≡ feeds d (feeds d lv ts p) us (p + length ts)
  unfolding feeds
  feeds-append lv [] us p = let e : p + 0 ≡ p = omega arith in rw e
  feeds-append lv (t ∷ ts) us p =
      let e : p + length (t ∷ ts) ≡ p + 1 + length ts = omega arith in
      rw e (feeds-append (feed d lv t p) ts us (p + 1))

  pub length-feeds_ids :
      (lv : Live Rec Row) (ts : List ℕ) (p : ℕ) → length (feeds_ids d lv ts p) ≡ length ts
  unfolding feeds_ids
  length-feeds_ids lv [] p = refl
  length-feeds_ids lv (t ∷ ts) p = omega (arith, length-feeds_ids (feed d lv t p) ts (p + 1))

  -- The pass writes no row below the position where it starts.
  pub feeds_kv_below :
      (lv : Live Rec Row) (ts : List ℕ) (p i : ℕ) → i < p → (feeds d lv ts p).kv i ≡ lv.kv i
  unfolding feeds feed
  feeds_kv_below lv [] p i h = refl
  feeds_kv_below lv (t ∷ ts) p i h =
      feeds_kv_below (feed d lv t p) ts (p + 1) i (omega arith) ∙ ground arith
