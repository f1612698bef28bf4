-- ===== src/Device.antt =====
-- The GPU behind the engine, as the host code of src/main.cpp sees it. The kernels run on Vulkan
-- and are no C++ code: what one forward step computes is a parameter. `Rec` is one slot's
-- recurrent state (the st1/st2 stripes of the DeltaNet layers), `Row` one position's K/V rows.
pub mod Steps
pub mod Agree
use qwen_kernel.Prelude.{◌+◌, ◌<◌, ◌≡◌, ◌∷◌, ◌==◌, if◌then◌else◌, ℕ, List, []}

pub record Live (Rec Row : Type 0) : Type 0 where
  pub rec : Rec
  pub kv : ℕ → Row

-- A forward step of one token at one position, and the batched pass over consecutive positions.
pub record Device (Rec Row : Type 0) : Type 0 where
  pub zero_rec : Rec
  pub zero_row : Row
  pub rec_of : Rec → (ℕ → Row) → ℕ → ℕ → Rec
  pub row_of : Rec → (ℕ → Row) → ℕ → ℕ → Row
  pub argmax_of : Rec → (ℕ → Row) → ℕ → ℕ → ℕ
  pub batch : Live Rec Row → List ℕ → ℕ → Live Rec Row
  pub batch_ids : Live Rec Row → List ℕ → ℕ → List ℕ

-- A K/V cache with the row of one position replaced.
abbrev pub write_row : {Row : Type 0} → (ℕ → Row) → ℕ → Row → ℕ → Row
write_row kv p r i = if i == p then r else kv i

module _ {Rec Row : Type 0} where
  -- The zero fill of resetSlot (vkCmdFillBuffer on every stripe of the slot).
  abbrev pub reset_live : Device Rec Row → Live Rec Row
  reset_live d = record { rec = d.zero_rec; kv = λ _. d.zero_row }

  -- One token fed at a position: the recurrent state advances, one K/V row is written.
  unfoldable pub feed : Device Rec Row → Live Rec Row → ℕ → ℕ → Live Rec Row
  feed d lv t p = record {
    rec = d.rec_of lv.rec lv.kv t p;
    kv = write_row lv.kv p (d.row_of lv.rec lv.kv t p);
  }

  -- The greedy token that the step predicts.
  unfoldable pub sampled : Device Rec Row → Live Rec Row → ℕ → ℕ → ℕ
  sampled d lv t p = d.argmax_of lv.rec lv.kv t p

  -- Consecutive tokens fed one after the other from a position.
  unfoldable pub feeds : Device Rec Row → Live Rec Row → List ℕ → ℕ → Live Rec Row
  feeds d lv [] p = lv
  feeds d lv (t ∷ ts) p = feeds d (feed d lv t p) ts (p + 1)

  unfoldable pub feeds_ids : Device Rec Row → Live Rec Row → List ℕ → ℕ → List ℕ
  feeds_ids d lv [] p = []
  feeds_ids d lv (t ∷ ts) p = sampled d lv t p ∷ feeds_ids d (feed d lv t p) ts (p + 1)

  -- What the comments of the engine promise of the GPU: a step at `p` reads K/V below `p` only
  -- ("causal reads never pass the committed position"), and the batched pass leaves the state
  -- "exactly as n serial steps from `base` would", with the greedy ids of those steps. The laws are
  -- exact, where the comment allows about 1e-7 from 48 tokens on.
  pub record IsFaithful (d : Device Rec Row) : Type 0 where
    pub rec_causal :
        (r : Rec) (k k' : ℕ → Row) (t p : ℕ)
        → ((i : ℕ) → i < p → k i ≡ k' i)
        → d.rec_of r k t p ≡ d.rec_of r k' t p
    pub row_causal :
        (r : Rec) (k k' : ℕ → Row) (t p : ℕ)
        → ((i : ℕ) → i < p → k i ≡ k' i)
        → d.row_of r k t p ≡ d.row_of r k' t p
    pub argmax_causal :
        (r : Rec) (k k' : ℕ → Row) (t p : ℕ)
        → ((i : ℕ) → i < p → k i ≡ k' i)
        → d.argmax_of r k t p ≡ d.argmax_of r k' t p
    pub batch_serial : (lv : Live Rec Row) (ts : List ℕ) (p : ℕ) → d.batch lv ts p ≡ feeds d lv ts p
    pub ids_serial :
        (lv : Live Rec Row) (ts : List ℕ) (p : ℕ) → d.batch_ids lv ts p ≡ feeds_ids d lv ts p
