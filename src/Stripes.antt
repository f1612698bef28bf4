-- ===== src/Stripes.antt =====
-- copyStripes of src/main.cpp: which bytes of a slot's state go to a snapshot buffer and back, as
-- qk_state_save and qk_state_load ask for. A buffer is a function from addresses to bytes.
pub mod RoundTrip
use qwen_kernel.Prelude.{
  ◌+◌, ◌-◌, ◌*◌, ◌/◌, ◌&&◌, ◌∷◌, ◌==◌, if◌then◌else◌, ℕ, Bool, not, List, [], ltb, leb,
}

-- VkBufferCopy.
pub record Copy : Type 0 where
  pub src : ℕ
  pub dst : ℕ
  pub len : ℕ

-- vkCmdCopyBuffer of one region.
unfoldable pub copy_region : Copy → (ℕ → ℕ) → (ℕ → ℕ) → ℕ → ℕ
copy_region r from into i =
    if leb r.dst i && ltb i (r.dst + r.len) then from (r.src + (i - r.dst)) else into i

unfoldable pub copy_regions : List Copy → (ℕ → ℕ) → (ℕ → ℕ) → ℕ → ℕ
copy_regions [] from into = into
copy_regions (r ∷ rs) from into = copy_regions rs from (copy_region r from into)

-- One of the two stripes of a layer: rec, ps1 or ps2, snapOff1[il] or snapOff2[il].
pub record Stripe : Type 0 where
  pub recurrent : Bool
  pub size : ℕ
  pub snap_off : ℕ

-- dh * 4 bytes per token and head, hKV = 2 heads.
abbrev pub live_bytes : ℕ → ℕ
live_bytes n_tok = n_tok * 1024

abbrev pub head_bytes : Stripe → ℕ
head_bytes s = s.size / 2

-- Only the first nTok rows of each head are copied.
abbrev pub partial_copy : ℕ → Stripe → ℕ → Bool
partial_copy n_ctx s n_tok = not s.recurrent && not (n_tok == 0) && ltb n_tok n_ctx

unfoldable pub save_regions : ℕ → Stripe → ℕ → ℕ → List Copy
save_regions n_ctx s slot n_tok =
    if partial_copy n_ctx s n_tok
    then record { src = slot * s.size; dst = s.snap_off; len = live_bytes n_tok }
      ∷ record {
        src = slot * s.size + head_bytes s;
        dst = s.snap_off + head_bytes s;
        len = live_bytes n_tok;
      }
      ∷ []
    else record { src = slot * s.size; dst = s.snap_off; len = s.size } ∷ []

unfoldable pub load_regions : ℕ → Stripe → ℕ → ℕ → List Copy
load_regions n_ctx s slot n_tok =
    if partial_copy n_ctx s n_tok
    then record { src = s.snap_off; dst = slot * s.size; len = live_bytes n_tok }
      ∷ record {
        src = s.snap_off + head_bytes s;
        dst = slot * s.size + head_bytes s;
        len = live_bytes n_tok;
      }
      ∷ []
    else record { src = s.snap_off; dst = slot * s.size; len = s.size } ∷ []

-- The copies of qk_state_save (into the snapshot) and qk_state_load (into the slots' buffer).
unfoldable pub save_stripe : ℕ → Stripe → ℕ → ℕ → (ℕ → ℕ) → (ℕ → ℕ) → ℕ → ℕ
unfolding save_regions copy_regions
save_stripe n_ctx s slot n_tok st snap = copy_regions (save_regions n_ctx s slot n_tok) st snap

unfoldable pub load_stripe : ℕ → Stripe → ℕ → ℕ → (ℕ → ℕ) → (ℕ → ℕ) → ℕ → ℕ
unfolding load_regions copy_regions
load_stripe n_ctx s slot n_tok snap st = copy_regions (load_regions n_ctx s slot n_tok) snap st
