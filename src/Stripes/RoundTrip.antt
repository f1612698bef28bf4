-- ===== src/Stripes/RoundTrip.antt =====
-- Saving a slot's stripe and loading it with the same token count.
use qwen_kernel.Prelude.{
  ◌+◌, ◌-◌, ◌*◌, ◌≤◌, ◌<◌, ◌≡◌, ◌∙◌, ◌⊎◌, ◌&&◌, ◌∷◌, if◌then◌else◌, ℕ, refl, ap, inl, inr, true,
  false, List, [], arith, ltb, leb, Bool-cases,
}
use qwen_kernel.Stripes.{
  Copy, Stripe, copy_region, copy_regions, head_bytes, live_bytes, load_regions, load_stripe,
  partial_copy, save_regions, save_stripe,
}

copy_region-inside :
    (r : Copy) (from into : ℕ → ℕ) (i : ℕ)
    → r.dst ≤ i
    → i < r.dst + r.len
    → copy_region r from into i ≡ from (r.src + (i - r.dst))
unfolding copy_region
copy_region-inside r from into i a b =
    let e : (leb r.dst i && ltb i (r.dst + r.len)) ≡ true = ground arith in rw e

copy_region-outside :
    (r : Copy) (from into : ℕ → ℕ) (i : ℕ)
    → (i < r.dst) ⊎ (r.dst + r.len ≤ i)
    → copy_region r from into i ≡ into i
unfolding copy_region
copy_region-outside r from into i h =
    let e : (leb r.dst i && ltb i (r.dst + r.len)) ≡ false = ground arith in rw e

-- The bytes of a stripe that a copy with nTok tokens keeps.
abbrev pub Kept : ℕ → Stripe → ℕ → ℕ → Type 0
Kept n_ctx s n_tok j =
    if partial_copy n_ctx s n_tok
    then (j < live_bytes n_tok) ⊎ ((head_bytes s ≤ j) × (j < head_bytes s + live_bytes n_tok))
    else j < s.size

-- Two disjoint regions of the same length, copied out and back.
two_regions :
    (b o g len j : ℕ) (st snap st' : ℕ → ℕ)
    → len ≤ g
    → (j < len) ⊎ ((g ≤ j) × (j < g + len))
    → copy_regions
        (record { src = o; dst = b; len = len }
          ∷ record { src = o + g; dst = b + g; len = len }
          ∷ [])
        (copy_regions
          (record { src = b; dst = o; len = len }
            ∷ record { src = b + g; dst = o + g; len = len }
            ∷ [])
          st
          snap)
        st'
        (b + j)
      ≡ st (b + j)
unfolding copy_regions
two_regions b o g len j st snap st' l (inl h) =
    let s0 : Copy = record { src = b; dst = o; len = len } in
    let s1 : Copy = record { src = b + g; dst = o + g; len = len } in
    let r0 : Copy = record { src = o; dst = b; len = len } in
    let r1 : Copy = record { src = o + g; dst = b + g; len = len } in
    let snap1 = copy_region s0 st snap in
    let snap2 = copy_region s1 st snap1 in
    copy_region-outside r1 snap2 (copy_region r0 snap2 st') (b + j) (inl (omega arith))
    ∙ copy_region-inside r0 snap2 st' (b + j) (omega arith) (omega arith)
    ∙ ap snap2 (omega arith)
    ∙ copy_region-outside s1 st snap1 (o + j) (inl (omega arith))
    ∙ copy_region-inside s0 st snap (o + j) (omega arith) (omega arith)
    ∙ ap st (omega arith)
two_regions b o g len j st snap st' l (inr (h, k)) =
    let s0 : Copy = record { src = b; dst = o; len = len } in
    let s1 : Copy = record { src = b + g; dst = o + g; len = len } in
    let r0 : Copy = record { src = o; dst = b; len = len } in
    let r1 : Copy = record { src = o + g; dst = b + g; len = len } in
    let snap1 = copy_region s0 st snap in
    let snap2 = copy_region s1 st snap1 in
    copy_region-inside r1 snap2 (copy_region r0 snap2 st') (b + j) (omega arith) (omega arith)
    ∙ ap snap2 (omega arith)
    ∙ copy_region-inside s1 st snap1 (o + j) (omega arith) (omega arith)
    ∙ ap st (omega arith)

one_region :
    (b o len j : ℕ) (st snap st' : ℕ → ℕ)
    → j < len
    → copy_regions
        (record { src = o; dst = b; len = len } ∷ [])
        (copy_regions (record { src = b; dst = o; len = len } ∷ []) st snap)
        st'
        (b + j)
      ≡ st (b + j)
unfolding copy_regions
one_region b o len j st snap st' h =
    let s0 : Copy = record { src = b; dst = o; len = len } in
    let r0 : Copy = record { src = o; dst = b; len = len } in
    let snap1 = copy_region s0 st snap in
    copy_region-inside r0 snap1 st' (b + j) (omega arith) (omega arith)
    ∙ ap snap1 (omega arith)
    ∙ copy_region-inside s0 st snap (o + j) (omega arith) (omega arith)
    ∙ ap st (omega arith)

-- When the live rows fit a head's half of the stripe, saving a slot's stripe and loading it with
-- the same token count gives back, whatever the stripe then held, each byte that is copied: of a
-- partial copy the first rows of both heads, else the whole stripe.
pub load_stripe-save_stripe :
    (n_ctx : ℕ) (s : Stripe) (slot n_tok j : ℕ) (st snap st' : ℕ → ℕ)
    → live_bytes n_tok ≤ head_bytes s
    → Kept n_ctx s n_tok j
    → load_stripe n_ctx s slot n_tok
        (save_stripe n_ctx s slot n_tok st snap)
        st'
        (slot * s.size + j)
      ≡ st (slot * s.size + j)
unfolding load_stripe save_stripe load_regions save_regions
load_stripe-save_stripe n_ctx s slot n_tok j st snap st' l k =
    elim (Bool-cases (partial_copy n_ctx s n_tok)) [
      | inl part ↦ rw part (
          two_regions (slot * s.size) s.snap_off (head_bytes s) (live_bytes n_tok) j st snap st' l
            (rw part at k))
      | inr whole ↦
          rw whole (one_region (slot * s.size) s.snap_off s.size j st snap st' (rw whole at k))
    ]

outside_region :
    (r : Copy) (rs : List Copy) (from into : ℕ → ℕ) (i : ℕ)
    → (i < r.dst) ⊎ (r.dst + r.len ≤ i)
    → ((into' : ℕ → ℕ) → copy_regions rs from into' i ≡ into' i)
    → copy_regions (r ∷ rs) from into i ≡ into i
unfolding copy_regions
outside_region r rs from into i h rest =
    rest (copy_region r from into) ∙ copy_region-outside r from into i h

-- When the live rows fit a head's half of the stripe, loading a slot's stripe changes no byte
-- outside of that slot's stripe.
pub load_stripe_others :
    (n_ctx : ℕ) (s : Stripe) (slot n_tok i : ℕ) (snap st : ℕ → ℕ)
    → live_bytes n_tok ≤ head_bytes s
    → (i < slot * s.size) ⊎ (slot * s.size + s.size ≤ i)
    → load_stripe n_ctx s slot n_tok snap st i ≡ st i
unfolding load_stripe load_regions copy_regions
load_stripe_others n_ctx s slot n_tok i snap st l h =
    elim (Bool-cases (partial_copy n_ctx s n_tok)) [
      | inl part ↦
          let low : Copy = record {
            src = s.snap_off;
            dst = slot * s.size;
            len = live_bytes n_tok;
          } in
          let high : Copy = record {
            src = s.snap_off + head_bytes s;
            dst = slot * s.size + head_bytes s;
            len = live_bytes n_tok;
          } in
          rw part (
            outside_region low (high ∷ []) snap st i (away h)
              (λ into. outside_region high [] snap into i (away_too h) (λ x. refl)))
      | inr whole ↦ rw whole (outside_region _ [] snap st i h (λ x. refl))
    ]
  where
    away :
        (i < slot * s.size) ⊎ (slot * s.size + s.size ≤ i)
        → (i < slot * s.size) ⊎ (slot * s.size + live_bytes n_tok ≤ i)
    away (inl x) = inl x
    away (inr x) = inr (omega arith)

    away_too :
        (i < slot * s.size) ⊎ (slot * s.size + s.size ≤ i)
        → (i < slot * s.size + head_bytes s) ⊎ (slot * s.size + head_bytes s + live_bytes n_tok ≤ i)
    away_too (inl x) = inl (omega arith)
    away_too (inr x) = inr (omega arith)
