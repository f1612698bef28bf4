-- ===== src/Open/Layout.antt =====
-- qk_engine::open: where the stripes of the layers stand in a snapshot.
use qwen_kernel.Prelude.{
  ◌+◌, ◌≤◌, ◌<◌, ◌≡◌, ◌&&◌, ◌∷◌, if◌then◌else◌, ℕ, zero, suc, Option, none, some, List, [], arith,
  leb, length, get_or,
}

-- snapOff1 and snapOff2 of each layer, from the strides ps1 and ps2, and snapSize.
unfoldable pub snap_offsets : List (ℕ × ℕ) → ℕ → List (ℕ × ℕ) × ℕ
snap_offsets [] off = ([], off)
snap_offsets (p ∷ ps) off =
    let rest = snap_offsets ps (off + p.0 + p.1) in ((off, off + p.0) ∷ rest.0, rest.1)

-- QK_PCACHE as strtol reads it, none when unset.
unfoldable pub cache_entries : Option ℕ → ℕ
cache_entries none = 3
cache_entries (some v) = if leb 1 v && leb v 256 then v else 3

snap_offsets-within :
    (ps : List (ℕ × ℕ)) (off j : ℕ)
    → j < length ps
    → (off ≤ (get_or (snap_offsets ps off).0 j (0, 0)).0)
      × ((get_or (snap_offsets ps off).0 j (0, 0)).0 + (get_or ps j (0, 0)).0
          ≡ (get_or (snap_offsets ps off).0 j (0, 0)).1)
      × ((get_or (snap_offsets ps off).0 j (0, 0)).1 + (get_or ps j (0, 0)).1
          ≤ (snap_offsets ps off).1)
unfolding snap_offsets
snap_offsets-within [] off j h = absurd (omega arith)
snap_offsets-within (p ∷ ps) off zero h =
    (omega arith, omega arith, snap_offsets-grows ps (off + p.0 + p.1))
  where
    snap_offsets-grows : (ps : List (ℕ × ℕ)) (off : ℕ) → off ≤ (snap_offsets ps off).1
    snap_offsets-grows [] off = omega arith
    snap_offsets-grows (p ∷ ps) off = omega (arith, snap_offsets-grows ps (off + p.0 + p.1))
snap_offsets-within (p ∷ ps) off (suc j) h =
    let r = snap_offsets-within ps (off + p.0 + p.1) j (omega arith) in
    (omega (arith, r.0), r.1, r.2)

-- In a snapshot a layer's second stripe starts where its first ends, an earlier layer's stripes
-- end before a later layer's start, and a later layer's stripes end within the snapshot's size.
pub snap_offsets-apart :
    (ps : List (ℕ × ℕ)) (off i j : ℕ)
    → i < j
    → j < length ps
    → ((get_or (snap_offsets ps off).0 i (0, 0)).0 + (get_or ps i (0, 0)).0
        ≡ (get_or (snap_offsets ps off).0 i (0, 0)).1)
      × ((get_or (snap_offsets ps off).0 i (0, 0)).1 + (get_or ps i (0, 0)).1
          ≤ (get_or (snap_offsets ps off).0 j (0, 0)).0)
      × ((get_or (snap_offsets ps off).0 j (0, 0)).1 + (get_or ps j (0, 0)).1
          ≤ (snap_offsets ps off).1)
unfolding snap_offsets
snap_offsets-apart [] off i j h w = absurd (omega arith)
snap_offsets-apart (p ∷ ps) off i zero h w = absurd (omega arith)
snap_offsets-apart (p ∷ ps) off zero (suc j) h w =
    let r = snap_offsets-within ps (off + p.0 + p.1) j (omega arith) in
    (omega arith, omega (arith, r.0), r.2)
snap_offsets-apart (p ∷ ps) off (suc i) (suc j) h w =
    snap_offsets-apart ps (off + p.0 + p.1) i j (omega arith) (omega arith)
