-- ===== src/PrefixCache/Coherent.antt =====
-- What the prefix cache promises: a valid entry's snapshot is the state of a reset slot that has
-- read the entry's tokens.
use qwen_kernel.Prelude.{
  ◌≡◌, ◌||◌, ◌==◌, ℕ, inl, inr, true, some, List, ltb, Bool-cases, length, get_elem?, All, All-set,
  All-get_elem?,
}
use qwen_kernel.Device.{Device, Live, feeds, reset_live}
use qwen_kernel.Device.Agree.{Agree}
use qwen_kernel.PrefixCache.{Entry, PrefixCache, pick, restore_into, snapshot_key, snapshot_slot}
use qwen_kernel.Slot.{Params, Slot}

module _ {Rec Row : Type 0} (d : Device Rec Row) where
  -- The snapshot of the tokens, as far as later steps can see.
  abbrev pub Holds : List ℕ → Live Rec Row → Type 0
  Holds ts lv = Agree (length ts) lv (feeds d (reset_live d) ts 0)

  abbrev pub IsCoherent : PrefixCache Rec Row → Type 0
  IsCoherent k = All (λ e. e.valid ≡ true → Holds e.tokens e.snap) k.entries

  -- The stripes of a slot hold the tokens that a snapshot would be keyed by, `pos` of them.
  pub record Captured (s : Slot) (lv : Live Rec Row) : Type 0 where
    pub size : length (snapshot_key s) ≡ s.pos
    pub holds : Holds (snapshot_key s) lv

  -- When the stripes of a slot hold the tokens that its snapshot is keyed by, `pos` of them,
  -- snapshotSlot keeps every valid entry of the cache the state of its tokens.
  pub snapshot_slot-IsCoherent :
      (c : Params) (k : PrefixCache Rec Row) (s : Slot) (lv : Live Rec Row)
      → IsCoherent k
      → Captured s lv
      → IsCoherent (snapshot_slot c k s lv)
  unfolding snapshot_slot
  snapshot_slot-IsCoherent c k s lv h q =
      elim (Bool-cases ((length k.entries == 0) || ltb s.pos 8 || ltb c.n_ctx s.pos)) [
        | inl skip ↦ rw (skip, snapshot_slot) h
        | inr go ↦
            rw (go, snapshot_slot)
              (All-set (λ (e : Entry Rec Row). e.valid ≡ true → Holds e.tokens e.snap) k.entries
                (pick k.entries) _ h (λ _. q.holds))
      ]

  -- Restoring a valid entry of a cache whose valid entries are the states of their tokens gives
  -- the slot the state of the entry's tokens, and the cache stays such.
  pub restore_into-Holds :
      (k : PrefixCache Rec Row) (i : ℕ) (lv : Live Rec Row) (e : Entry Rec Row)
      → IsCoherent k
      → get_elem? k.entries i ≡ some e
      → e.valid ≡ true
      → Holds e.tokens (restore_into k i lv).1 × IsCoherent (restore_into k i lv).0
  unfolding restore_into
  restore_into-Holds k i lv e h at v =
      let holds =
        All-get_elem? (λ (e : Entry Rec Row). e.valid ≡ true → Holds e.tokens e.snap) k.entries i h
          at in
      rw (at, restore_into)
        (
          holds v,
          All-set (λ (e : Entry Rec Row). e.valid ≡ true → Holds e.tokens e.snap) k.entries i _ h
              holds,
        )
