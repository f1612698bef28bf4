-- ===== src/PrefixCache.antt =====
-- The prefix cache of src/main.cpp: `CacheEntry`, snapshotSlot, matchPrefix and restoreInto. A
-- snapshot holds the slot's stripes; copyStripes with nTok = 0 copies them whole.
pub mod Coherent
pub mod Match
pub mod Victim
use qwen_kernel.Prelude.{
  ◌+◌, ◌-◌, ◌%◌, ◌&&◌, ◌||◌, ◌∷◌, ◌++◌, ◌==◌, if◌then◌else◌, ℕ, min, Bool, true, false, not, Option,
  none, some, List, [], ltb, length, get_elem?, set, take,
}
use qwen_kernel.Device.{Live}
use qwen_kernel.Slot.{Params, Slot}

pub record Entry (Rec Row : Type 0) : Type 0 where
  pub tokens : List ℕ
  pub snap : Live Rec Row
  pub lru : ℕ
  pub valid : Bool

pub record PrefixCache (Rec Row : Type 0) : Type 0 where
  pub entries : List (Entry Rec Row)
  pub clock : ℕ

-- ++lruClock, a uint64_t.
abbrev pub tick : ℕ → ℕ
tick clock = (clock + 1) % 18446744073709551616

-- The loop over prompt[0, L): every token of the entry matches.
unfoldable pub matches : List ℕ → List ℕ → Bool
matches [] prompt = true
matches (t ∷ ts) [] = false
matches (t ∷ ts) (p ∷ ps) = t == p && matches ts ps

-- The tokens that a slot's state stands for: `pos` tokens of prompt and generated tokens.
unfoldable pub snapshot_key : Slot → List ℕ
snapshot_key s =
    let fed_gen =
      min (if ltb (length s.prompt) s.pos then s.pos - length s.prompt else 0)
        (length s.gen_tokens) in
    take (min s.pos (length s.prompt)) s.prompt ++ take fed_gen s.gen_tokens

module _ {Rec Row : Type 0} where
  -- The scan of snapshotSlot for a victim, from entry `i` on; `best` is pcache[idx].lru.
  unfoldable pub pick_from : List (Entry Rec Row) → ℕ → ℕ → ℕ → ℕ
  pick_from [] i idx best = idx
  pick_from (e ∷ es) i idx best =
      let older = ltb e.lru best in
      let rest = pick_from es (i + 1) (if older then i else idx) (if older then e.lru else best) in
      if not e.valid then i else rest

  unfoldable pub pick : List (Entry Rec Row) → ℕ
  unfolding pick_from
  pick [] = 0
  pick (e ∷ es) = pick_from (e ∷ es) 0 0 e.lru

  unfoldable pub snapshot_slot :
      Params → PrefixCache Rec Row → Slot → Live Rec Row → PrefixCache Rec Row
  snapshot_slot c k s live =
      if (length k.entries == 0) || ltb s.pos 8 || ltb c.n_ctx s.pos then k else record {
        entries =
            set k.entries (pick k.entries)
              (record { tokens = snapshot_key s; snap = live; lru = tick k.clock; valid = true });
        clock = tick k.clock;
      }

  -- The test of matchPrefix on one entry: valid, shorter than the prompt, longer than the best.
  abbrev pub improves : Entry Rec Row → List ℕ → ℕ → ℕ → Bool
  improves e prompt n best_len =
      e.valid
      && ltb (length e.tokens) n
      && ltb best_len (length e.tokens)
      && matches e.tokens prompt

  unfoldable pub match_from : List (Entry Rec Row) → List ℕ → ℕ → ℕ → Option ℕ → ℕ → Option ℕ
  match_from [] prompt n i best best_len = best
  match_from (e ∷ es) prompt n i best best_len =
      let hit = improves e prompt n best_len in
      match_from es prompt n (i + 1) (if hit then some i else best)
        (if hit then length e.tokens else best_len)

  -- Longest cached sequence that is a strict prefix of the prompt; -1 is `none`.
  unfoldable pub match_prefix : PrefixCache Rec Row → List ℕ → ℕ → Option ℕ
  match_prefix k prompt n = match_from k.entries prompt n 0 none 8

  -- restoreInto: the entry's stamp is renewed, and its snapshot is the slot's new state.
  unfoldable pub restore_into :
      PrefixCache Rec Row → ℕ → Live Rec Row → PrefixCache Rec Row × Live Rec Row
  restore_into k idx live = elim (get_elem? k.entries idx) [
    | none ↦ (k, live)
    | some e ↦ (
      record {
        entries = set k.entries idx (record e { lru = tick k.clock });
        clock = tick k.clock;
      },
      e.snap,
    )
  ]

  -- pcache[idx].tokens.size().
  unfoldable pub entry_size : PrefixCache Rec Row → ℕ → ℕ
  entry_size k i = elim (get_elem? k.entries i) [ none ↦ 0 | some e ↦ length e.tokens ]
