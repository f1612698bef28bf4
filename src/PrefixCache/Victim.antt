-- ===== src/PrefixCache/Victim.antt =====
-- What snapshotSlot writes, and over which entry of the cache.
use qwen_kernel.Prelude.{
  ◌+◌, ◌-◌, ◌%◌, ◌≤◌, ◌<◌, ◌≡◌, ◌∙◌, ◌⊎◌, ◌||◌, ◌∷◌, ◌++◌, ◌==◌, ℕ, suc, min, refl, sym, ap, inl,
  inr, true, false, some, List, [], append-nil, arith, ltb, Bool-cases, length, get_elem?, set,
  take, length-append, length-take_le, take_all, take-append_left, All,
}
use qwen_kernel.Device.{Device, Live, feeds, reset_live}
use qwen_kernel.Device.Agree.{Agree}
use qwen_kernel.PrefixCache.{Entry, PrefixCache, pick, pick_from, snapshot_key, snapshot_slot}
use qwen_kernel.PrefixCache.Coherent.{Captured, IsCoherent, snapshot_slot-IsCoherent}
use qwen_kernel.Slot.{Params, Slot}

zero_add : (n : ℕ) → 0 + n ≡ n
zero_add n = omega arith

module _ {Rec Row : Type 0} where
  abbrev pub AllValid : List (Entry Rec Row) → Type 0
  AllValid = All (λ x. x.valid ≡ true)

  -- The entry that is given up: the first that holds nothing, else the first of those that were
  -- used longest ago.
  pub data IsVictim (es : List (Entry Rec Row)) (v : ℕ) (e : Entry Rec Row) : Type 0 where
    first_unused : e.valid ≡ false → AllValid (take v es) → IsVictim es v e
    oldest :
        AllValid es
        → All (λ x. e.lru ≤ x.lru) es
        → All (λ x. e.lru < x.lru) (take v es)
        → IsVictim es v e

  -- The scan from entry i on: an hollow entry, or none older than the best so far, or a new best.
  data Picked (es : List (Entry Rec Row)) (i idx best r : ℕ) : Type 0 where
    unused_at :
        (v : ℕ) (e : Entry Rec Row)
        → r ≡ i + v
        → get_elem? es v ≡ some e
        → e.valid ≡ false
        → AllValid (take v es)
        → Picked es i idx best r
    kept : r ≡ idx → AllValid es → All (λ x. best ≤ x.lru) es → Picked es i idx best r
    older_at :
        (v : ℕ) (e : Entry Rec Row)
        → r ≡ i + v
        → get_elem? es v ≡ some e
        → e.lru < best
        → AllValid es
        → All (λ x. e.lru ≤ x.lru) es
        → All (λ x. e.lru < x.lru) (take v es)
        → Picked es i idx best r

  pick_from-Picked :
      (es : List (Entry Rec Row)) (i idx best : ℕ) → Picked es i idx best (pick_from es i idx best)
  unfolding pick_from
  pick_from-Picked [] i idx best = kept refl tt tt
  pick_from-Picked (e ∷ es) i idx best = elim (Bool-cases e.valid) [
    | inr hollow ↦
        let here : pick_from (e ∷ es) i idx best ≡ i + 0 = rw (hollow, pick_from) (omega arith) in
        unused_at 0 e here refl hollow tt
    | inl valid ↦ elim (Bool-cases (ltb e.lru best)) [
      | inl older ↦
          let same : pick_from (e ∷ es) i idx best ≡ pick_from es (i + 1) i e.lru =
            rw (valid, older, pick_from) refl in
          elim (pick_from-Picked es (i + 1) i e.lru) [
            | unused_at v x r at u before ↦
                unused_at (suc v) x (same ∙ r ∙ omega arith) at u (valid, before)
            | kept r all old ↦
                older_at 0 e (same ∙ r ∙ omega arith) refl (ground (arith, older)) (valid, all)
                  (omega arith, old) tt
            | older_at v x r at less all old first ↦
                older_at (suc v) x (same ∙ r ∙ omega arith) at (ground (arith, older, less))
                  (valid, all) (omega (arith, less), old) (less, first)
          ]
      | inr newer ↦
          let same : pick_from (e ∷ es) i idx best ≡ pick_from es (i + 1) idx best =
            rw (valid, newer, pick_from) refl in
          elim (pick_from-Picked es (i + 1) idx best) [
            | unused_at v x r at u before ↦
                unused_at (suc v) x (same ∙ r ∙ omega arith) at u (valid, before)
            | kept r all old ↦ kept (same ∙ r) (valid, all) (ground (arith, newer), old)
            | older_at v x r at less all old first ↦
                older_at (suc v) x (same ∙ r ∙ omega arith) at less (valid, all)
                  (ground (arith, newer, less), old) (ground (arith, newer, less), first)
          ]
    ]
  ]

  pick-IsVictim :
      (es : List (Entry Rec Row))
      → 1 ≤ length es
      → (e : Entry Rec Row) × ((get_elem? es (pick es) ≡ some e) × IsVictim es (pick es) e)
  unfolding pick
  pick-IsVictim [] h = absurd (omega (arith, h))
  pick-IsVictim (e ∷ es) h = elim (pick_from-Picked (e ∷ es) 0 0 e.lru) [
    | unused_at v x r g u before ↦
        (x, (rw (r, zero_add v) g, rw (r, zero_add v) (first_unused u before)))
    | kept r all old ↦ (e, (rw r refl, rw r (oldest all old tt)))
    | older_at v x r g less all old first ↦
        (x, (rw (r, zero_add v) g, rw (r, zero_add v) (oldest all old first)))
  ]

module _ {ℓ} {A : Type ℓ} where
  take-append_right : (xs ys : List A) (m : ℕ) → take (length xs + m) (xs ++ ys) ≡ xs ++ take m ys
  take-append_right [] ys m = let e : 0 + m ≡ m = omega arith in rw e
  take-append_right (x ∷ xs) ys m =
      let e : suc (length xs) + m ≡ suc (length xs + m) = omega arith in
      rw e (ap (◌∷◌ x) (take-append_right xs ys m))

-- The key is the first pos tokens of the prompt and what was generated behind it.
snapshot_key-take :
    (s : Slot)
    → s.pos ≤ length (s.prompt ++ s.gen_tokens)
    → snapshot_key s ≡ take s.pos (s.prompt ++ s.gen_tokens)
unfolding snapshot_key
snapshot_key-take s h =
    let size = length-append s.prompt s.gen_tokens in
    elim (Bool-cases (ltb (length s.prompt) s.pos)) [
      | inl past ↦
          let m = s.pos - length s.prompt in
          let at : s.pos ≡ length s.prompt + m = ground (arith, past) in
          let whole : take (min s.pos (length s.prompt)) s.prompt ≡ s.prompt =
            take_all (min s.pos (length s.prompt)) s.prompt (omega arith) in
          let fed : min m (length s.gen_tokens) ≡ m = omega (arith, size) in
          rw (past, whole, fed)
            (sym (take-append_right s.prompt s.gen_tokens m)
              ∙ ap (λ n. take n (s.prompt ++ s.gen_tokens)) (sym at))
      | inr inside ↦
          let short : s.pos ≤ length s.prompt = ground (arith, inside) in
          let least : min s.pos (length s.prompt) ≡ s.pos = omega (arith, short) in
          let nothing : min 0 (length s.gen_tokens) ≡ 0 = omega arith in
          rw (inside, least, nothing)
            (append-nil (take s.pos s.prompt)
              ∙ sym (take-append_left s.pos s.prompt s.gen_tokens short))
    ]

module _ {Rec Row : Type 0} (d : Device Rec Row) where
  -- What a snapshot of the slot at position pos with the stripes lv leaves of the cache k.
  pub data Stored (c : Params) (k : PrefixCache Rec Row) (s : Slot) (lv : Live Rec Row)
      (k' : PrefixCache Rec Row) : Type 0 where
    passed_over :
        k' ≡ k → (length k.entries ≡ 0) ⊎ ((s.pos < 8) ⊎ (c.n_ctx < s.pos)) → Stored c k s lv k'
    stored :
        (v : ℕ) (e new : Entry Rec Row)
        → 8 ≤ s.pos
        → s.pos ≤ c.n_ctx
        → get_elem? k.entries v ≡ some e
        → IsVictim k.entries v e
        → k'.entries ≡ set k.entries v new
        → new.tokens ≡ take s.pos (s.prompt ++ s.gen_tokens)
        → new.snap ≡ lv
        → new.valid ≡ true
        → new.lru ≡ k'.clock
        → k'.clock ≡ (k.clock + 1) % 18446744073709551616
        → Stored c k s lv k'

  -- When the valid entries of the cache are the states of their tokens, and the stripes of a slot
  -- are the state after the first `pos` tokens of its prompt and generated tokens, snapshotSlot
  -- changes nothing in a cache without entries or at a position below 8 or beyond the context, and
  -- else overwrites the first unused entry or, where all are used, the first of those that were
  -- used longest ago, with exactly those `pos` tokens, those stripes and the clock, advanced by
  -- one in 64 bits, as its stamp; the valid entries stay the states of their tokens.
  pub snapshot_slot-Stored :
      (c : Params) (k : PrefixCache Rec Row) (s : Slot) (lv : Live Rec Row)
      → IsCoherent d k
      → s.pos ≤ length (s.prompt ++ s.gen_tokens)
      → Agree s.pos lv (feeds d (reset_live d) (take s.pos (s.prompt ++ s.gen_tokens)) 0)
      → Stored c k s lv (snapshot_slot c k s lv) × IsCoherent d (snapshot_slot c k s lv)
  unfolding snapshot_slot
  snapshot_slot-Stored c k s lv h fits holds =
      let key = snapshot_key-take s fits in
      let size = length-take_le s.pos (s.prompt ++ s.gen_tokens) fits in
      let captured : Captured d s lv = record {
        size = ap length key ∙ size;
        holds = rw (key, size) holds;
      } in
      (
        elim (Bool-cases ((length k.entries == 0) || ltb s.pos 8 || ltb c.n_ctx s.pos)) [
          | inl skip ↦ passed_over (rw (skip, snapshot_slot) refl) (why skip)
          | inr go ↦
              let (e, (at, victim)) = pick-IsVictim k.entries (ground (arith, go)) in
              let new : Entry Rec Row = record {
                tokens = snapshot_key s;
                snap = lv;
                lru = (k.clock + 1) % 18446744073709551616;
                valid = true;
              } in
              rw (go, snapshot_slot)
                (stored (pick k.entries) e new (ground (arith, go)) (ground (arith, go)) at victim
                  refl key refl refl refl refl)
        ],
        snapshot_slot-IsCoherent d c k s lv h captured,
      )
    where
      why : {n p x : ℕ} → ((n == 0) || ltb p 8 || ltb x p) ≡ true → (n ≡ 0) ⊎ ((p < 8) ⊎ (x < p))
      why {n = n} {p = p} {x = x} h = ground arith
