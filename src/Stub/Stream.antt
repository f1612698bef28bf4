-- ===== src/Stub/Stream.antt =====
-- What the stub emits for a request: the ids that follow the prompt's last token, up to a limit.
use native.Mathlib.Nat.{mod-lt}
use qwen_kernel.Prelude.{
  ◌+◌, ◌-◌, ◌*◌, ◌%◌, ◌≤◌, ◌<◌, ◌≡◌, ◌∙◌, ◌⊎◌, ◌&&◌, ◌∷◌, ◌++◌, ◌==◌, if◌then◌else◌, ℕ, zero, suc,
  min, max, refl, sym, ap, ap₂, inl, inr, Bool, true, false, List, [], append_assoc, arith, leb,
  leb→le, Bool-cases,
}
use qwen_kernel.Gguf.{le}
use qwen_kernel.Stub.{StubSlot, next_id}
use qwen_kernel.Stub.Step.{StubLane, sampled_id, stop_at_limit, stub_emit, stub_stop, stub_tick}

unfoldable pub id_after : ℕ → ℕ → ℕ
id_after t zero = t
id_after t (suc n) = next_id (id_after t n)

unfoldable pub ids_to : ℕ → ℕ → List ℕ
unfolding id_after
ids_to t zero = []
ids_to t (suc n) = ids_to t n ++ id_after t (suc n) ∷ []

-- A request as the stub reads it: the prompt's length and last token, the token limit, and whether
-- the fourth id is to be the end of the sequence.
pub record Request : Type 0 where
  pub n_prompt : ℕ
  pub last_tok : ℕ
  pub limit : ℕ
  pub cut : Bool

abbrev pub n_ids : Request → ℕ
n_ids r = if r.cut then min 3 (max 1 r.limit) else max 1 r.limit

-- The slot with so many prompt tokens left to read and so many ids emitted.
abbrev pub slot_at : Request → ℕ → ℕ → StubSlot
slot_at r left g = record {
  active = true;
  prefill_left = left;
  prev = id_after r.last_tok g;
  gen = g;
  max_gen = r.limit;
  eos_at_4 = r.cut;
}

abbrev pub live_slot : Request → ℕ → StubSlot
live_slot r n = slot_at r (r.n_prompt - n) (n - r.n_prompt)

abbrev one_read : StubSlot → StubSlot
one_read s = record s { prefill_left = s.prefill_left - 1 }

abbrev one_more : StubSlot → StubSlot
one_more s = record s { prev = next_id s.prev; gen = s.gen + 1 }

-- A lane n steps after the request was accepted, when earlier calls handed out `before`.
pub data Follows (r : Request) (n : ℕ) (before : List ℕ) (l : StubLane) : Type 0 where
  running :
      l.slot ≡ live_slot r n
      → before ++ l.out ≡ ids_to r.last_tok (n - r.n_prompt)
      → (n - r.n_prompt ≡ 0) ⊎ (n - r.n_prompt < r.limit)
      → (r.cut ≡ true → n - r.n_prompt ≤ 3)
      → Follows r n before l
  ended :
      l.slot.active ≡ false
      → before ++ l.out ≡ ids_to r.last_tok (n_ids r)
      → r.n_prompt + n_ids r ≤ n
      → Follows r n before l

pub next_id_lt : (t : ℕ) → next_id t < 248000
unfolding next_id
next_id_lt t = mod-lt ((t * 1103515245 + 12345) % 4294967296) (omega arith)

-- The four things that a step does with a slot.
stub_tick-idle : (l : StubLane) → l.slot.active ≡ false → stub_tick l ≡ l
unfolding stub_tick
stub_tick-idle l h = ground arith

stub_tick-reads :
    (l : StubLane)
    → l.slot.active ≡ true
    → 0 < l.slot.prefill_left
    → stub_tick l ≡ record l { slot = record (l.slot) { prefill_left = l.slot.prefill_left - 1 } }
unfolding stub_tick
stub_tick-reads l h p = ground arith

stub_tick-cuts :
    (l : StubLane)
    → l.slot.active ≡ true
    → l.slot.prefill_left ≡ 0
    → l.slot.eos_at_4 ≡ true
    → l.slot.gen ≡ 3
    → stub_tick l ≡ stub_stop l
unfolding stub_tick sampled_id
stub_tick-cuts l h p c g = ground arith

stub_tick-emits :
    (l : StubLane)
    → l.slot.active ≡ true
    → l.slot.prefill_left ≡ 0
    → (l.slot.eos_at_4 ≡ true → l.slot.gen < 3)
    → stub_tick l ≡ stop_at_limit (stub_emit l (next_id l.slot.prev))
unfolding stub_tick sampled_id
stub_tick-emits l h p c = ground (arith, next_id_lt l.slot.prev)

stop_at_limit-stub_stop :
    (l : StubLane) → l.slot.max_gen ≤ l.slot.gen → stop_at_limit l ≡ stub_stop l
unfolding stop_at_limit
stop_at_limit-stub_stop l h = ground arith

stop_at_limit_more : (l : StubLane) → l.slot.gen < l.slot.max_gen → stop_at_limit l ≡ l
unfolding stop_at_limit
stop_at_limit_more l h = ground arith

n_ids-three : (r : Request) → r.cut ≡ true → 3 < r.limit → n_ids r ≡ 3
n_ids-three r c h = ground arith

-- The limit is reached with the next id.
n_ids-suc :
    (r : Request) (g : ℕ)
    → (g ≡ 0) ⊎ (g < r.limit)
    → (r.cut ≡ true → g < 3)
    → r.limit ≤ g + 1
    → n_ids r ≡ suc g
n_ids-suc r g more c h = elim more [ inl e ↦ ground arith | inr e ↦ ground arith ]

pub leb-lt : (a b : ℕ) → leb a b ≡ false → b < a
leb-lt a b h = ground arith

one_more-slot_at : (r : Request) (a g : ℕ) → one_more (slot_at r a g) ≡ slot_at r a (suc g)
unfolding id_after
one_more-slot_at r a g = let e : g + 1 ≡ suc g = omega arith in rw e refl

third : (b : Bool) (g : ℕ) → (b && (g == 3)) ≡ true → (b ≡ true) × (g ≡ 3)
third b g h = (ground arith, ground arith)

not_third : (b : Bool) (g : ℕ) → (b && (g == 3)) ≡ false → (b ≡ true → g ≤ 3) → b ≡ true → g < 3
not_third b g h c e = ground (arith, c e)

module _ (r : Request) (n : ℕ) (before : List ℕ) (l : StubLane) where
  -- A step while the prompt is read.
  stub_tick-Follows_reading :
      l.slot ≡ live_slot r n
      → before ++ l.out ≡ ids_to r.last_tok (n - r.n_prompt)
      → n < r.n_prompt
      → Follows r (n + 1) before (stub_tick l)
  stub_tick-Follows_reading e o lt =
      let left : l.slot.prefill_left ≡ r.n_prompt - n = ap (λ s. s.prefill_left) e in
      let same : n + 1 - r.n_prompt ≡ n - r.n_prompt = omega arith in
      rw (stub_tick-reads l (ap (λ s. s.active) e) (omega arith)) (
        running (ap one_read e ∙ ap₂ (slot_at r) (omega arith) (sym same))
          (o ∙ ap (ids_to r.last_tok) (sym same)) (inl (omega arith)) (λ _. omega arith))

  stub_tick-Follows_cut :
      l.slot ≡ live_slot r n
      → before ++ l.out ≡ ids_to r.last_tok (n - r.n_prompt)
      → n - r.n_prompt < r.limit
      → r.cut ≡ true
      → n - r.n_prompt ≡ 3
      → Follows r (n + 1) before (stub_tick l)
  stub_tick-Follows_cut e o lt c three =
      let n_ids_three : n_ids r ≡ 3 = n_ids-three r c (omega arith) in
      rw
        (stub_tick-cuts l (ap (λ s. s.active) e) (ap (λ s. s.prefill_left) e ∙ omega arith)
          (ap (λ s. s.eos_at_4) e ∙ c) (ap (λ s. s.gen) e ∙ three))
        (ended refl (o ∙ ap (ids_to r.last_tok) (three ∙ sym n_ids_three))
          (omega (arith, n_ids_three)))

  stub_tick-Follows_emitting :
      l.slot ≡ live_slot r n
      → before ++ l.out ≡ ids_to r.last_tok (n - r.n_prompt)
      → r.n_prompt ≤ n
      → (n - r.n_prompt ≡ 0) ⊎ (n - r.n_prompt < r.limit)
      → (r.cut ≡ true → n - r.n_prompt < 3)
      → Follows r (n + 1) before (stub_tick l)
  unfolding ids_to id_after
  stub_tick-Follows_emitting e o read more c =
      let moved : n + 1 - r.n_prompt ≡ suc (n - r.n_prompt) = omega arith in
      let g : l.slot.gen ≡ n - r.n_prompt = ap (λ s. s.gen) e in
      let m : l.slot.max_gen ≡ r.limit = ap (λ s. s.max_gen) e in
      let total : before ++ (l.out ++ next_id l.slot.prev ∷ [])
          ≡ ids_to r.last_tok (suc (n - r.n_prompt)) =
        sym (append_assoc before l.out (next_id l.slot.prev ∷ []))
        ∙ ap₂ (λ xs p. xs ++ next_id p ∷ []) o (ap (λ s. s.prev) e) in
      rw
        (stub_tick-emits l (ap (λ s. s.active) e) (ap (λ s. s.prefill_left) e ∙ omega arith)
          (λ k. omega (arith, g, c (sym (ap (λ s. s.eos_at_4) e) ∙ k))))
        (elim (Bool-cases (leb r.limit (n - r.n_prompt + 1))) [
          | inl h ↦
              let reached : n_ids r ≡ suc (n - r.n_prompt) =
                n_ids-suc r (n - r.n_prompt) more c (leb→le r.limit (n - r.n_prompt + 1) h) in
              rw
                (stop_at_limit-stub_stop (stub_emit l (next_id l.slot.prev))
                  (omega (arith, g, m, leb→le r.limit (n - r.n_prompt + 1) h)))
                (ended refl (total ∙ ap (ids_to r.last_tok) (sym reached)) (omega (arith, reached)))
          | inr h ↦
              rw
                (stop_at_limit_more (stub_emit l (next_id l.slot.prev))
                  (omega (arith, g, m, leb-lt r.limit (n - r.n_prompt + 1) h)))
                (running
                  (ap one_more e
                    ∙ one_more-slot_at r (r.n_prompt - n) (n - r.n_prompt)
                    ∙ ap₂ (slot_at r) (omega arith) (sym moved))
                  (total ∙ ap (ids_to r.last_tok) (sym moved))
                  (inr (omega (arith, leb-lt r.limit (n - r.n_prompt + 1) h)))
                  (λ k. omega (arith, c k)))
        ])

-- A step keeps the lane on the request's course.
pub stub_tick-Follows :
    (r : Request) (n : ℕ) (before : List ℕ) (l : StubLane)
    → Follows r n before l
    → Follows r (n + 1) before (stub_tick l)
stub_tick-Follows r n before l (ended e o le) = rw (stub_tick-idle l e) (ended e o (omega arith))
stub_tick-Follows r n before l (running e o more c) = elim (Bool-cases (leb r.n_prompt n)) [
  | inr h ↦ stub_tick-Follows_reading r n before l e o (leb-lt r.n_prompt n h)
  | inl h ↦ elim (Bool-cases (r.cut && (n - r.n_prompt == 3))) [
    | inl k ↦
        let t : (r.cut ≡ true) × (n - r.n_prompt ≡ 3) = third r.cut (n - r.n_prompt) k in
        stub_tick-Follows_cut r n before l e o
          (elim more [ inl z ↦ absurd (omega (arith, t.1)) | inr lt ↦ lt ]) t.0 t.1
    | inr k ↦
        stub_tick-Follows_emitting r n before l e o (leb→le r.n_prompt n h) more
          (not_third r.cut (n - r.n_prompt) k c)
  ]
]
