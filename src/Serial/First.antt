-- ===== src/Serial/First.antt =====
-- What serialPrefillLogits answers, and which slots it leaves alone.
use qwen_kernel.Prelude.{
  ◌+◌, ◌-◌, ◌≤◌, ◌<◌, ◌≡◌, ◌∙◌, ◌≢◌, ◌⊎◌, ◌∷◌, ◌==◌, if◌then◌else◌, ℕ, zero, suc, refl, ap, subst,
  inl, inr, Bool, true, false, some, List, [], arith, ltb, Bool-cases,
}
use qwen_kernel.Serial.{
  SerialResult, Slots, best_of, feed_prompt, last_row, lower_active, reset_slot, serial_prefill,
  submit_step,
}

-- Comparison of floats that are no NaN.
pub record IsOrder {F : Type 0} (gt : F → F → Bool) : Type 0 where
  pub asym : (a b : F) → gt a b ≡ true → gt b a ≡ false
  pub weak : (a b c : F) → gt a b ≡ true → gt c b ≡ false → gt a c ≡ true

-- The first of the largest of the first n entries.
pub record IsFirstMax {F : Type 0} (gt : F → F → Bool) (row : ℕ → F) (n b : ℕ) : Type 0 where
  pub inside : b < n
  pub largest : (i : ℕ) → i < n → gt (row i) (row b) ≡ false
  pub first : (i : ℕ) → i < b → gt (row b) (row i) ≡ true

-- A prompt read by one slot alone.
unfoldable pub reads : {S : Type 0} → (S → ℕ → ℕ → S) → S → List ℕ → ℕ → S
reads step s [] pos = s
reads step s (t ∷ ts) pos = reads step (step s t pos) ts (pos + 1)

-- The answer for a prompt: the logits `row` that follow it, their first maximum, and every slot that
-- is in use but this one as it was.
pub record IsAnswer {S F : Type 0} (gt : F → F → Bool) (row : ℕ → F) (vocab slot : ℕ) (e : Slots S)
    (r : SerialResult S F) : Type 0 where
  pub row_ok : r.logits ≡ row
  pub best_ok : IsFirstMax gt row vocab r.best
  pub idle : r.slots.active slot ≡ false
  pub others :
      (s : ℕ)
      → e.active s ≡ true
      → s ≢ slot
      → (r.slots.state s ≡ e.state s) × (r.slots.active s ≡ true)

module _ {F : Type 0} (gt : F → F → Bool) (o : IsOrder gt) (row : ℕ → F) where
  gt_irrefl : (a : F) → gt a a ≡ false
  gt_irrefl a = elim (Bool-cases (gt a a)) [ inl h ↦ o.asym a a h | inr h ↦ h ]

  best_of-IsFirstMax : (n : ℕ) → IsFirstMax gt row (n + 1) (best_of gt row n)
  unfolding best_of
  best_of-IsFirstMax zero = record {
    inside = omega arith;
    largest = λ i h. let z : i ≡ 0 = omega (arith, h) in rw z (gt_irrefl (row 0));
    first = λ i h. absurd (omega (arith, h));
  }
  best_of-IsFirstMax (suc n) =
      let b = best_of gt row n in
      let ih : IsFirstMax gt row (n + 1) b = best_of-IsFirstMax n in
      elim (Bool-cases (gt (row (suc n)) (row b))) [
        | inl new ↦
            let above : (i : ℕ) → i < n + 1 → gt (row (suc n)) (row i) ≡ true =
              λ i h. o.weak (row (suc n)) (row b) (row i) new (ih.largest i h) in
            rw new (record {
              inside = omega arith;
              largest = λ i h. elim (last_or i n h) [
                | inl z ↦ rw z (gt_irrefl (row (suc n)))
                | inr l ↦ o.asym (row (suc n)) (row i) (above i l)
              ];
              first = λ i h. above i (omega (arith, h));
            })
        | inr old ↦
            let bound = ih.inside in
            rw old (record {
              inside = omega (arith, bound);
              largest = λ i h. elim (last_or i n h) [ inl z ↦ rw z old | inr l ↦ ih.largest i l ];
              first = ih.first;
            })
      ]
    where
      last_or : (i n : ℕ) → i < suc n + 1 → (i ≡ suc n) ⊎ (i < n + 1)
      last_or i n h = ground arith

lower_active-none :
    (active : ℕ → Bool) (slot : ℕ)
    → ((s : ℕ) → s < slot → active s ≡ false)
    → lower_active active slot ≡ false
unfolding lower_active
lower_active-none active zero h = refl
lower_active-none active (suc s) h =
    rw (h s (omega arith), lower_active-none active s (λ i l. h i (omega (arith, l))))

module _ {S : Type 0} (step : S → ℕ → ℕ → S) (slot : ℕ) where
  feed_prompt-reads :
      (ts : List ℕ) (pos : ℕ) (state : ℕ → S)
      → feed_prompt step slot ts pos state slot ≡ reads step (state slot) ts pos
  unfolding feed_prompt reads submit_step
  feed_prompt-reads [] pos state = refl
  feed_prompt-reads (t ∷ ts) pos state =
      let here : (slot == slot) ≡ true = ground arith in
      let now : submit_step step slot t pos state slot ≡ step (state slot) t pos = rw here in
      feed_prompt-reads ts (pos + 1) (submit_step step slot t pos state)
      ∙ ap (λ s. reads step s ts (pos + 1)) now

  feed_prompt_above :
      (ts : List ℕ) (pos : ℕ) (state : ℕ → S) (s : ℕ)
      → slot < s
      → feed_prompt step slot ts pos state s ≡ state s
  unfolding feed_prompt submit_step
  feed_prompt_above [] pos state s h = refl
  feed_prompt_above (t ∷ ts) pos state s h =
      let other : (s == slot) ≡ false = ground arith in
      let high : ltb s slot ≡ false = ground arith in
      let now : submit_step step slot t pos state s ≡ state s = rw (other, high) in
      feed_prompt_above ts (pos + 1) (submit_step step slot t pos state) s h ∙ now

-- When no slot below the given one is in use and the vocabulary is not empty, serialPrefillLogits,
-- over given steps and logits and a comparison that is asymmetric and weakly ordered, does not
-- refuse: it answers with the logits of a fresh slot that has read the prompt, or for an empty
-- prompt with those that the slot had, and with the first index of the largest of them, leaves the
-- slot not in use, and leaves every other slot that is in use with its state as it was.
pub serial_prefill-IsAnswer :
    {S F : Type 0} (gt : F → F → Bool) (o : IsOrder gt) (fresh : S) (step : S → ℕ → ℕ → S)
    (logits : S → ℕ → F) (vocab : ℕ) (toks : List ℕ) (slot : ℕ) (stale : ℕ → F) (e : Slots S)
    → 1 ≤ vocab
    → ((s : ℕ) → s < slot → e.active s ≡ false)
    → (r : SerialResult S F) × ((serial_prefill gt fresh step logits vocab toks slot stale e
          ≡ some r)
        × IsAnswer gt (last_row toks stale (logits (reads step fresh toks 0))) vocab slot e r)
unfolding serial_prefill reset_slot
serial_prefill-IsAnswer {S = S} {F = F} gt o fresh step logits vocab toks slot stale e some_vocab
      low =
    let idle = lower_active-none e.active slot low in
    let here : (slot == slot) ≡ true = ground arith in
    let start = reset_slot fresh slot e.state in
    let zeroed : start slot ≡ fresh = rw here in
    let state = feed_prompt step slot toks 0 start in
    let read : state slot ≡ reads step fresh toks 0 =
      feed_prompt-reads step slot toks 0 start ∙ ap (λ s. reads step s toks 0) zeroed in
    let size : vocab - 1 + 1 ≡ vocab = omega arith in
    let row = last_row toks stale (logits (state slot)) in
    let best : IsFirstMax gt row vocab (best_of gt row (vocab - 1)) =
      subst (λ n. IsFirstMax gt row n (best_of gt row (vocab - 1))) size
        (best_of-IsFirstMax gt o row (vocab - 1)) in
    let answer : SerialResult S F = record {
      best = best_of gt row (vocab - 1);
      logits = row;
      slots = record { state = state; active = λ s. if s == slot then false else e.active s };
    } in
    (
      answer,
      (
        rw idle,
        record {
          row_ok = ap (λ x. last_row toks stale (logits x)) read;
          best_ok =
              subst
                (λ x.
                  IsFirstMax gt (last_row toks stale (logits x)) vocab (best_of gt row (vocab - 1)))
                read best;
          idle = rw here;
          others = λ s busy away.
              let other : (s == slot) ≡ false = ground arith in
              let above : slot < s = above_slot e.active slot s low busy away in
              (feed_prompt_above step slot toks 0 start s above ∙ (rw other), rw (other, busy));
        },
      ),
    )
  where
    above_slot :
        (active : ℕ → Bool) (slot s : ℕ)
        → ((i : ℕ) → i < slot → active i ≡ false)
        → active s ≡ true
        → s ≢ slot
        → slot < s
    above_slot active slot s low busy away = elim (Bool-cases (ltb s slot)) [
      | inl h ↦ let free = low s (ground (arith, h)) in absurd (grind arith)
      | inr h ↦ elim (Bool-cases (s == slot)) [
        | inl k ↦ absurd (away (ground (arith, k)))
        | inr k ↦ ground (arith, h, k)
      ]
    ]
