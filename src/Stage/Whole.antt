-- ===== src/Stage/Whole.antt =====
-- stageRun on a whole engine computes what feeding the tokens one by one computes.
use qwen_kernel.Prelude.{
  ◌+◌, ◌≤◌, ◌<◌, ◌≡◌, ◌∙◌, ◌∷◌, ◌++◌, ◌==◌, ℕ, zero, suc, min, refl, sym, ap, ap₂, true, false,
  none, List, [], arith, length, take, drop, length-take_le, length-drop, take-append-drop, done,
}
use qwen_kernel.Device.{Device, IsFaithful, Live, feed, feeds, feeds_ids, sampled}
use qwen_kernel.Device.Steps.{feeds-append}
use qwen_kernel.Prefill.{bad_args, seeded}
use qwen_kernel.Serving.Loop.{IsWhole}
use qwen_kernel.Serving.Round.{bad_args-Fits}
use qwen_kernel.Slot.{Params}
use qwen_kernel.Stage.{prefill_ids, stage_error, stage_loop, stage_ran, stage_run}

module _ {Rec Row : Type 0} (d : Device Rec Row) where
  feeds_ids-append :
      (lv : Live Rec Row) (ts us : List ℕ) (p : ℕ)
      → feeds_ids d lv (ts ++ us) p
        ≡ feeds_ids d lv ts p ++ feeds_ids d (feeds d lv ts p) us (p + length ts)
  unfolding feeds_ids feeds
  feeds_ids-append lv [] us p = let e : p + 0 ≡ p = omega arith in rw e
  feeds_ids-append lv (t ∷ ts) us p =
      let e : p + length (t ∷ ts) ≡ p + 1 + length ts = omega arith in
      rw e (ap (◌∷◌ (sampled d lv t p)) (feeds_ids-append (feed d lv t p) ts us (p + 1)))

module _ {Rec Row : Type 0} (c : Params) (d : Device Rec Row) (f : IsFaithful d) (w : IsWhole c)
    (slot : ℕ) (slot_ok : slot < c.n_slots) where
  seeded_later : (lv : Live Rec Row) (base : ℕ) → 1 ≤ base → seeded c d lv base ≡ lv
  seeded_later lv base h = let e : (base == 0) ≡ false = ground arith in rw e

  prefill_ids-feeds :
      (lv : Live Rec Row) (ts : List ℕ) (p : ℕ)
      → bad_args c (length ts) slot p true ≡ false
      → prefill_ids c d slot lv ts p
        ≡ done (feeds d (seeded c d lv p) ts p, feeds_ids d (seeded c d lv p) ts p)
  unfolding prefill_ids
  prefill_ids-feeds lv ts p ok =
      rw (ok, f.batch_serial (seeded c d lv p) ts p, f.ids_serial (seeded c d lv p) ts p)

  -- With fuel for every token the loop ends; the width of the passes does not show.
  stage_loop-feeds :
      (fuel : ℕ) (lv : Live Rec Row) (toks : List ℕ) (base : ℕ)
      → length toks < fuel
      → base + length toks ≤ c.n_ctx
      → (base ≡ 0 → 1 ≤ length toks)
      → stage_loop c d fuel slot lv toks base
        ≡ done (feeds d (seeded c d lv base) toks base, feeds_ids d (seeded c d lv base) toks base)
  unfolding stage_loop feeds feeds_ids
  stage_loop-feeds zero lv toks base h fits some_toks = absurd (omega arith)
  stage_loop-feeds (suc fuel) lv [] base h fits some_toks =
      let later : 1 ≤ base = later_base base some_toks in
      rw (seeded_later lv base later, stage_loop)
    where
      later_base : (base : ℕ) → (base ≡ 0 → 1 ≤ 0) → 1 ≤ base
      later_base zero g = absurd (let bad = g refl in omega arith)
      later_base (suc base) g = omega arith
  stage_loop-feeds (suc fuel) lv (t ∷ ts) base h fits some_toks =
      let toks = t ∷ ts in
      let n = min c.max_b (length toks) in
      let b = w.some_batch in
      let part = take n toks in
      let rest = drop n toks in
      let size : length part ≡ n = length-take_le n toks (omega arith) in
      let left = length-drop n toks in
      let lv0 = seeded c d lv base in
      let lv1 = feeds d lv0 part base in
      let full : (length toks == 0) ≡ false = ground arith in
      let ok : bad_args c (length part) slot base true ≡ false =
        bad_args-Fits c slot base (length part) true (record {
          whole_first = w.first;
          whole_last = w.last;
          slot_ok = slot_ok;
          some_tokens = omega (arith, size);
          in_batch = omega (arith, size);
          in_context = omega (arith, size);
        }) in
      let next =
        stage_loop-feeds fuel lv1 rest (base + n) (omega (arith, left)) (omega (arith, left))
          (λ z. absurd (omega arith)) in
      let at : base + length part ≡ base + n = omega (arith, size) in
      let pass : prefill_ids c d slot lv part base ≡ done (lv1, feeds_ids d lv0 part base) =
        prefill_ids-feeds lv part base ok in
      let states : feeds d lv1 rest (base + n) ≡ feeds d lv0 toks base =
        ap (feeds d lv1 rest) (sym at)
        ∙ sym (feeds-append d lv0 part rest base)
        ∙ ap (λ us. feeds d lv0 us base) (take-append-drop n toks) in
      let ids : feeds_ids d lv0 part base ++ feeds_ids d lv1 rest (base + n)
          ≡ feeds_ids d lv0 toks base =
        ap (λ p. feeds_ids d lv0 part base ++ feeds_ids d lv1 rest p) (sym at)
        ∙ sym (feeds_ids-append d lv0 part rest base)
        ∙ ap (λ us. feeds_ids d lv0 us base) (take-append-drop n toks) in
      rw (full, pass, next, seeded_later lv1 (base + n) (omega arith), stage_loop)
        (ap₂ (λ x y. done (x, y)) states ids)

  -- On an engine that owns all layers and drafts no more than a batch holds, over a faithful
  -- device, stageRun on an existing slot, of at least one token within the context, returns,
  -- whatever the width of its passes, the greedy ids and the state of feeding the tokens one by
  -- one, from a zeroed state at position 0 and else from the slot's.
  pub stage_run-feeds :
      (lv : Live Rec Row) (toks : List ℕ) (base : ℕ)
      → 1 ≤ length toks
      → base + length toks ≤ c.n_ctx
      → stage_run c d slot lv toks base
        ≡ done (
            stage_ran
              (feeds d (seeded c d lv base) toks base)
              (feeds_ids d (seeded c d lv base) toks base))
  unfolding stage_run stage_error
  stage_run-feeds lv toks base some_toks fits =
      let first = w.first in
      let last = w.last in
      let ok : stage_error c slot (length toks) base
            (record { toks = true; hidden_in = false; hidden_out = false; ids_out = true })
          ≡ none =
        ground arith in
      rw (
        ok,
        stage_loop-feeds (length toks + 1) lv toks base (omega arith) fits (λ _. some_toks),
        stage_run,
      )
