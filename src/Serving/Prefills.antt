-- ===== src/Serving/Prefills.antt =====
-- batch_to: it ends without leaving the process, and the slot has then read a prefix of the prompt.
use qwen_kernel.Prelude.{
  ◌+◌, ◌-◌, ◌≤◌, ◌<◌, ◌≡◌, ◌∙◌, ◌&&◌, ◌==◌, ℕ, zero, suc, min, ap, inl, inr, false, List, arith,
  ltb, leb, Bool-cases, length, take, drop, length-take_le, length-drop, take-add, done,
}
use qwen_kernel.Device.{Device, IsFaithful, Live, feeds, reset_live}
use qwen_kernel.Device.Agree.{Agree, Agree-le, Agree-refl, feeds-Agree}
use qwen_kernel.Device.Steps.{feeds-append}
use qwen_kernel.Prefill.{bad_args, prefill_batch, seeded}
use qwen_kernel.Serving.Loop.{IsWhole}
use qwen_kernel.Serving.Round.{bad_args-Fits}
use qwen_kernel.Slot.{Params}
use qwen_kernel.Start.{batch_to}

module _ {Rec Row : Type 0} (c : Params) (d : Device Rec Row) where
  -- The slot has read the first p tokens of the prompt.
  abbrev pub HasRead : List ℕ → ℕ → Live Rec Row → Type 0
  HasRead prompt p lv = Agree p lv (feeds d (reset_live d) (take p prompt) 0)

  -- A pass from position 0 zeroes the stripes first.
  seeded-HasRead :
      (pos : ℕ) (lv : Live Rec Row) (prompt : List ℕ)
      → HasRead prompt pos lv
      → HasRead prompt pos (seeded c d lv pos)
  unfolding feeds
  seeded-HasRead zero lv prompt h = Agree-refl 0 (reset_live d)
  seeded-HasRead (suc pos) lv prompt h = let e : (suc pos == 0) ≡ false = ground arith in rw e h

  module _ (f : IsFaithful d) (w : IsWhole c) (idx : ℕ) (slot_ok : idx < c.n_slots) where
    -- One batched pass reads the next n tokens.
    prefill_batch-HasRead :
        (prompt : List ℕ) (lv : Live Rec Row) (pos n : ℕ)
        → 1 ≤ n
        → n ≤ c.max_b
        → pos + n ≤ length prompt
        → length prompt ≤ c.n_ctx
        → HasRead prompt pos lv
        → (lv' : Live Rec Row) × (prefill_batch c d idx lv (take n (drop pos prompt)) pos
            ≡ done lv')
          × HasRead prompt (pos + n) lv'
    unfolding prefill_batch
    prefill_batch-HasRead prompt lv pos n nonempty small inside fits h =
        let toks = take n (drop pos prompt) in
        let left = length-drop pos prompt in
        let size : length toks ≡ n = length-take_le n (drop pos prompt) (omega (arith, left)) in
        let before = length-take_le pos prompt (omega arith) in
        let whole : feeds d (reset_live d) (take (pos + n) prompt) 0
            ≡ feeds d (feeds d (reset_live d) (take pos prompt) 0) toks pos =
          ap (λ ts. feeds d (reset_live d) ts 0) (take-add pos n prompt)
          ∙ feeds-append d (reset_live d) (take pos prompt) toks 0
          ∙ ap (feeds d (feeds d (reset_live d) (take pos prompt) 0) toks)
              (omega (arith, before)) in
        let ok : bad_args c (length toks) idx pos false ≡ false =
          bad_args-Fits c idx pos (length toks) false (record {
            whole_first = w.first;
            whole_last = w.last;
            slot_ok = slot_ok;
            some_tokens = omega (arith, size);
            in_batch = omega (arith, size);
            in_context = omega (arith, size);
          }) in
        let seed : Agree pos (seeded c d lv pos) (feeds d (reset_live d) (take pos prompt) 0) =
          seeded-HasRead pos lv prompt h in
        (
          feeds d (seeded c d lv pos) toks pos,
          rw (ok, f.batch_serial (seeded c d lv pos) toks pos),
          rw whole (Agree-le (omega (arith, size)) (feeds-Agree d f toks pos seed)),
        )

    -- On an engine that owns all layers and drafts no more than a batch holds, over a faithful
    -- device, and an existing slot that has read the prompt up to a position, batch_to up to a
    -- limit that is not below it, within a prompt that fits the context, with fuel beyond the
    -- missing tokens, ends without leaving the process; the slot has then read the prompt up to a
    -- position between the old one and the limit, fewer than 16 tokens short of it.
    pub batch_to-HasRead :
        (fuel : ℕ) (prompt : List ℕ) (limit pos : ℕ) (lv : Live Rec Row)
        → limit < pos + fuel
        → pos ≤ limit
        → limit ≤ length prompt
        → length prompt ≤ c.n_ctx
        → HasRead prompt pos lv
        → (lv' : Live Rec Row) × (p : ℕ) × (batch_to c d fuel idx prompt limit pos lv
            ≡ done (lv', p))
          × (pos ≤ p)
          × (p ≤ limit)
          × (limit < p + 16)
          × HasRead prompt p lv'
    unfolding batch_to
    batch_to-HasRead zero prompt limit pos lv e l m z h = absurd (omega arith)
    batch_to-HasRead (suc fuel) prompt limit pos lv e l m z h =
        elim (Bool-cases (ltb pos limit && leb 16 (limit - pos))) [
          | inr stop ↦ (lv, pos, rw (stop, batch_to), omega arith, l, ground arith, h)
          | inl go ↦
              let b = w.some_batch in
              let n = min c.max_b (limit - pos) in
              let room : 16 ≤ limit - pos = ground arith in
              let (lv1, ran, next) =
                prefill_batch-HasRead prompt lv pos n (omega arith) (omega arith) (omega arith) z
                  h in
              let (lv2, p, rest, further, inside, near, read) =
                batch_to-HasRead fuel prompt limit (pos + n) lv1 (omega arith) (omega arith) m z
                  next in
              (lv2, p, rw (go, ran, batch_to) rest, omega arith, inside, near, read)
        ]
