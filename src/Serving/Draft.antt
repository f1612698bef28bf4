-- ===== src/Serving/Draft.antt =====
-- What specDraft drafts on a slot that is decoding: nothing, or a batch that starts with the
-- slot's last token and stays within the context and the request.
use qwen_kernel.Prelude.{
  ◌+◌, ◌-◌, ◌≤◌, ◌≡◌, ◌∙◌, ◌∷◌, ℕ, zero, suc, min, max, refl, sym, ap, inl, inr, false, Option,
  none, some, List, arith, ltb, Bool-cases, sub32, length, get_or-snoc,
}
use qwen_kernel.Device.{Device, Live}
use qwen_kernel.Greedy.{after, begin, greedy}
use qwen_kernel.Greedy.Laws.{length-greedy}
use qwen_kernel.Serving.Status.{Decoding}
use qwen_kernel.Slot.{Params, Slot}
use qwen_kernel.Speculate.{
  copy_toks, draft_at, gram_hash, history_size, index_grams, spec_draft, tok,
}

module _ {Rec Row : Type 0} (c : Params) (d : Device Rec Row) where
  -- A batch that specDraft may return.
  pub record Drafted (s : Slot) (toks : List ℕ) : Type 0 where
    pub rest : List ℕ
    pub starts : toks ≡ s.last ∷ rest
    pub small : length toks ≤ c.spec_k
    pub in_context : s.pos + length toks ≤ c.n_ctx
    pub in_request : s.gen + length toks ≤ s.max_gen

  length-copy_toks : (s : Slot) (e n : ℕ) → length (copy_toks s e n) ≡ n
  unfolding copy_toks
  length-copy_toks s e zero = refl
  length-copy_toks s e (suc n) = ap suc (length-copy_toks s (e + 1) n)

  sub32-le : (a b : ℕ) → b ≤ a → sub32 a b ≤ a - b
  sub32-le a b h = omega arith

  tok-last :
      (s : Slot) (lv : Live Rec Row) (n : ℕ)
      → Decoding c d s lv n
      → tok s (history_size s - 1) ≡ s.last
  unfolding greedy
  tok-last s lv n e =
      let b = begin d s.prompt in
      let size : length s.gen_tokens ≡ suc n =
        ap length e.generated.tokens ∙ length-greedy d b (suc n) in
      let past : ltb (history_size s - 1) (length s.prompt) ≡ false = ground (arith, size) in
      let place : history_size s - 1 - length s.prompt ≡ length (greedy d b n) =
        omega (arith, size, length-greedy d b n) in
      rw (past, place, e.generated.tokens)
        (get_or-snoc (greedy d b n) (after d b (suc n)).next 0 ∙ sym e.sampled)

  draft_at-Drafted :
      (s : Slot) (lv : Live Rec Row) (n : ℕ) (m : Option ℕ)
      → Decoding c d s lv n
      → 2 ≤ length (draft_at c s m)
      → Drafted s (draft_at c s m)
  unfolding draft_at
  draft_at-Drafted s lv n none e h = absurd (omega arith)
  draft_at-Drafted s lv n (some x) e h =
      let max_n = min (min c.spec_k (sub32 c.n_ctx s.pos)) (sub32 s.max_gen s.gen) in
      let left = min (max_n - 1) (history_size s - x) in
      let size = length-copy_toks s x left in
      let room = e.room in
      let count = e.generated.count in
      let wanted = e.wanted in
      let ctx = sub32-le c.n_ctx s.pos (omega arith) in
      let req = sub32-le s.max_gen s.gen (omega arith) in
      elim (Bool-cases (ltb max_n 2)) [
        | inl few ↦ absurd (ground arith)
        | inr go ↦ rw go (record {
          rest = copy_toks s x left;
          starts = ap (λ t. t ∷ copy_toks s x left) (tok-last s lv n e);
          small = ground (arith, size);
          in_context = ground (arith, size, ctx);
          in_request = ground (arith, size, req);
        })
      ]

  -- Growing the index leaves the slot decoding.
  Decoding-indexed :
      (s : Slot) (lv : Live Rec Row) (n : ℕ) (m : ℕ → Option ℕ) (b : ℕ)
      → Decoding c d s lv n
      → Decoding c d (record s { ngram = m; ngram_built = b }) lv n
  Decoding-indexed s lv n m b e = record {
    active = e.active;
    running = e.running;
    prompt_ok = record { some_prompt = e.prompt_ok.some_prompt; fits = e.prompt_ok.fits };
    run = record { read_all = e.run.read_all; position = e.run.position; state = e.run.state };
    generated = record {
      tokens = e.generated.tokens;
      count = e.generated.count;
      no_eos = e.generated.no_eos;
    };
    sampled = e.sampled;
    room = e.room;
    wanted = e.wanted;
  }

  -- On a slot that decodes, specDraft leaves it decoding at its position, and a draft of two or
  -- more tokens starts with the slot's last token and stays within the draft width, the context
  -- and the token limit.
  pub spec_draft-Drafted :
      (s : Slot) (lv : Live Rec Row) (n : ℕ)
      → Decoding c d s lv n
      → Decoding c d (spec_draft c s).0 lv n
        × (2 ≤ length (spec_draft c s).1 → Drafted (spec_draft c s).0 (spec_draft c s).1)
        × ((spec_draft c s).0.pos ≡ s.pos)
  unfolding spec_draft
  spec_draft-Drafted s lv n e = elim (Bool-cases (ltb (history_size s) (c.spec_l + 1))) [
    | inl short ↦ rw short (e, (λ h. absurd (omega arith)), refl)
    | inr go ↦
        let from = max s.ngram_built c.spec_l in
        let m = index_grams c s (history_size s - from) from s.ngram in
        let e' = Decoding-indexed s lv n m (history_size s) e in
        rw go (
          e',
          (λ h.
              let q = draft_at-Drafted s lv n (m (gram_hash c s (history_size s))) e h in
              record {
                rest = q.rest;
                starts = q.starts;
                small = q.small;
                in_context = q.in_context;
                in_request = q.in_request;
              }),
          refl,
        )
  ]
