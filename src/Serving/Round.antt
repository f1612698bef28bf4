-- ===== src/Serving/Round.antt =====
-- A verify round keeps a slot's status: speculation commits what greedy decoding generates.
use qwen_kernel.Prelude.{
  ◌+◌, ◌≤◌, ◌<◌, ◌≡◌, ◌∙◌, ◌⊎◌, ◌||◌, ◌++◌, ◌==◌, ℕ, zero, suc, refl, sym, ap, ap₂, subst, inl, inr,
  Bool, true, false, List, arith, leb, Bool-cases, length, take, length-take_le, take_all, done,
}
use qwen_kernel.Device.{Device, IsFaithful, Live, feeds, feeds_ids}
use qwen_kernel.Device.Agree.{Agree, Agree-le, Agree-refl, feeds-Agree}
use qwen_kernel.Device.Steps.{feeds_kv_below}
use qwen_kernel.Greedy.{Trace, after, begin, greedy}
use qwen_kernel.Greedy.Laws.{after-add, greedy-add, length-greedy}
use qwen_kernel.Prefill.{bad_args, prefill_batch, promote_scratch, verify_round}
use qwen_kernel.PrefixCache.{PrefixCache}
use qwen_kernel.Serving.Cases.{last_of, last_of-snoc, take_tokens-Took}
use qwen_kernel.Serving.Status.{Decoding, HasPrompt, HasRun, HasTokens, Status, decoding, ended}
use qwen_kernel.Serving.Steps.{NoEos-append, finish-Over}
use qwen_kernel.Slot.{Lane, Params, Slot}
use qwen_kernel.Speculate.{Accepted, end_round, settle, take_tokens}
use qwen_kernel.Speculate.Accept.{Commits}

-- The arguments of a batched pass are in range, on an engine that owns all layers.
pub record Fits (c : Params) (idx pos n : ℕ) : Type 0 where
  pub whole_first : c.l_first ≡ 0
  pub whole_last : c.l_end ≡ c.n_layer
  pub slot_ok : idx < c.n_slots
  pub some_tokens : 1 ≤ n
  pub in_batch : n ≤ c.max_b
  pub in_context : pos + n ≤ c.n_ctx

pub bad_args-Fits :
    (c : Params) (idx pos n : ℕ) (head : Bool)
    → Fits c idx pos n
    → bad_args c n idx pos head ≡ false
bad_args-Fits c idx pos n head h = ground arith

module _ {Rec Row : Type 0} (c : Params) (d : Device Rec Row) (f : IsFaithful d) where
  -- A verify round runs the draft on the scratch stripes; the live ones stay.
  pub verify_round-Fits :
      (idx pos : ℕ) (lv : Live Rec Row) (toks : List ℕ)
      → Fits c idx pos (length toks)
      → 1 ≤ pos
      → verify_round c d idx lv toks pos
        ≡ done (record {
          live = record { rec = lv.rec; kv = (feeds d lv toks pos).kv };
          scratch = (feeds d lv toks pos).rec;
          ids = feeds_ids d lv toks pos;
        })
  unfolding verify_round
  verify_round-Fits idx pos lv toks h p =
      let fresh : (pos == 0) ≡ false = ground arith in
      rw (
        bad_args-Fits c idx pos (length toks) true h,
        fresh,
        f.batch_serial lv toks pos,
        f.ids_serial lv toks pos,
      )

  -- Over a faithful device, on an engine that owns all layers, when a batch within bounds was
  -- verified behind at least one token, committing 1 to all of its tokens, by promoting the
  -- scratch stripe or by running the accepted ones again, returns, and leaves the state of feeding
  -- just those tokens.
  pub settle-Agree :
      (idx pos k : ℕ) (lv : Live Rec Row) (toks : List ℕ)
      → Fits c idx pos (length toks)
      → 1 ≤ pos
      → 1 ≤ k
      → k ≤ length toks
      → (lv' : Live Rec Row) × (settle c d idx pos toks k (record {
        live = record { rec = lv.rec; kv = (feeds d lv toks pos).kv };
        scratch = (feeds d lv toks pos).rec;
        ids = feeds_ids d lv toks pos;
      })
          ≡ done lv')
        × Agree (pos + k) lv' (feeds d lv (take k toks) pos)
  unfolding settle promote_scratch prefill_batch
  settle-Agree idx pos k lv toks h p k1 kn = elim (Bool-cases (k == length toks)) [
    | inl all ↦
        let same : toks ≡ take k toks = sym (take_all k toks (ground arith)) in
        (feeds d lv toks pos, rw all, ap_agree same)
    | inr part ↦
        let garbage : Live Rec Row = record { rec = lv.rec; kv = (feeds d lv toks pos).kv } in
        let fresh : (pos == 0) ≡ false = ground arith in
        let size = length-take_le k toks kn in
        let fits : Fits c idx pos (length (take k toks)) = record {
          whole_first = h.whole_first;
          whole_last = h.whole_last;
          slot_ok = h.slot_ok;
          some_tokens = omega (arith, size);
          in_batch = let b = h.in_batch in omega (arith, size);
          in_context = let b = h.in_context in omega (arith, size);
        } in
        let below : Agree pos garbage lv = record {
          same_rec = refl;
          same_kv = λ i l. feeds_kv_below d lv toks pos i l;
        } in
        (
          feeds d garbage (take k toks) pos,
          rw (
            part,
            bad_args-Fits c idx pos (length (take k toks)) false fits,
            fresh,
            f.batch_serial garbage (take k toks) pos,
          ),
          Agree-le (omega (arith, size)) (feeds-Agree d f (take k toks) pos below),
        )
  ]
    where
      ap_agree :
          {us : List ℕ} → toks ≡ us → Agree (pos + k) (feeds d lv toks pos) (feeds d lv us pos)
      ap_agree e =
          subst (λ us. Agree (pos + k) (feeds d lv toks pos) (feeds d lv us pos)) e
            (Agree-refl (pos + k) _)

  -- A slot whose round is committed and not yet ended: n generated tokens are fed, g are there.
  pub record Committed (s : Slot) (lv : Live Rec Row) (eos_hit : Bool) (n g : ℕ) : Type 0 where
    pub active : s.active ≡ true
    pub running : s.fin_pending ≡ false
    pub prompt_ok : HasPrompt c s
    pub run : HasRun c d s lv n
    pub generated : HasTokens c d s g
    pub wanted : n < s.max_gen
    pub next :
        ((eos_hit ≡ false) × (g ≡ suc n) × (s.last ≡ (after d (begin d s.prompt) (suc n)).next))
        ⊎ ((eos_hit ≡ true) × (g ≡ n) × ((after d (begin d s.prompt) (suc n)).next ≡ c.eos))

  pub end_round-Status :
      (k : PrefixCache Rec Row) (l : Lane Rec Row) (eos_hit : Bool) (n g : ℕ)
      → Committed l.slot l.live eos_hit n g
      → Status c d (end_round c d eos_hit k l).1.slot (end_round c d eos_hit k l).1.live
  unfolding end_round
  end_round-Status k l eos_hit n g h = elim h.next [
    | inl (no_eos, more, same) ↦
        elim (Bool-cases (leb l.slot.max_gen l.slot.gen || leb c.n_ctx l.slot.pos)) [
          | inl stop ↦
              rw (no_eos, stop, end_round)
                (ended g
                  (finish-Over c d l g h.prompt_ok h.generated (ground arith) (ground arith)))
          | inr go ↦
              rw (no_eos, go, end_round)
                (decoding n (record {
                  active = h.active;
                  running = h.running;
                  prompt_ok = h.prompt_ok;
                  run = h.run;
                  generated = rw (← more) h.generated;
                  sampled = same;
                  room = ground arith;
                  wanted = ground arith;
                }))
        ]
    | inr (hit, same, next) ↦
        rw (hit, end_round)
          (ended g
            (finish-Over c d l g h.prompt_ok h.generated (ground arith) (inr (inr (rw same next)))))
  ]

  last_of-greedy :
      (x : ℕ) (tr : Trace Rec Row) (j : ℕ) → 1 ≤ j → last_of x (greedy d tr j) ≡ (after d tr j).next
  unfolding greedy
  last_of-greedy x tr zero h = absurd (omega arith)
  last_of-greedy x tr (suc j) h = last_of-snoc x (greedy d tr j) (after d tr (suc j)).next

  -- The lane of a round before its end, from the tokens that the round commits.
  unfoldable pub round_lane : Lane Rec Row → Live Rec Row → Accepted → List ℕ → Lane Rec Row
  round_lane l lv a ids =
      let l' =
        take_tokens c.chunk
          (record l { live = lv; slot = record (l.slot) { pos = l.slot.pos + a.fed } })
          (take a.emitted ids) in
      record l' {
        slot = record (l'.slot) {
          spec_rounds = l'.slot.spec_rounds + 1;
          spec_fed = l'.slot.spec_fed + a.fed;
          spec_emitted = l'.slot.spec_emitted + a.emitted;
        };
      }

  pub round_lane-Committed :
      (l : Lane Rec Row) (lv : Live Rec Row) (n : ℕ) (a : Accepted) (toks ids : List ℕ)
      → Decoding c d l.slot l.live n
      → suc n + length toks ≤ l.slot.max_gen
      → Commits d c.eos (after d (begin d l.slot.prompt) (suc n)) toks ids a
      → Agree (l.slot.pos + a.fed) lv (after d (after d (begin d l.slot.prompt) (suc n)) a.fed).live
      → Committed
          (round_lane l lv a ids).slot
          (round_lane l lv a ids).live
          a.eos_hit
          (n + a.fed)
          (suc n + a.emitted)
  unfolding round_lane
  round_lane-Committed l lv n a toks ids e m h s =
      let b = begin d l.slot.prompt in
      let tr = after d b (suc n) in
      let l0 : Lane Rec Row = record l {
        live = lv;
        slot = record (l.slot) { pos = l.slot.pos + a.fed };
      } in
      let t = take_tokens-Took c.chunk l0 (take a.emitted ids) in
      let size : length (take a.emitted ids) ≡ a.emitted =
        ap length h.tokens ∙ length-greedy d tr a.emitted in
      let runs : after d tr a.fed ≡ after d b (suc (n + a.fed)) =
        after-add d b (suc n) a.fed ∙ ap (after d b) (omega arith) in
      record {
        active = t.active ∙ e.active;
        running = t.fin_pending ∙ e.running;
        prompt_ok = record {
          some_prompt = rw t.prompt e.prompt_ok.some_prompt;
          fits = rw t.prompt e.prompt_ok.fits;
        };
        run = record {
          read_all = rw (t.cursor, t.prompt) e.run.read_all;
          position = rw (t.pos, t.prompt) (let q = e.run.position in omega arith);
          state = rw (t.prompt, t.live, t.pos) (rw (← runs) s);
        };
        generated = record {
          tokens =
              rw (t.gen_tokens, t.prompt)
                (ap₂ (λ us vs. us ++ vs) e.generated.tokens h.tokens
                  ∙ sym (greedy-add d b (suc n) a.emitted));
          count = rw t.gen (let q = e.generated.count in omega (arith, size));
          no_eos = rw t.gen_tokens (NoEos-append c.eos _ _ e.generated.no_eos h.no_eos);
        };
        wanted = rw t.max_gen (let q = h.fed_within in omega arith);
        next = elim h.ending [
          | inl (more, same) ↦ inl (
            more,
            omega arith,
            rw (t.last, t.prompt, h.tokens, same)
                (last_of-greedy l.slot.last tr a.fed h.some_fed ∙ ap (λ u. u.next) runs),
          )
          | inr (hit, more, next) ↦
              inr (hit, omega arith, rw t.prompt (ap (λ u. u.next) (sym runs) ∙ next))
        ];
      }

  pub round_lane-prompt :
      (l : Lane Rec Row) (lv : Live Rec Row) (a : Accepted) (ids : List ℕ)
      → (round_lane l lv a ids).slot.prompt ≡ l.slot.prompt
  unfolding round_lane
  round_lane-prompt l lv a ids = (take_tokens-Took c.chunk _ (take a.emitted ids)).prompt

  pub round_lane-pos :
      (l : Lane Rec Row) (lv : Live Rec Row) (a : Accepted) (ids : List ℕ)
      → (round_lane l lv a ids).slot.pos ≡ l.slot.pos + a.fed
  unfolding round_lane
  round_lane-pos l lv a ids = (take_tokens-Took c.chunk _ (take a.emitted ids)).pos
