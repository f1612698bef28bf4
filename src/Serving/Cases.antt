-- ===== src/Serving/Cases.antt =====
-- Case analysis on the lane operations that branch: `finish`, `emit_tok`, the end of a step.
use qwen_kernel.Prelude.{
  ◌+◌, ◌≤◌, ◌<◌, ◌≡◌, ◌∙◌, ◌&&◌, ◌∷◌, ◌++◌, ℕ, refl, sym, ap, inl, inr, true, false, List, [],
  append-nil, append_assoc, arith, ltb, leb, Bool-cases, length, length-append,
}
use qwen_kernel.Slot.{Lane, emit_tok, finish, reset_spec}
use qwen_kernel.Speculate.{take_token, take_tokens}

abbrev pub freed : {Rec Row : Type 0} → Lane Rec Row → Lane Rec Row
freed l = record l { slot = record (reset_spec l.slot) { active = false }; fin = true }

module _ {ℓ} {Rec Row : Type 0} (P : Lane Rec Row → Type ℓ) where
  pub finish_cases :
      (l : Lane Rec Row)
      → P l
      → (l.slot.fin_pending ≡ true → length l.slot.out_q ≤ l.slot.out_q_head → P (freed l))
      → P (finish l)
  unfolding finish
  finish_cases l kept free =
      elim (Bool-cases (l.slot.fin_pending && leb (length l.slot.out_q) l.slot.out_q_head)) [
        | inl e ↦ rw (e, finish) (free (ground arith) (ground arith))
        | inr e ↦ rw (e, finish) kept
      ]

  pub emit_tok_cases :
      (chunk t : ℕ) (l : Lane Rec Row)
      → (length l.out < chunk → P (record l { out = l.out ++ t ∷ [] }))
      → (chunk ≤ length l.out
          → P (record l { slot = record (l.slot) { out_q = l.slot.out_q ++ t ∷ [] } }))
      → P (emit_tok chunk l t)
  unfolding emit_tok
  emit_tok_cases chunk t l fits full = elim (Bool-cases (ltb (length l.out) chunk)) [
    | inl e ↦ rw (e, emit_tok) (fits (ground arith))
    | inr e ↦ rw (e, emit_tok) (full (ground arith))
  ]

-- What an accepted token changes, apart from where it is emitted.
abbrev pub noted : {Rec Row : Type 0} → Lane Rec Row → ℕ → Lane Rec Row
noted l t = record l {
  slot = record (l.slot) {
    gen_tokens = l.slot.gen_tokens ++ t ∷ [];
    last = t;
    gen = l.slot.gen + 1;
  };
}

-- The last of the tokens, or the one before them.
pub last_of : ℕ → List ℕ → ℕ
last_of x [] = x
last_of x (t ∷ ts) = last_of t ts

pub last_of-snoc : (x : ℕ) (ts : List ℕ) (t : ℕ) → last_of x (ts ++ t ∷ []) ≡ t
unfolding last_of
last_of-snoc x [] t = refl
last_of-snoc x (u ∷ ts) t = last_of-snoc u ts t

last_of-append : (x : ℕ) (ts us : List ℕ) → last_of x (ts ++ us) ≡ last_of (last_of x ts) us
unfolding last_of
last_of-append x [] us = refl
last_of-append x (t ∷ ts) us = last_of-append t ts us

module _ {Rec Row : Type 0} where
  -- What taking tokens does to the fields of a lane other than its output.
  pub record Took (l l' : Lane Rec Row) (ts : List ℕ) : Type 0 where
    pub live : l'.live ≡ l.live
    pub active : l'.slot.active ≡ l.slot.active
    pub fin_pending : l'.slot.fin_pending ≡ l.slot.fin_pending
    pub prompt : l'.slot.prompt ≡ l.slot.prompt
    pub cursor : l'.slot.cursor ≡ l.slot.cursor
    pub pos : l'.slot.pos ≡ l.slot.pos
    pub max_gen : l'.slot.max_gen ≡ l.slot.max_gen
    pub gen_tokens : l'.slot.gen_tokens ≡ l.slot.gen_tokens ++ ts
    pub gen : l'.slot.gen ≡ l.slot.gen + length ts
    pub last : l'.slot.last ≡ last_of l.slot.last ts

  Took-trans :
      {l x y : Lane Rec Row} (ts us : List ℕ) → Took l x ts → Took x y us → Took l y (ts ++ us)
  Took-trans {l} ts us h k = record {
    live = k.live ∙ h.live;
    active = k.active ∙ h.active;
    fin_pending = k.fin_pending ∙ h.fin_pending;
    prompt = k.prompt ∙ h.prompt;
    cursor = k.cursor ∙ h.cursor;
    pos = k.pos ∙ h.pos;
    max_gen = k.max_gen ∙ h.max_gen;
    gen_tokens =
        k.gen_tokens ∙ ap (λ vs. vs ++ us) h.gen_tokens ∙ append_assoc l.slot.gen_tokens ts us;
    gen = let a = h.gen in let b = k.gen in omega (arith, length-append ts us);
    last = k.last ∙ ap (λ v. last_of v us) h.last ∙ sym (last_of-append l.slot.last ts us);
  }

  take_token-Took : (chunk : ℕ) (l : Lane Rec Row) (t : ℕ) → Took l (take_token chunk l t) (t ∷ [])
  unfolding take_token last_of
  take_token-Took chunk l t =
      emit_tok_cases (λ x. Took l x (t ∷ [])) chunk t (noted l t) (λ _. noted_Took)
        (λ _. noted_Took)
    where
      noted_Took :
          {o q : List ℕ}
          → Took l
              (record (noted l t) { slot = record ((noted l t).slot) { out_q = q }; out = o })
              (t ∷ [])
      noted_Took = record {
        live = refl;
        active = refl;
        fin_pending = refl;
        prompt = refl;
        cursor = refl;
        pos = refl;
        max_gen = refl;
        gen_tokens = refl;
        gen = refl;
        last = refl;
      }

  pub take_tokens-Took :
      (chunk : ℕ) (l : Lane Rec Row) (ts : List ℕ) → Took l (take_tokens chunk l ts) ts
  unfolding take_tokens last_of
  take_tokens-Took chunk l [] = record {
    live = refl;
    active = refl;
    fin_pending = refl;
    prompt = refl;
    cursor = refl;
    pos = refl;
    max_gen = refl;
    gen_tokens = sym (append-nil l.slot.gen_tokens);
    gen = omega arith;
    last = refl;
  }
  take_tokens-Took chunk l (t ∷ ts) =
      Took-trans (t ∷ []) ts (take_token-Took chunk l t)
        (take_tokens-Took chunk (take_token chunk l t) ts)
