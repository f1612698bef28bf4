-- ===== src/Serving/Emission.antt =====
-- The output of a slot: what is handed out in order, and what waits in outQ.
use qwen_kernel.Prelude.{
  ◌+◌, ◌≤◌, ◌≡◌, ◌∙◌, ◌⊎◌, ◌∷◌, ◌++◌, ℕ, suc, refl, sym, ap, inl, inr, List, [], append-nil,
  append_assoc, arith, ltb, Bool-cases, length, take, length-append, drop_all, drop-append_left,
}
use qwen_kernel.Serving.Cases.{emit_tok_cases, finish_cases, noted}
use qwen_kernel.Slot.{Lane, drain_from, finish, pending, reset_spec}
use qwen_kernel.Speculate.{take_token, take_tokens}

module _ {Rec Row : Type 0} (chunk : ℕ) where
  -- A lane within a call, after `sent` went out in earlier calls: what was sent, what this call
  -- hands out and what waits are the generated tokens, and nothing waits while the call has room.
  pub record Delivers (sent : List ℕ) (l : Lane Rec Row) : Type 0 where
    pub head_ok : l.slot.out_q_head ≤ length l.slot.out_q
    pub at_most : length l.out ≤ chunk
    pub in_order : (pending l.slot ≡ []) ⊎ (chunk ≤ length l.out)
    pub all_tokens : sent ++ l.out ++ pending l.slot ≡ l.slot.gen_tokens

  -- The same before the call's drain: nothing handed out yet.
  pub record Waits (sent : List ℕ) (l : Lane Rec Row) : Type 0 where
    pub head_ok : l.slot.out_q_head ≤ length l.slot.out_q
    pub nothing_out : l.out ≡ []
    pub all_tokens : sent ++ pending l.slot ≡ l.slot.gen_tokens

-- How far the drain loop comes.
pub drain_from-take :
    (chunk : ℕ) (rest : List ℕ) (head : ℕ) (out : List ℕ)
    → length out ≤ chunk
    → (j : ℕ) × ((drain_from chunk rest head out).0 ≡ head + j)
      × ((drain_from chunk rest head out).1 ≡ out ++ take j rest)
      × (j ≤ length rest)
      × (length out + j ≤ chunk)
      × ((j ≡ length rest) ⊎ (chunk ≤ length out + j))
unfolding drain_from
drain_from-take chunk [] head out h =
    (0, omega arith, sym (append-nil out), omega arith, omega arith, inl (omega arith))
drain_from-take chunk (t ∷ rest) head out h = elim (Bool-cases (ltb (length out) chunk)) [
  | inr full ↦ (
    0,
    rw full (omega arith),
    rw full (sym (append-nil out)),
    omega arith,
    omega arith,
    inr (ground arith),
  )
  | inl room ↦
      let size = length-append out (t ∷ []) in
      let (j, head_at, out_at, some_left, fits, ends) =
        drain_from-take chunk rest (head + 1) (out ++ t ∷ []) (ground (arith, size)) in
      (
        suc j,
        rw room (omega (arith, head_at)),
        rw room (out_at ∙ append_assoc out (t ∷ []) (take j rest)),
        omega arith,
        omega (arith, size),
        elim ends [ inl whole ↦ inl (omega arith) | inr full ↦ inr (omega (arith, size)) ],
      )
]

module _ {Rec Row : Type 0} (chunk : ℕ) where
  -- `finish` frees a lane with nothing left in its queue.
  pub finish-Delivers :
      (sent : List ℕ) (l : Lane Rec Row) → Delivers chunk sent l → Delivers chunk sent (finish l)
  unfolding reset_spec
  finish-Delivers sent l h = finish_cases (Delivers chunk sent) l h (λ _ dry.
      let empty : pending l.slot ≡ [] = drop_all l.slot.out_q_head l.slot.out_q dry in
      record {
        head_ok = omega arith;
        at_most = h.at_most;
        in_order = inl refl;
        all_tokens = ap (λ q. sent ++ l.out ++ q) (sym empty) ∙ h.all_tokens;
      })

  -- Emitting one more token.
  pub take_token-Delivers :
      (sent : List ℕ) (l : Lane Rec Row) (t : ℕ)
      → Delivers chunk sent l
      → Delivers chunk sent (take_token chunk l t)
  unfolding take_token
  take_token-Delivers sent l t h =
      let whole = h.all_tokens in
      let fits = h.at_most in
      let head_ok = h.head_ok in
      emit_tok_cases (Delivers chunk sent) chunk t (noted l t)
        (λ room.
          let empty : pending l.slot ≡ [] = elim h.in_order [
            | inl e ↦ e
            | inr full ↦ absurd (omega arith)
          ] in
          record {
            head_ok = head_ok;
            at_most = omega (arith, length-append l.out (t ∷ []));
            in_order = inl empty;
            all_tokens =
                ap (λ q. sent ++ (l.out ++ t ∷ []) ++ q) empty
                ∙ append-nil (sent ++ (l.out ++ t ∷ []))
                ∙ sym (append_assoc sent l.out (t ∷ []))
                ∙ ap (λ q. q ++ t ∷ []) (sym (append-nil (sent ++ l.out)))
                ∙ ap (λ q. sent ++ l.out ++ q ++ t ∷ []) (sym empty)
                ∙ ap (λ q. q ++ t ∷ []) whole;
          })
        (λ full.
          let more = drop-append_left l.slot.out_q_head l.slot.out_q (t ∷ []) head_ok in
          record {
            head_ok = omega (arith, length-append l.slot.out_q (t ∷ []));
            at_most = fits;
            in_order = inr full;
            all_tokens =
                ap (λ q. sent ++ l.out ++ q) more
                ∙ sym (append_assoc (sent ++ l.out) (pending l.slot) (t ∷ []))
                ∙ ap (λ q. q ++ t ∷ []) whole;
          })

  -- Taking tokens keeps what was sent, handed out and waiting equal to the generated tokens, in
  -- order, with at most `chunk` tokens handed out and nothing waiting while there is room.
  pub take_tokens-Delivers :
      (sent : List ℕ) (ts : List ℕ) (l : Lane Rec Row)
      → Delivers chunk sent l
      → Delivers chunk sent (take_tokens chunk l ts)
  unfolding take_tokens
  take_tokens-Delivers sent [] l h = h
  take_tokens-Delivers sent (t ∷ ts) l h =
      take_tokens-Delivers sent ts (take_token chunk l t) (take_token-Delivers sent l t h)

  -- Only the queue, the output and the generated tokens count.
  pub Delivers-same :
      (sent : List ℕ) (l l' : Lane Rec Row)
      → l'.slot.out_q ≡ l.slot.out_q
      → l'.slot.out_q_head ≡ l.slot.out_q_head
      → l'.slot.gen_tokens ≡ l.slot.gen_tokens
      → l'.out ≡ l.out
      → Delivers chunk sent l
      → Delivers chunk sent l'
  Delivers-same sent l l' q p g o h = record {
    head_ok = rw (q, p) h.head_ok;
    at_most = rw o h.at_most;
    in_order = rw (q, p, o) h.in_order;
    all_tokens = rw (q, p, o, g) h.all_tokens;
  }
