-- ===== src/Device/Agree.antt =====
-- Two slot states that no later step can tell apart: equal recurrent state, and equal K/V rows
-- below the position that comes next. Rejected drafts leave garbage rows above it.
use qwen_kernel.Prelude.{
  ◌+◌, ◌≤◌, ◌<◌, ◌≡◌, ◌∙◌, ◌∷◌, ◌==◌, ℕ, refl, sym, ap, inl, inr, List, [], arith, Bool-cases,
  length,
}
use qwen_kernel.Device.{Device, IsFaithful, Live, feed, feeds, feeds_ids, sampled}

pub record Agree {Rec Row : Type 0} (p : ℕ) (a b : Live Rec Row) : Type 0 where
  pub same_rec : a.rec ≡ b.rec
  pub same_kv : (i : ℕ) → i < p → a.kv i ≡ b.kv i

module _ {Rec Row : Type 0} where
  pub Agree-refl : (p : ℕ) (a : Live Rec Row) → Agree p a a
  Agree-refl p a = record { same_rec = refl; same_kv = λ i h. refl }

  pub Agree-trans : {p : ℕ} {a b c : Live Rec Row} → Agree p a b → Agree p b c → Agree p a c
  Agree-trans h k = record {
    same_rec = h.same_rec ∙ k.same_rec;
    same_kv = λ i l. h.same_kv i l ∙ k.same_kv i l;
  }

  pub Agree-sym : {p : ℕ} {a b : Live Rec Row} → Agree p a b → Agree p b a
  Agree-sym h = record { same_rec = sym h.same_rec; same_kv = λ i l. sym (h.same_kv i l) }

  pub Agree-le : {p q : ℕ} {a b : Live Rec Row} → q ≤ p → Agree p a b → Agree q a b
  Agree-le l h = record { same_rec = h.same_rec; same_kv = λ i k. h.same_kv i (omega arith) }

module _ {Rec Row : Type 0} (d : Device Rec Row) (f : IsFaithful d) where
  -- A step on agreeing states gives agreeing states, one position further.
  pub feed-Agree :
      {a b : Live Rec Row} (t p : ℕ) → Agree p a b → Agree (p + 1) (feed d a t p) (feed d b t p)
  unfolding feed
  feed-Agree {a} {b} t p h = record {
    same_rec =
        ap (λ r. d.rec_of r a.kv t p) h.same_rec ∙ f.rec_causal b.rec a.kv b.kv t p h.same_kv;
    same_kv = λ i l. elim (Bool-cases (i == p)) [
      | inl e ↦ rw e row
      | inr e ↦ rw e (h.same_kv i (ground arith))
    ];
  }
    where
      row : d.row_of a.rec a.kv t p ≡ d.row_of b.rec b.kv t p
      row = ap (λ r. d.row_of r a.kv t p) h.same_rec ∙ f.row_causal b.rec a.kv b.kv t p h.same_kv

  -- And the same greedy token.
  pub sampled-Agree :
      {a b : Live Rec Row} (t p : ℕ) → Agree p a b → sampled d a t p ≡ sampled d b t p
  unfolding sampled
  sampled-Agree {a} {b} t p h =
      ap (λ r. d.argmax_of r a.kv t p) h.same_rec ∙ f.argmax_causal b.rec a.kv b.kv t p h.same_kv

  pub feeds-Agree :
      (ts : List ℕ) (p : ℕ) {a b : Live Rec Row}
      → Agree p a b
      → Agree (p + length ts) (feeds d a ts p) (feeds d b ts p)
  unfolding feeds
  feeds-Agree [] p h = Agree-le (omega arith) h
  feeds-Agree (t ∷ ts) p h = Agree-le (omega arith) (feeds-Agree ts (p + 1) (feed-Agree t p h))

  pub feeds_ids-Agree :
      (ts : List ℕ) (p : ℕ) {a b : Live Rec Row}
      → Agree p a b
      → feeds_ids d a ts p ≡ feeds_ids d b ts p
  unfolding feeds_ids
  feeds_ids-Agree [] p h = refl
  feeds_ids-Agree (t ∷ ts) p h =
      rw (sampled-Agree t p h, feeds_ids-Agree ts (p + 1) (feed-Agree t p h))
