-- ===== src/Greedy/Laws.antt =====
-- Laws of greedy decoding: runs compose, and the state of a run is the state of feeding its tokens.
use qwen_kernel.Prelude.{
  ◌+◌, ◌-◌, ◌≤◌, ◌<◌, ◌≡◌, ◌∙◌, ◌∷◌, ◌++◌, ℕ, zero, suc, refl, sym, ap, ap₂, List, [], append-nil,
  append_assoc, arith, length, get_or, take, length-append, length-take_le, take_all, take-suc,
  take-append_left,
}
use qwen_kernel.Device.{Device, Live, feed, feeds, reset_live}
use qwen_kernel.Device.Steps.{feeds-append}
use qwen_kernel.Greedy.{Trace, advance, after, begin, greedy}

module _ {Rec Row : Type 0} (d : Device Rec Row) where
  pub after-add : (t : Trace Rec Row) (n m : ℕ) → after d (after d t n) m ≡ after d t (n + m)
  unfolding after
  after-add t n zero = ap (after d t) (omega_zero n)
    where
      omega_zero : (n : ℕ) → n ≡ n + 0
      omega_zero n = omega arith
  after-add t n (suc m) =
      let e : n + suc m ≡ suc (n + m) = omega arith in rw e (ap (advance d) (after-add t n m))

  pub after-at : (t : Trace Rec Row) (n : ℕ) → (after d t n).at ≡ t.at + n
  unfolding after advance
  after-at t zero = omega arith
  after-at t (suc n) = omega (arith, after-at t n)

  pub length-greedy : (t : Trace Rec Row) (n : ℕ) → length (greedy d t n) ≡ n
  unfolding greedy
  length-greedy t zero = refl
  length-greedy t (suc n) =
      omega (arith, length-append (greedy d t n) ((after d t (suc n)).next ∷ []), length-greedy t n)

  -- A longer run generates the tokens of the shorter one, and then those of the run that goes on.
  pub greedy-add :
      (t : Trace Rec Row) (n m : ℕ) → greedy d t (n + m) ≡ greedy d t n ++ greedy d (after d t n) m
  unfolding greedy
  greedy-add t n zero = let e : n + 0 ≡ n = omega arith in rw e (sym (append-nil (greedy d t n)))
  greedy-add t n (suc m) =
      let e : n + suc m ≡ suc (n + m) = omega arith in
      rw (e, greedy-add t n m, append_assoc, after-add t n (suc m), e) refl

  pub take-greedy : (t : Trace Rec Row) (n m : ℕ) → n ≤ m → take n (greedy d t m) ≡ greedy d t n
  take-greedy t n m h =
      let e : m ≡ n + (m - n) = omega arith in
      rw (e, greedy-add t n (m - n))
        (take-append_left n (greedy d t n) (greedy d (after d t n) (m - n))
            (omega (arith, length-greedy t n))
          ∙ take_all n (greedy d t n) (omega (arith, length-greedy t n)))

  -- The run as a feed of the tokens that it reads.
  pub feeds-take-suc :
      (lv : Live Rec Row) (ts : List ℕ) (n : ℕ)
      → n < length ts
      → feeds d lv (take (suc n) ts) 0 ≡ feed d (feeds d lv (take n ts) 0) (get_or ts n 0) n
  unfolding feeds
  feeds-take-suc lv ts n h =
      rw
        (
          take-suc n ts 0 h,
          feeds-append d lv (take n ts) (get_or ts n 0 ∷ []) 0,
          length-take_le n ts (omega arith),
        )
        (ap (feed d (feeds d lv (take n ts) 0) (get_or ts n 0)) (omega arith))

module _ {Rec Row : Type 0} (d : Device Rec Row) (prompt : List ℕ)
    (some_prompt : 1 ≤ length prompt) where
  first_live : (after d (begin d prompt) 1).live ≡ feeds d (reset_live d) prompt 0
  unfolding after advance begin
  first_live =
      let n = length prompt - 1 in
      let whole : take (suc n) prompt ≡ prompt = take_all (suc n) prompt (omega arith) in
      sym (feeds-take-suc d (reset_live d) prompt n (omega arith))
      ∙ ap (λ ts. feeds d (reset_live d) ts 0) whole

  feeds_snoc :
      (lv : Live Rec Row) (ts : List ℕ) (t p : ℕ)
      → length ts ≡ p
      → feeds d lv (ts ++ t ∷ []) 0 ≡ feed d (feeds d lv ts 0) t p
  unfolding feeds
  feeds_snoc lv ts t p e =
      let e' : 0 + length ts ≡ p = omega arith in
      feeds-append d lv ts (t ∷ []) 0 ∙ ap (feed d (feeds d lv ts 0) t) e'

  pub begin-at : (n : ℕ) → (after d (begin d prompt) (suc n)).at ≡ length prompt + n
  unfolding begin
  begin-at n = omega (arith, after-at d (begin d prompt) (suc n))

  -- After n + 1 steps the slot has read the prompt and the first n generated tokens.
  pub after-begin :
      (n : ℕ)
      → (after d (begin d prompt) (suc n)).live
        ≡ feeds d (reset_live d) (prompt ++ greedy d (begin d prompt) n) 0
  unfolding greedy after advance
  after-begin zero = first_live ∙ ap (λ ts. feeds d (reset_live d) ts 0) (sym (append-nil prompt))
  after-begin (suc n) =
      let t = after d (begin d prompt) (suc n) in
      let ts = prompt ++ greedy d (begin d prompt) n in
      ap₂ (λ lv p. feed d lv t.next p) (after-begin n) (begin-at n)
      ∙ sym (
          feeds_snoc (reset_live d) ts t.next (length prompt + n) (
            omega (
              arith,
              length-append prompt (greedy d (begin d prompt) n),
              length-greedy d (begin d prompt) n,
            )))
      ∙ ap (λ us. feeds d (reset_live d) us 0)
          (append_assoc prompt (greedy d (begin d prompt) n) (t.next ∷ []))

module _ {Rec Row : Type 0} (d : Device Rec Row) where
  -- A run seen from its first step.
  pub after-advance : (t : Trace Rec Row) (n : ℕ) → after d (advance d t) n ≡ after d t (suc n)
  unfolding after
  after-advance t zero = refl
  after-advance t (suc n) = ap (advance d) (after-advance t n)

  pub greedy-advance :
      (t : Trace Rec Row) (n : ℕ)
      → greedy d t (suc n) ≡ (advance d t).next ∷ greedy d (advance d t) n
  unfolding greedy after
  greedy-advance t zero = refl
  greedy-advance t (suc n) = rw (greedy-advance t n) (
      ap (λ u. (advance d t).next ∷ (greedy d (advance d t) n ++ u.next ∷ []))
        (sym (ap (advance d) (after-advance t n))))
