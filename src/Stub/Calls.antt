-- ===== src/Stub/Calls.antt =====
-- A request on the stub, from qk_slot_start over any number of qk_step_chunk calls.
use qwen_kernel.Prelude.{
  ◌+◌, ◌-◌, ◌*◌, ◌≤◌, ◌<◌, ◌≡◌, ◌∙◌, ◌⊎◌, ◌∷◌, ◌++◌, ◌==◌, ℕ, zero, suc, min, refl, sym, ap, subst,
  inl, inr, true, false, none, some, List, [], map, append-nil, arith, leb, Bool-cases,
  Option-cases, length, get_elem?, get_or, set, get_elem?-set_self,
}
use qwen_kernel.Gguf.{le}
use qwen_kernel.Stub.{Config, StubEngine, StubSlot, zero_slot}
use qwen_kernel.Stub.Requests.{
  accepted_slot, start_accepted, stub_slot_start, stub_start_error, whole_engine,
}
use qwen_kernel.Stub.Step.{
  StubLane, count_active, fresh_lane, stub_step_chunk, stub_steps, stub_tick,
}
use qwen_kernel.Stub.Stream.{
  Follows, Request, ended, id_after, ids_to, leb-lt, live_slot, n_ids, running, stub_tick-Follows,
}

stub_ticks : ℕ → StubLane → StubLane
unfolding stub_tick
stub_ticks zero l = l
stub_ticks (suc n) l = stub_ticks n (stub_tick l)

get_elem?-map :
    {A B : Type 0} (f : A → B) (xs : List A) (i : ℕ) {x : A}
    → get_elem? xs i ≡ some x
    → get_elem? (map f xs) i ≡ some (f x)
get_elem?-map f [] i e = cc
get_elem?-map f (y ∷ ys) zero e = cc
get_elem?-map f (y ∷ ys) (suc i) e = get_elem?-map f ys i e

stub_steps-stub_ticks :
    (n : ℕ) (ls : List StubLane) (i : ℕ) {l : StubLane}
    → get_elem? ls i ≡ some l
    → get_elem? (stub_steps n ls) i ≡ some (stub_ticks n l)
unfolding stub_steps stub_ticks
stub_steps-stub_ticks zero ls i e = e
stub_steps-stub_ticks (suc n) ls i e =
    stub_steps-stub_ticks n (map stub_tick ls) i (get_elem?-map stub_tick ls i e)

stub_ticks-Follows :
    (k : ℕ) (r : Request) (n : ℕ) (before : List ℕ) (l : StubLane)
    → Follows r n before l
    → Follows r (k + n) before (stub_ticks k l)
unfolding stub_ticks
stub_ticks-Follows zero r n before l f = let e : 0 + n ≡ n = omega arith in rw e f
stub_ticks-Follows (suc k) r n before l f =
    let e : suc k + n ≡ k + (n + 1) = omega arith in
    rw e (stub_ticks-Follows k r (n + 1) before (stub_tick l) (stub_tick-Follows r n before l f))

-- The engine after a call, and what the call handed out for a slot.
unfoldable pub after_call : StubEngine → StubEngine
unfolding stub_step_chunk
after_call e = elim (stub_step_chunk e) [ none ↦ e | some r ↦ r.1.0 ]

unfoldable pub call_out : StubEngine → ℕ → List ℕ
unfolding stub_step_chunk
call_out e i = elim (stub_step_chunk e) [
  | none ↦ []
  | some r ↦ (get_or r.1.1 i (fresh_lane zero_slot)).out
]

-- What so many calls hand out for a slot, and the engine that they leave.
unfoldable pub stub_calls : ℕ → StubEngine → ℕ → List ℕ × StubEngine
unfolding after_call call_out
stub_calls zero e i = ([], e)
stub_calls (suc k) e i = let r = stub_calls k e i in (r.0 ++ call_out r.1 i, after_call r.1)

-- Between two calls: the slot is on the course of its request.
record Course (r : Request) (cfg0 : Config) (n i : ℕ) (before : List ℕ) (e : StubEngine)
    : Type 0 where
  whole : whole_engine e ≡ true
  cfg : e.cfg ≡ cfg0
  slot : StubSlot
  at_slot : get_elem? e.slots i ≡ some slot
  follows : Follows r n before (fresh_lane slot)

get_or-some :
    {A : Type 0} (xs : List A) (i : ℕ) {x : A} (d : A) → get_elem? xs i ≡ some x → get_or xs i d ≡ x
get_or-some [] i d e = cc
get_or-some (y ∷ ys) zero d e = cc
get_or-some (y ∷ ys) (suc i) d e = get_or-some ys i d e

eq_zero : (a : ℕ) → (a == 0) ≡ true → a ≡ 0
eq_zero a h = ground arith

count_active-none :
    (ss : List StubSlot) (i : ℕ) {s : StubSlot}
    → count_active ss ≡ 0
    → get_elem? ss i ≡ some s
    → s.active ≡ false
unfolding count_active
count_active-none [] i z e = cc
count_active-none (t ∷ ts) zero z e = elim (Bool-cases t.active) [
  | inl on ↦ absurd (ground (arith, on))
  | inr off ↦ cc
]
count_active-none (t ∷ ts) (suc i) z e = count_active-none ts i (omega arith) e

-- A lane's output moves to what earlier calls handed out.
Follows-rebase :
    (r : Request) (n : ℕ) (before : List ℕ) (l : StubLane)
    → Follows r n before l
    → Follows r n (before ++ l.out) (fresh_lane l.slot)
Follows-rebase r n before l (running e o more c) =
    running e (append-nil (before ++ l.out) ∙ o) more c
Follows-rebase r n before l (ended e o le) = ended e (append-nil (before ++ l.out) ∙ o) le

Follows-later :
    (r : Request) (k n : ℕ) (before : List ℕ) (s : StubSlot)
    → s.active ≡ false
    → Follows r n before (fresh_lane s)
    → Follows r (k + n) before (fresh_lane s)
Follows-later r k n before s z (running e o more c) =
    let w : false ≡ true = sym z ∙ ap (λ t. t.active) e in cc
Follows-later r k n before s z (ended e o le) = ended e o (omega arith)

lanes_after : StubEngine → List StubLane
unfolding stub_steps
lanes_after e = stub_steps e.cfg.chunk (map fresh_lane e.slots)

stub_step_chunk-idle :
    (e : StubEngine)
    → whole_engine e ≡ true
    → count_active e.slots ≡ 0
    → stub_step_chunk e ≡ some (0, (e, map fresh_lane e.slots))
unfolding stub_step_chunk
stub_step_chunk-idle e w z = rw w (rw z refl)

stub_step_chunk-busy :
    (e : StubEngine)
    → whole_engine e ≡ true
    → (count_active e.slots == 0) ≡ false
    → stub_step_chunk e
      ≡ some (
        count_active e.slots,
        (record e { slots = map (λ l. l.slot) (lanes_after e) }, lanes_after e),
      )
unfolding stub_step_chunk lanes_after
stub_step_chunk-busy e w z = rw w (rw z refl)

call-Course :
    (r : Request) (cfg0 : Config) (n i : ℕ) (before : List ℕ) (e : StubEngine)
    → Course r cfg0 n i before e
    → Course r cfg0 (e.cfg.chunk + n) i (before ++ call_out e i) (after_call e)
unfolding after_call call_out lanes_after
call-Course r cfg0 n i before e c = elim (Bool-cases (count_active e.slots == 0)) [
  | inl z ↦
      let none_active : count_active e.slots ≡ 0 = eq_zero (count_active e.slots) z in
      let out : (get_or (map fresh_lane e.slots) i (fresh_lane zero_slot)).out ≡ [] =
        ap (λ l. l.out)
          (get_or-some (map fresh_lane e.slots) i (fresh_lane zero_slot)
            (get_elem?-map fresh_lane e.slots i c.at_slot)) in
      rw (after_call, call_out, stub_step_chunk-idle e c.whole none_active)
        (rw out (
          rw (append-nil before) (record {
            whole = c.whole;
            cfg = c.cfg;
            slot = c.slot;
            at_slot = c.at_slot;
            follows =
                Follows-later r e.cfg.chunk n before c.slot
                  (count_active-none e.slots i none_active c.at_slot) c.follows;
          })))
  | inr z ↦
      let after : get_elem? (lanes_after e) i ≡ some (stub_ticks e.cfg.chunk (fresh_lane c.slot)) =
        stub_steps-stub_ticks e.cfg.chunk (map fresh_lane e.slots) i
          (get_elem?-map fresh_lane e.slots i c.at_slot) in
      rw (after_call, call_out, stub_step_chunk-busy e c.whole z)
        (rw (get_or-some (lanes_after e) i (fresh_lane zero_slot) after) (record {
          whole = c.whole;
          cfg = c.cfg;
          slot = (stub_ticks e.cfg.chunk (fresh_lane c.slot)).slot;
          at_slot = get_elem?-map (λ l. l.slot) (lanes_after e) i after;
          follows =
              Follows-rebase r (e.cfg.chunk + n) before (stub_ticks e.cfg.chunk (fresh_lane c.slot))
                (stub_ticks-Follows e.cfg.chunk r n before (fresh_lane c.slot) c.follows);
        }))
]

calls-Course :
    (k : ℕ) (r : Request) (i : ℕ) (e : StubEngine)
    → Course r e.cfg 0 i [] e
    → Course r e.cfg (k * e.cfg.chunk) i (stub_calls k e i).0 (stub_calls k e i).1
unfolding stub_calls
calls-Course zero r i e c = let z : 0 * e.cfg.chunk ≡ 0 = omega arith in rw z c
calls-Course (suc k) r i e c =
    let prev : Course r e.cfg (k * e.cfg.chunk) i (stub_calls k e i).0 (stub_calls k e i).1 =
      calls-Course k r i e c in
    let next : suc k * e.cfg.chunk ≡ (stub_calls k e i).1.cfg.chunk + k * e.cfg.chunk =
      omega (arith, ap (λ c. c.chunk) prev.cfg) in
    rw next (call-Course r e.cfg (k * e.cfg.chunk) i (stub_calls k e i).0 (stub_calls k e i).1 prev)

-- The request that qk_slot_start reads.
unfoldable pub request : List ℕ → ℕ → Request
request prompt max_gen = record {
  n_prompt = length prompt;
  last_tok = get_or prompt (length prompt - 1) 0;
  limit = max_gen;
  cut = get_or prompt 0 0 == 7;
}

accepted_slot-live :
    (prompt : List ℕ) (m : ℕ) → accepted_slot prompt m ≡ live_slot (request prompt m) 0
unfolding accepted_slot request id_after
accepted_slot-live prompt m =
    let a : length prompt - 0 ≡ length prompt = omega arith in
    let b : 0 - length prompt ≡ 0 = omega arith in rw (a, b) refl

start_passes :
    (e : StubEngine) (i : ℕ) (prompt : List ℕ) (m : ℕ)
    → stub_start_error e i prompt m ≡ none
    → (whole_engine e ≡ true) × (i < e.cfg.n_slots)
unfolding stub_start_error
start_passes e i prompt m ok = elim (Bool-cases (leb e.cfg.n_slots i)) [
  | inl past ↦ absurd (ground (arith, past))
  | inr within ↦ elim (Bool-cases (whole_engine e)) [
    | inl w ↦ (w, leb-lt e.cfg.n_slots i within)
    | inr w ↦ absurd (ground (arith, within, w))
  ]
]

start-Course :
    (e : StubEngine) (i : ℕ) (prompt : List ℕ) (m : ℕ)
    → length e.slots ≡ e.cfg.n_slots
    → stub_start_error e i prompt m ≡ none
    → Course
        (request prompt m)
        e.cfg
        0
        i
        []
        (record e { slots = set e.slots i (accepted_slot prompt m) })
unfolding ids_to request
start-Course e i prompt m len ok =
    let passes : (whole_engine e ≡ true) × (i < e.cfg.n_slots) = start_passes e i prompt m ok in
    record {
      whole = passes.0;
      cfg = refl;
      slot = accepted_slot prompt m;
      at_slot = get_elem?-set_self e.slots i (accepted_slot prompt m) (omega (arith, passes.1));
      follows =
          running (accepted_slot-live prompt m)
            (let z : 0 - length prompt ≡ 0 = omega arith in rw (request, z) refl)
            (inl (omega arith)) (λ _. omega arith);
    }

n_ids-above : (r : Request) (g : ℕ) → (g ≡ 0) ⊎ (g < r.limit) → (r.cut ≡ true → g ≤ 3) → g ≤ n_ids r
n_ids-above r g more c = elim more [ inl e ↦ ground arith | inr e ↦ ground arith ]

-- What was handed out once so many steps have passed, and that the slot is free in the end.
Follows-Served :
    (r : Request) (n : ℕ) (before : List ℕ) (s : StubSlot)
    → Follows r n before (fresh_lane s)
    → (before ≡ ids_to r.last_tok (min (n_ids r) (n - r.n_prompt)))
      × (r.n_prompt + n_ids r < n → s.active ≡ false)
Follows-Served r n before s (running e o more c) =
    let above : n - r.n_prompt ≤ n_ids r = n_ids-above r (n - r.n_prompt) more c in
    (
      sym (append-nil before) ∙ o ∙ ap (ids_to r.last_tok) (omega (arith, above)),
      λ past. absurd (omega (arith, above, past)),
    )
Follows-Served r n before s (ended e o le) =
    (sym (append-nil before) ∙ o ∙ ap (ids_to r.last_tok) (omega (arith, le)), λ past. e)

accepted_is :
    (e e' : StubEngine) (i : ℕ) (prompt : List ℕ) (m : ℕ)
    → stub_start_error e i prompt m ≡ none
    → stub_slot_start e i prompt m ≡ start_accepted e'
    → record e { slots = set e.slots i (accepted_slot prompt m) } ≡ e'
unfolding stub_slot_start
accepted_is e e' i prompt m passes ok =
    let started : stub_slot_start e i prompt m
        ≡ start_accepted (record e { slots = set e.slots i (accepted_slot prompt m) }) =
      rw (stub_slot_start, passes) refl in
    start_accepted-injective (sym started ∙ ok)
  where
    start_accepted-injective : {a b : StubEngine} → start_accepted a ≡ start_accepted b → a ≡ b
    start_accepted-injective h = cc

-- After qk_slot_start of the stub accepted a request, on an engine with a slot per configured
-- slot, any number of qk_step_chunk calls hands out for the slot, together, the ids that follow
-- the prompt's last token, as many as steps were made past the prompt, up to the request's number;
-- once the steps exceed the prompt and that number, the slot is free.
pub stub_request-Stream :
    (k : ℕ) (e e' : StubEngine) (i : ℕ) (prompt : List ℕ) (m : ℕ)
    → length e.slots ≡ e.cfg.n_slots
    → stub_slot_start e i prompt m ≡ start_accepted e'
    → ((stub_calls k e' i).0
        ≡ ids_to
            (request prompt m).last_tok
            (min (n_ids (request prompt m)) (k * e.cfg.chunk - length prompt)))
      × (length prompt + n_ids (request prompt m) < k * e.cfg.chunk
          → (get_or (stub_calls k e' i).1.slots i zero_slot).active ≡ false)
unfolding stub_slot_start request
stub_request-Stream k e e' i prompt m len ok = elim (Option-cases (stub_start_error e i prompt m)) [
  | inl passes ↦
      let e_is : record e { slots = set e.slots i (accepted_slot prompt m) } ≡ e' =
        accepted_is e e' i prompt m passes ok in
      let c : Course (request prompt m) e.cfg (k * e.cfg.chunk) i (stub_calls k e' i).0
          (stub_calls k e' i).1 =
        subst
          (λ x.
            Course (request prompt m) e.cfg (k * e.cfg.chunk) i (stub_calls k x i).0
              (stub_calls k x i).1)
          e_is
          (calls-Course k (request prompt m) i
            (record e { slots = set e.slots i (accepted_slot prompt m) })
            (start-Course e i prompt m len passes)) in
      let served =
        Follows-Served (request prompt m) (k * e.cfg.chunk) (stub_calls k e' i).0 c.slot
          c.follows in
      (
        served.0,
        λ past. rw (get_or-some (stub_calls k e' i).1.slots i zero_slot c.at_slot) (served.1 past),
      )
  | inr r ↦ absurd (ground (arith, r.1))
]
