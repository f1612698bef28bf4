-- ===== src/Serving/Starts.antt =====
-- The prefill of qk_slot_start: the slot has then read a strict prefix of its prompt.
use qwen_kernel.Prelude.{
  ◌+◌, ◌-◌, ◌≤◌, ◌<◌, ◌≡◌, ◌∙◌, ◌≢◌, ◌&&◌, ◌==◌, if◌then◌else◌, ℕ, refl, ap, subst, inl, inr, Bool,
  some, List, arith, ltb, Bool-cases, length, get_elem?, Run, done,
}
use qwen_kernel.Device.{Device, IsFaithful, Live, feeds, reset_live}
use qwen_kernel.Device.Agree.{Agree, Agree-refl}
use qwen_kernel.PrefixCache.{Entry, PrefixCache, entry_size, restore_into, snapshot_slot}
use qwen_kernel.PrefixCache.Coherent.{IsCoherent, restore_into-Holds, snapshot_slot-IsCoherent}
use qwen_kernel.PrefixCache.Match.{match_prefix-Best}
use qwen_kernel.Serving.Capture.{Captured-prefix}
use qwen_kernel.Serving.Loop.{IsWhole}
use qwen_kernel.Serving.Prefills.{HasRead, batch_to-HasRead}
use qwen_kernel.Serving.Status.{Reading}
use qwen_kernel.Slot.{Lane, Params, Slot, reset_spec}
use qwen_kernel.Start.{
  Prefilled, admit, occupied, prefill_batched, prefill_history, prefill_prompt, resident, snap_at,
  start_lane,
}

module _ {Rec Row : Type 0} (c : Params) (d : Device Rec Row) where
  -- A prefill in progress: the stripes have read a strict prefix of the prompt.
  pub record PrefilledOk (prompt : List ℕ) (p : Prefilled Rec Row) : Type 0 where
    pub coherent : IsCoherent d p.cache
    pub inside : p.reached < length prompt
    pub read : HasRead c d prompt p.reached p.live

  entry_size-at :
      (k : PrefixCache Rec Row) (j : ℕ) (e : Entry Rec Row)
      → get_elem? k.entries j ≡ some e
      → entry_size k j ≡ length e.tokens
  unfolding entry_size
  entry_size-at k j e at = rw (at, entry_size)

  -- The slot starts from a reset state or from the longest cached prefix.
  resident-PrefilledOk :
      (k : PrefixCache Rec Row) (lv : Live Rec Row) (prompt : List ℕ)
      → 1 ≤ length prompt
      → IsCoherent d k
      → PrefilledOk prompt (resident c d k lv prompt)
  unfolding resident feeds
  resident-PrefilledOk k lv prompt some_prompt q =
      elim (match_prefix-Best k prompt (length prompt)) [
        | inl (miss, _) ↦
            rw (miss, resident)
              (record { coherent = q; inside = some_prompt; read = Agree-refl 0 (reset_live d) })
        | inr (j, e, hit, at, valid_entry, prefix, longer, shorter, _) ↦
            let (holds, coherent) = restore_into-Holds d k j lv e q at valid_entry in
            rw (hit, entry_size-at k j e at, resident)
              (record {
                coherent = coherent;
                inside = shorter;
                read =
                    subst
                      (λ ts.
                        Agree (length e.tokens) (restore_into k j lv).1
                          (feeds d (reset_live d) ts 0))
                      prefix holds;
              })
      ]

  module _ (f : IsFaithful d) (w : IsWhole c) (idx : ℕ) (slot_ok : idx < c.n_slots)
      (prompt : List ℕ) (fits : length prompt ≤ c.n_ctx) where
    prefill_history-PrefilledOk :
        (s : Slot) (limit : ℕ) (p : Prefilled Rec Row)
        → (limit ≢ 0 → p.reached ≤ limit)
        → limit < length prompt
        → PrefilledOk prompt p
        → (p' : Prefilled Rec Row) × (prefill_history c d idx s prompt limit p ≡ done p')
          × PrefilledOk prompt p'
    unfolding prefill_history
    prefill_history-PrefilledOk s limit p below inside h = elim (Bool-cases (limit == 0)) [
      | inl skip ↦ (p, rw (skip, prefill_history), h)
      | inr go ↦
          let (lv, at, ran, further, within, _, read) =
            batch_to-HasRead c d f w idx slot_ok (c.n_ctx + 1) prompt limit p.reached p.live
              (omega arith) (below (ground arith)) (omega arith) fits h.read in
          let s' : Slot = record s { pos = at; prompt = prompt } in
          let snap = Captured-prefix c d s' lv (omega arith) read in
          elim (Bool-cases (c.share_fork && ltb p.reached at)) [
            | inl share ↦ (
              record {
                cache = snapshot_slot c p.cache s' lv;
                live = lv;
                reached = at;
                snap_pos = at;
              },
              rw (go, ran, share, prefill_history),
              record {
                coherent = snapshot_slot-IsCoherent d c p.cache s' lv h.coherent snap;
                inside = omega arith;
                read = read;
              },
            )
            | inr alone ↦ (
              record p { live = lv; reached = at },
              rw (go, ran, alone, prefill_history),
              record { coherent = h.coherent; inside = omega arith; read = read },
            )
          ]
    ]

    prefill_batched-PrefilledOk :
        (s : Slot) (snap_prefix : ℕ) (p : Prefilled Rec Row)
        → PrefilledOk prompt p
        → (p' : Prefilled Rec Row) × (prefill_batched c d idx s prompt snap_prefix p ≡ done p')
          × PrefilledOk prompt p'
    unfolding prefill_batched
    prefill_batched-PrefilledOk s snap_prefix p h =
        let inside = h.inside in
        let target = length prompt - 1 in
        let limit = snap_at snap_prefix p.reached target in
        let (p1, ran1, h1) =
          prefill_history-PrefilledOk s limit p (λ q. ground arith) (ground arith) h in
        let inside1 = h1.inside in
        let (lv, at, ran2, further, within, _, read) =
          batch_to-HasRead c d f w idx slot_ok (c.n_ctx + 1) prompt target p1.reached p1.live
            (omega arith) (omega arith) (omega arith) fits h1.read in
        (
          record p1 { live = lv; reached = at },
          rw (ran1, ran2, prefill_batched),
          record { coherent = h1.coherent; inside = omega arith; read = read },
        )

    prefill_prompt-PrefilledOk :
        (s : Slot) (snap_prefix : ℕ) (p : Prefilled Rec Row)
        → PrefilledOk prompt p
        → (p' : Prefilled Rec Row) × (prefill_prompt c d idx s prompt snap_prefix p ≡ done p')
          × PrefilledOk prompt p'
    unfolding prefill_prompt
    prefill_prompt-PrefilledOk s snap_prefix p h =
        let choice : Bool → Run (Prefilled Rec Row) =
          λ b. if b then done p else prefill_batched c d idx s prompt snap_prefix p in
        elim (Bool-cases c.no_batch) [
          | inl skip ↦ (p, ap choice skip, h)
          | inr go ↦
              let (p', ran, ok) = prefill_batched-PrefilledOk s snap_prefix p h in
              (p', ap choice go ∙ ran, ok)
        ]

    -- The lane that a request starts on reads its prompt from where the prefill stopped.
    admit-Reading :
        (l : Lane Rec Row) (max_gen start : ℕ) (p : Prefilled Rec Row)
        → PrefilledOk prompt p
        → Reading c d
            (admit c d l prompt max_gen start p).1.slot
            (admit c d l prompt max_gen start p).1.live
          × IsCoherent d (admit c d l prompt max_gen start p).0
    unfolding admit occupied reset_spec
    admit-Reading l max_gen start p h = (
      record {
        active = refl;
        running = refl;
        prompt_ok = record { some_prompt = let i = h.inside in omega arith; fits = fits };
        unread = h.inside;
        no_tokens = refl;
        no_count = refl;
        no_queue = refl;
        no_head = refl;
        state = h.read;
      },
      elim (Bool-cases (c.share_fork && (p.snap_pos == 0) && ltb start p.reached)) [
        | inl share ↦
            rw (share, admit)
              (snapshot_slot-IsCoherent d c p.cache (occupied l.slot prompt max_gen p.reached)
                p.live h.coherent
                (Captured-prefix c d (occupied l.slot prompt max_gen p.reached) p.live
                  (let i = h.inside in omega arith) h.read))
        | inr alone ↦ rw (alone, admit) h.coherent
      ],
    )

    -- qk_slot_start on a lane, past the checks.
    pub start_lane-Reading :
        (k : PrefixCache Rec Row) (l : Lane Rec Row) (max_gen snap_prefix : ℕ)
        → 1 ≤ length prompt
        → IsCoherent d k
        → (k' : PrefixCache Rec Row) × (l' : Lane Rec Row) × (start_lane c d idx k l prompt max_gen
              snap_prefix
            ≡ done (k', l'))
          × (l'.slot.prompt ≡ prompt)
          × (l'.slot.max_gen ≡ max_gen)
          × Reading c d l'.slot l'.live
          × IsCoherent d k'
    unfolding start_lane admit occupied reset_spec
    start_lane-Reading k l max_gen snap_prefix some_prompt q =
        let from = resident c d k l.live prompt in
        let (p, ran, ok) =
          prefill_prompt-PrefilledOk l.slot snap_prefix from
            (resident-PrefilledOk k l.live prompt some_prompt q) in
        let (reads, coherent) = admit-Reading l max_gen from.reached p ok in
        let r = admit c d l prompt max_gen from.reached p in
        (r.0, r.1, rw (ran, start_lane), refl, refl, reads, coherent)
