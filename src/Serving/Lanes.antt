-- ===== src/Serving/Lanes.antt =====
-- A serial step over all slots: every slot keeps its status, and the prefix cache stays coherent.
use qwen_kernel.Prelude.{
  ◌+◌, ◌-◌, ◌≤◌, ◌≡◌, ◌||◌, ◌∷◌, ◌++◌, ◌==◌, if◌then◌else◌, ℕ, zero, suc, refl, sym, subst, inl,
  inr, Bool, true, false, not, List, [], arith, ltb, leb, lt→ltb, Bool-cases, length, All,
}
use qwen_kernel.Chunk.{
  Engine, commit, commit_all, commit_sample, depth_from, dispatch, end_step, input_pos, input_tok,
  needs_step, prefilling, serial_phase,
}
use qwen_kernel.Device.{Device, IsFaithful, Live, feed, sampled}
use qwen_kernel.PrefixCache.{PrefixCache}
use qwen_kernel.PrefixCache.Coherent.{Captured, IsCoherent, snapshot_slot-IsCoherent}
use qwen_kernel.Serving.Capture.{HasRun-Captured}
use qwen_kernel.Serving.Cases.{emit_tok_cases, noted}
use qwen_kernel.Serving.Commit.{
  Decoding-Sampled, Dispatched, Reading-Sampled, commit-Status, read_last,
}
use qwen_kernel.Serving.Status.{HasTokens, Status, decoding, ended, reading}
use qwen_kernel.Serving.Steps.{HasTokens-noted, Sampled, idle-false, stepped}
use qwen_kernel.Slot.{Lane, Params, Slot, idle}
use qwen_kernel.Speculate.{take_token}

module _ {Rec Row : Type 0} (c : Params) (d : Device Rec Row) where
  -- A free slot, or one that serves its prompt by greedy decoding.
  pub data LaneOk (s : Slot) (lv : Live Rec Row) : Type 0 where
    unused : s.active ≡ false → LaneOk s lv
    used : Status c d s lv → LaneOk s lv

  abbrev pub AllOk : List (Lane Rec Row) → Type 0
  AllOk = All (λ l. LaneOk l.slot l.live)

  end_step-IsCoherent :
      (k : PrefixCache Rec Row) (l : Lane Rec Row)
      → IsCoherent d k
      → Captured d l.slot l.live
      → IsCoherent d (end_step c k l).0
  unfolding end_step
  end_step-IsCoherent k l h q =
      elim (Bool-cases (leb c.n_ctx l.slot.pos || leb l.slot.max_gen l.slot.gen)) [
        | inl stop ↦ rw (stop, end_step) (snapshot_slot-IsCoherent d c k l.slot l.live h q)
        | inr go ↦ rw (go, end_step) h
      ]

  commit_sample-IsCoherent :
      (b : Bool) (k : PrefixCache Rec Row) (l : Lane Rec Row) (n : ℕ)
      → IsCoherent d k
      → Sampled c d (stepped c d b l.slot) l.live l.samp n
      → IsCoherent d (commit_sample c b k l).0
  unfolding commit_sample take_token
  commit_sample-IsCoherent b k l n q h =
      let l' : Lane Rec Row = record l { slot = stepped c d b l.slot } in
      elim (Bool-cases (l.samp == c.eos)) [
        | inl e ↦
            rw (e, commit_sample)
              (snapshot_slot-IsCoherent d c k l'.slot l.live q (
                HasRun-Captured c d l'.slot l.live n n h.prompt_ok h.run h.generated (omega arith)))
        | inr e ↦
            let t = HasTokens-noted c d l' l.samp n h (ground arith) in
            rw (e, commit_sample)
              (emit_tok_cases (λ x. IsCoherent d (end_step c k x).0) c.chunk l.samp
                (noted l' l.samp)
                (λ _.
                  end_step-IsCoherent k _ q (took l' n (l.out ++ l.samp ∷ []) l'.slot.out_q h t))
                (λ _.
                  end_step-IsCoherent k _ q (took l' n l.out (l'.slot.out_q ++ l.samp ∷ []) h t)))
      ]
    where
      took :
          (l' : Lane Rec Row) (n : ℕ) (o q : List ℕ)
          → Sampled c d l'.slot l'.live l'.samp n
          → HasTokens c d (noted l' l'.samp).slot (suc n)
          → Captured d (record ((noted l' l'.samp).slot) { out_q = q }) l'.live
      took l' n o q h t =
          HasRun-Captured c d (record ((noted l' l'.samp).slot) { out_q = q }) l'.live n (suc n)
            (record { some_prompt = h.prompt_ok.some_prompt; fits = h.prompt_ok.fits })
            (record { read_all = h.run.read_all; position = h.run.position; state = h.run.state })
            (record { tokens = t.tokens; count = t.count; no_eos = t.no_eos }) (omega arith)

  pub commit-idle :
      (k : PrefixCache Rec Row) (l : Lane Rec Row) → idle l.slot ≡ true → commit c k l ≡ (k, l)
  unfolding commit
  commit-idle k l h = rw h

  module _ (f : IsFaithful d) where
    commit-IsCoherent :
        (k : PrefixCache Rec Row) (l : Lane Rec Row) (lv : Live Rec Row)
        → IsCoherent d k
        → Dispatched c d l lv
        → Status c d l.slot lv
        → IsCoherent d (commit c k l).0
    unfolding commit
    commit-IsCoherent k l lv q s (ended g e) = rw (e.stopped, commit) q
    commit-IsCoherent k l lv q s (decoding n e) =
        let busy : idle l.slot ≡ false = idle-false l.slot e.active e.running in
        let read : prefilling l.slot ≡ false = let w = e.run.read_all in ground arith in
        rw (busy, read, commit)
          (commit_sample-IsCoherent false k l (suc n) q (Decoding-Sampled c d f l lv n s e))
    commit-IsCoherent k l lv q s (reading e) =
        let busy : idle l.slot ≡ false = idle-false l.slot e.active e.running in
        let unread : prefilling l.slot ≡ true = lt→ltb _ _ e.unread in
        elim (Bool-cases (ltb (l.slot.cursor + 1) (length l.slot.prompt))) [
          | inl more ↦ rw (busy, unread, more, commit) q
          | inr last ↦
              rw (busy, unread, last, commit)
                (commit_sample-IsCoherent true k (read_last c d f l) 0 q
                  (Reading-Sampled c d f l lv s e (let u = e.unread in ground arith)))
        ]

    -- One slot of a serial step, dispatched or idle.
    commit-LaneOk :
        (k : PrefixCache Rec Row) (l : Lane Rec Row) (lv : Live Rec Row)
        → IsCoherent d k
        → Dispatched c d l lv
        → LaneOk l.slot lv
        → LaneOk (commit c k l).1.slot (commit c k l).1.live × IsCoherent d (commit c k l).0
    commit-LaneOk k l lv q s (unused a) =
        let i : idle l.slot ≡ true = ground arith in rw (commit-idle k l i) (unused a, q)
    commit-LaneOk k l lv q s (used t) =
        (used (commit-Status c d f k l lv s t), commit-IsCoherent k l lv q s t)

  -- The slots beyond the dispatch depth are idle.
  abbrev Covers : ℕ → List (Lane Rec Row) → Type 0
  Covers z [] = Unit
  Covers zero (l ∷ ls) = (idle l.slot ≡ true) × Covers zero ls
  Covers (suc z) (l ∷ ls) = Covers z ls

  Covers-cons :
      (m : ℕ) (l : Lane Rec Row) (ls : List (Lane Rec Row))
      → (m ≡ 0 → idle l.slot ≡ true)
      → Covers (m - 1) ls
      → Covers m (l ∷ ls)
  Covers-cons zero l ls h q = (h refl, let e : 0 - 1 ≡ 0 = omega arith in rw e at q)
  Covers-cons (suc m) l ls h q = let e : suc m - 1 ≡ m = omega arith in rw e at q

  depth-Covers :
      (i : ℕ) (ls : List (Lane Rec Row)) (z : ℕ)
      → z ≤ i
      → (z ≤ depth_from i ls z) × Covers (depth_from i ls z - i) ls
  unfolding depth_from
  depth-Covers i [] z h = (omega arith, tt)
  depth-Covers i (l ∷ ls) z h =
      let z' = if idle l.slot then z else i + 1 in
      let deep = depth_from (i + 1) ls z' in
      let (grows, rest) = depth-Covers (i + 1) ls z' (ground arith) in
      let e : deep - (i + 1) ≡ deep - i - 1 = omega arith in
      (ground arith, Covers-cons (deep - i) l ls (λ q. ground arith) (rw e at rest))

  module _ (f : IsFaithful d) where
    -- Dispatch to a depth that covers the running slots, and commit.
    pub step-AllOk :
        (k : PrefixCache Rec Row) (z : ℕ) (ls : List (Lane Rec Row))
        → IsCoherent d k
        → Covers z ls
        → AllOk ls
        → AllOk (commit_all c k (dispatch d z ls)).1
          × IsCoherent d (commit_all c k (dispatch d z ls)).0
    unfolding commit_all dispatch
    step-AllOk k zero [] q v h = (tt, q)
    step-AllOk k (suc z) [] q v h = (tt, q)
    step-AllOk k zero (l ∷ ls) q v h =
        let (rest, coherent) = step-AllOk k zero ls q v.1 h.1 in
        subst
          (λ (r : PrefixCache Rec Row × Lane Rec Row).
            AllOk (r.1 ∷ (commit_all c r.0 (dispatch d 0 ls)).1)
            × IsCoherent d (commit_all c r.0 (dispatch d 0 ls)).0)
          (sym (commit-idle k l v.0)) ((h.0, rest), coherent)
    step-AllOk k (suc z) (l ∷ ls) q v h =
        let l' : Lane Rec Row = record l {
          live = feed d l.live (input_tok l.slot) (input_pos l.slot);
          samp = sampled d l.live (input_tok l.slot) (input_pos l.slot);
        } in
        let (one, kept) =
          commit-LaneOk f k l' l.live q (record { fed = refl; sample = refl }) h.0 in
        let (rest, coherent) = step-AllOk (commit c k l').0 z ls kept v h.1 in
        ((one, rest), coherent)

    -- Over a faithful device, phase 3 of stepChunk, however many steps it may take, keeps every
    -- slot free or of sound status and the prefix cache coherent.
    pub serial_phase-AllOk :
        (n : ℕ) (e : Engine Rec Row)
        → AllOk e.lanes
        → IsCoherent d e.cache
        → AllOk (serial_phase c d n e).lanes × IsCoherent d (serial_phase c d n e).cache
    unfolding serial_phase
    serial_phase-AllOk zero e h q = (h, q)
    serial_phase-AllOk (suc n) e h q =
        let z = depth_from 0 e.lanes 0 in
        let (_, covers) = depth-Covers 0 e.lanes 0 (omega arith) in
        let same : z - 0 ≡ z = omega arith in
        let (ok, coherent) = step-AllOk e.cache z e.lanes q (rw same at covers) h in
        elim (Bool-cases (z == 0 || not (needs_step c e.lanes))) [
          | inl stop ↦ rw (stop, serial_phase) (h, q)
          | inr go ↦ rw (go, serial_phase) (serial_phase-AllOk n _ ok coherent)
        ]
