-- ===== src/Serving/Rounds.antt =====
-- Whole verify rounds, and the loop over them: it never exits the process, and it ends.
use qwen_kernel.Prelude.{
  ◌+◌, ◌≤◌, ◌<◌, ◌≡◌, ◌∙◌, ◌∷◌, ℕ, suc, refl, sym, ap, ap₂, subst, Bool, List, arith, length, take,
  length-take_le, Run, done,
}
use qwen_kernel.Device.{Device, IsFaithful, Live, feeds, feeds_ids}
use qwen_kernel.Device.Agree.{Agree, Agree-le, Agree-trans, feeds-Agree, feeds_ids-Agree}
use qwen_kernel.Greedy.{Trace, after, begin}
use qwen_kernel.Greedy.Laws.{begin-at}
use qwen_kernel.PrefixCache.{PrefixCache}
use qwen_kernel.Serving.Round.{
  Committed, Fits, round_lane, round_lane-Committed, round_lane-pos, round_lane-prompt,
  settle-Agree, verify_round-Fits,
}
use qwen_kernel.Serving.Status.{Decoding}
use qwen_kernel.Slot.{Lane, Params}
use qwen_kernel.Speculate.{accept, end_round, spec_round}
use qwen_kernel.Speculate.Accept.{Commits, accept-Commits}

module _ {Rec Row : Type 0} (c : Params) (d : Device Rec Row) (f : IsFaithful d) where
  -- A round commits at least one position, and what it commits is greedy decoding.
  pub record RoundDone (l : Lane Rec Row) (n : ℕ) (k : PrefixCache Rec Row)
      (r : Run (PrefixCache Rec Row × Lane Rec Row)) : Type 0 where
    pub lane : Lane Rec Row
    pub hit : Bool
    pub fed : ℕ
    pub count : ℕ
    pub result : r ≡ done (end_round c d hit k lane)
    pub committed : Committed c d f lane.slot lane.live hit fed count
    pub moved : n < fed
    pub same_prompt : lane.slot.prompt ≡ l.slot.prompt
    pub further : l.slot.pos < lane.slot.pos
    pub in_context : lane.slot.pos ≤ c.n_ctx

  module _ (idx : ℕ) (k : PrefixCache Rec Row) (l : Lane Rec Row) (n : ℕ) (ts : List ℕ)
      (e : Decoding c d l.slot l.live n) (h : Fits c idx l.slot.pos (length (l.slot.last ∷ ts)))
      (m : suc n + length (l.slot.last ∷ ts) ≤ l.slot.max_gen) where
    abbrev toks : List ℕ
    toks = l.slot.last ∷ ts

    abbrev tr : Trace Rec Row
    tr = after d (begin d l.slot.prompt) (suc n)

    at_pos : l.slot.pos ≡ tr.at
    at_pos = e.run.position ∙ sym (begin-at d l.slot.prompt e.prompt_ok.some_prompt n)

    ids_greedy : feeds_ids d l.live toks l.slot.pos ≡ feeds_ids d tr.live (tr.next ∷ ts) tr.at
    ids_greedy =
        feeds_ids-Agree d f toks l.slot.pos e.run.state
        ∙ ap₂ (λ x p. feeds_ids d tr.live (x ∷ ts) p) e.sampled at_pos

    commits :
        Commits d c.eos tr toks
          (feeds_ids d l.live toks l.slot.pos)
          (accept c.eos toks (feeds_ids d l.live toks l.slot.pos))
    commits = rw (ids_greedy, e.sampled) (accept-Commits d c.eos tr ts)

    state_greedy :
        (j : ℕ) (lv : Live Rec Row)
        → j ≤ length toks
        → feeds d tr.live (take j toks) tr.at ≡ (after d tr j).live
        → Agree (l.slot.pos + j) lv (feeds d l.live (take j toks) l.slot.pos)
        → Agree (l.slot.pos + j) lv (after d tr j).live
    state_greedy j lv jn s g =
        let near = feeds-Agree d f (take j toks) l.slot.pos e.run.state in
        let size = length-take_le j toks jn in
        Agree-trans g (
          subst (Agree (l.slot.pos + j) (feeds d l.live (take j toks) l.slot.pos))
            (ap (feeds d tr.live (take j toks)) at_pos ∙ s) (Agree-le (omega (arith, size)) near))

    -- On a slot that decodes greedily, over a faithful device, a verify round of the slot's last
    -- token and any drafted tokens, within the batch, the context and the token limit, does not
    -- leave the process; the tokens that it commits are the next ones of greedy decoding, its
    -- state is that of greedy decoding, and the position moves forward, within the context.
    pub spec_round-RoundDone : RoundDone l n k (spec_round c d idx k l toks)
    unfolding spec_round round_lane
    spec_round-RoundDone =
        let ids = feeds_ids d l.live toks l.slot.pos in
        let a = accept c.eos toks ids in
        let q = e.run.position in
        let one : 1 ≤ l.slot.pos = let w = e.prompt_ok.some_prompt in omega arith in
        let (lv, ran, agree) =
          settle-Agree c d f idx l.slot.pos a.fed l.live toks h one commits.some_fed
            commits.fed_within in
        let lane = round_lane c d f l lv a ids in
        let at = round_lane-pos c d f l lv a ids in
        record {
          lane = lane;
          hit = a.eos_hit;
          fed = n + a.fed;
          count = suc n + a.emitted;
          result = rw (verify_round-Fits c d f idx l.slot.pos l.live toks h one, ran) refl;
          committed =
              round_lane-Committed c d f l lv n a toks ids e m commits
                (state_greedy a.fed lv commits.fed_within commits.state agree);
          moved = let w = commits.some_fed in omega arith;
          same_prompt = round_lane-prompt c d f l lv a ids;
          further = let w = commits.some_fed in omega arith;
          in_context = let w = commits.fed_within in let x = h.in_context in omega arith;
        }
