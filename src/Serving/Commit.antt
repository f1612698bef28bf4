-- ===== src/Serving/Commit.antt =====
-- A serial step keeps a slot's status: what `commit` does after a dispatch.
use qwen_kernel.Prelude.{
  ◌+◌, ◌-◌, ◌<◌, ◌≡◌, ◌∙◌, ℕ, suc, refl, sym, ap, subst, inl, inr, true, false, arith, ltb, ltb→lt,
  lt→ltb, Bool-cases, length, get_or, take,
}
use qwen_kernel.Chunk.{commit, input_pos, input_tok, prefilling}
use qwen_kernel.Device.{Device, IsFaithful, Live, feed, feeds, reset_live, sampled}
use qwen_kernel.Device.Agree.{Agree, feed-Agree}
use qwen_kernel.Greedy.{after, begin, greedy}
use qwen_kernel.Greedy.Agree.{advance-Agree}
use qwen_kernel.Greedy.Laws.{begin-at, feeds-take-suc}
use qwen_kernel.PrefixCache.{PrefixCache}
use qwen_kernel.Serving.Status.{Decoding, Reading, Status, decoding, ended, reading}
use qwen_kernel.Serving.Steps.{Sampled, commit_sample-Status, idle-false, stepped}
use qwen_kernel.Slot.{Lane, Params, Slot, idle}

-- What a serial step feeds.
input-decoding :
    (s : Slot)
    → s.active ≡ true
    → s.fin_pending ≡ false
    → s.cursor ≡ length s.prompt
    → (input_tok s ≡ s.last) × (input_pos s ≡ s.pos)
unfolding input_tok input_pos
input-decoding s a r e = (ground arith, ground arith)

input-reading :
    (s : Slot)
    → s.active ≡ true
    → s.fin_pending ≡ false
    → s.cursor < length s.prompt
    → (input_tok s ≡ get_or s.prompt s.cursor 0) × (input_pos s ≡ s.cursor)
unfolding input_tok input_pos
input-reading s a r e = (ground arith, ground arith)

module _ {Rec Row : Type 0} (c : Params) (d : Device Rec Row) where
  -- A dispatched lane: its stripes and its sample come from one forward step on its input.
  pub record Dispatched (l : Lane Rec Row) (lv : Live Rec Row) : Type 0 where
    pub fed : l.live ≡ feed d lv (input_tok l.slot) (input_pos l.slot)
    pub sample : l.samp ≡ sampled d lv (input_tok l.slot) (input_pos l.slot)

  module _ (f : IsFaithful d) where
    -- The sample of a decode step, and of the last prompt token.
    pub Decoding-Sampled :
        (l : Lane Rec Row) (lv : Live Rec Row) (n : ℕ)
        → Dispatched l lv
        → Decoding c d l.slot lv n
        → Sampled c d (stepped c d false l.slot) l.live l.samp (suc n)
    unfolding input_tok input_pos after
    Decoding-Sampled l lv n s e =
        let tr = after d (begin d l.slot.prompt) (suc n) in
        let at : l.slot.pos ≡ tr.at =
          e.run.position ∙ sym (begin-at d l.slot.prompt e.prompt_ok.some_prompt n) in
        let step = advance-Agree d f lv tr l.slot.last l.slot.pos e.sampled at e.run.state in
        let (tok, pos) = input-decoding l.slot e.active e.running e.run.read_all in
        record {
          active = e.active;
          running = e.running;
          prompt_ok = record { some_prompt = e.prompt_ok.some_prompt; fits = e.prompt_ok.fits };
          run = record {
            read_all = e.run.read_all;
            position = let q = e.run.position in omega arith;
            state = rw (s.fed, tok, pos) step.0;
          };
          generated = record {
            tokens = e.generated.tokens;
            count = e.generated.count;
            no_eos = e.generated.no_eos;
          };
          next = rw (s.sample, tok, pos) step.1;
          in_ctx = let q = e.room in omega arith;
          wanted = inl e.wanted;
        }

    abbrev pub read_last : Lane Rec Row → Lane Rec Row
    read_last l = record l {
      slot = record (l.slot) { cursor = length l.slot.prompt; pos = length l.slot.prompt };
    }

    pub Reading-Sampled :
        (l : Lane Rec Row) (lv : Live Rec Row)
        → Dispatched l lv
        → Reading c d l.slot lv
        → l.slot.cursor + 1 ≡ length l.slot.prompt
        → Sampled c d (stepped c d true (read_last l).slot) l.live l.samp 0
    unfolding input_tok input_pos after begin greedy
    Reading-Sampled l lv s e q =
        let at : l.slot.cursor ≡ length l.slot.prompt - 1 = omega arith in
        let (tok, pos) = input-reading l.slot e.active e.running e.unread in
        let moved : length l.slot.prompt + 0 ≡ l.slot.cursor + 1 = omega arith in
        let step =
          advance-Agree d f lv (begin d l.slot.prompt) (input_tok l.slot) l.slot.cursor
            (tok ∙ ap (λ i. get_or l.slot.prompt i 0) at) at (rw (← at) e.state) in
        record {
          active = e.active;
          running = e.running;
          prompt_ok = record { some_prompt = e.prompt_ok.some_prompt; fits = e.prompt_ok.fits };
          run = record {
            read_all = refl;
            position = omega arith;
            state = rw (s.fed, pos, moved) step.0;
          };
          generated = record {
            tokens = e.no_tokens;
            count = e.no_count;
            no_eos = rw e.no_tokens tt;
          };
          next = rw (s.sample, pos) step.1;
          in_ctx = let q = e.prompt_ok.fits in omega arith;
          wanted = inr refl;
        }

    -- One more prompt token is read.
    Reading-on :
        (l : Lane Rec Row) (lv : Live Rec Row)
        → Dispatched l lv
        → Reading c d l.slot lv
        → l.slot.cursor + 1 < length l.slot.prompt
        → Reading c d (record (l.slot) { cursor = l.slot.cursor + 1 }) l.live
    Reading-on l lv s e more =
        let (tok, pos) = input-reading l.slot e.active e.running e.unread in
        let taken = feeds-take-suc d (reset_live d) l.slot.prompt l.slot.cursor e.unread in
        let one : l.slot.cursor + 1 ≡ suc l.slot.cursor = omega arith in
        record {
          active = e.active;
          running = e.running;
          prompt_ok = record { some_prompt = e.prompt_ok.some_prompt; fits = e.prompt_ok.fits };
          unread = more;
          no_tokens = e.no_tokens;
          no_count = e.no_count;
          no_queue = e.no_queue;
          no_head = e.no_head;
          state =
              rw (s.fed, tok, pos)
                (subst
                  (λ x.
                    Agree (l.slot.cursor + 1)
                      (feed d lv (get_or l.slot.prompt l.slot.cursor 0) l.slot.cursor) x)
                  (sym taken ∙ ap (λ i. feeds d (reset_live d) (take i l.slot.prompt) 0) (sym one))
                  (feed-Agree d f _ _ e.state));
        }

    -- Over a faithful device, what stepChunk does with a slot after a serial step was dispatched
    -- to it keeps the slot's status sound: reading its prompt, decoding greedily, or ended at its
    -- token limit, at the end of the context, or where greedy decoding samples the end of the
    -- sequence.
    pub commit-Status :
        (k : PrefixCache Rec Row) (l : Lane Rec Row) (lv : Live Rec Row)
        → Dispatched l lv
        → Status c d l.slot lv
        → Status c d (commit c k l).1.slot (commit c k l).1.live
    unfolding commit
    commit-Status k l lv s (ended g e) = rw (e.stopped, commit) (ended g e)
    commit-Status k l lv s (decoding n e) =
        let busy : idle l.slot ≡ false = idle-false l.slot e.active e.running in
        let read : prefilling l.slot ≡ false = let q = e.run.read_all in ground arith in
        rw (busy, read, commit)
          (commit_sample-Status c d false k l (suc n) (Decoding-Sampled l lv n s e))
    commit-Status k l lv s (reading e) =
        let busy : idle l.slot ≡ false = idle-false l.slot e.active e.running in
        let unread : prefilling l.slot ≡ true = lt→ltb _ _ e.unread in
        elim (Bool-cases (ltb (l.slot.cursor + 1) (length l.slot.prompt))) [
          | inl more ↦
              rw (busy, unread, more, commit) (reading (Reading-on l lv s e (ltb→lt _ _ more)))
          | inr last ↦
              rw (busy, unread, last, commit)
                (commit_sample-Status c d true k (read_last l) 0
                  (Reading-Sampled l lv s e (let u = e.unread in ground arith)))
        ]
