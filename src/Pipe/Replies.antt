-- ===== src/Pipe/Replies.antt =====
-- Frames that a driver sends are answered one by one, in order.
use qwen_kernel.Prelude.{
  ◌+◌, ◌≤◌, ◌<◌, ◌≡◌, ◌∙◌, ◌||◌, ◌∷◌, ◌++◌, ◌==◌, ℕ, zero, suc, refl, true, false, some, List, [],
  arith, leb, length, length-append, take_all, take-append_left, drop_all, drop-append_left,
}
use qwen_kernel.Pipe.{
  PipeHdr, Worker, answer, bad_frame, connection, goes_on, handle_frame, next_frame, payload_size,
  pipe_magic, read_words, run_frame, serve_frames, state_frame,
}

-- What a driver sends: a run with its rows or ids, or a request to save or load a state.
pub record Sent : Type 0 where
  pub header : PipeHdr
  pub payload : List ℕ

abbrev pub words_of : Sent → List ℕ
words_of s = s.header.op ∷ s.header.slot ∷ s.header.n ∷ s.header.base ∷ s.header.topk ∷ s.payload

unfoldable pub all_words : List Sent → List ℕ
all_words [] = 2 ∷ 0 ∷ 0 ∷ 0 ∷ 0 ∷ []
all_words (s ∷ ss) = words_of s ++ all_words ss

module _ {E : Type 0} (w : Worker E) where
  -- The reply that the protocol promises for a frame: no stream, no lengths.
  pub data Replies : E → Sent → List ℕ → E → Type 0 where
    saved :
        (e : E) (s : Sent)
        → s.header.op ≡ 3
        → s.payload ≡ []
        → Replies e s
            ((w.save e s.header.slot s.header.n s.header.topk).1 ∷ [])
            (w.save e s.header.slot s.header.n s.header.topk).0
    loaded :
        (e : E) (s : Sent)
        → s.header.op ≡ 4
        → s.payload ≡ []
        → Replies e s
            ((w.load e s.header.slot s.header.n s.header.topk).1 ∷ [])
            (w.load e s.header.slot s.header.n s.header.topk).0
    ran :
        (e : E) (s : Sent) (out : List ℕ) (e' : E)
        → bad_frame w s.header ≡ false
        → length s.payload ≡ payload_size w s.header
        → s.header.topk ≡ 0
        → w.run e s.header s.payload ≡ some (e', out)
        → Replies e s out e'
    sampled_from :
        (e : E) (s : Sent) (out pairs : List ℕ) (e' : E)
        → bad_frame w s.header ≡ false
        → length s.payload ≡ payload_size w s.header
        → 0 < s.header.topk
        → w.run e s.header s.payload ≡ some (e', out)
        → w.top e' s.header.topk ≡ some pairs
        → Replies e s (out ++ pairs) e'

  -- The replies to all frames, in order.
  pub data AllReplies : E → List Sent → List ℕ → E → Type 0 where
    no_more : (e : E) → AllReplies e [] [] e
    one_more_reply :
        (e e1 e2 : E) (s : Sent) (ss : List Sent) (out outs : List ℕ)
        → Replies e s out e1
        → AllReplies e1 ss outs e2
        → AllReplies e (s ∷ ss) (out ++ outs) e2

  read_words-append :
      (k : ℕ) (xs ys : List ℕ) → length xs ≡ k → read_words k (xs ++ ys) ≡ some (xs, ys)
  unfolding read_words
  read_words-append k xs ys e =
      let enough : leb k (length (xs ++ ys)) ≡ true = ground (arith, e, length-append xs ys) in
      rw
        (
          read_words,
          enough,
          take-append_left k xs ys (omega (arith, e)),
          take_all k xs (omega (arith, e)),
          drop-append_left k xs ys (omega (arith, e)),
          drop_all k xs (omega (arith, e)),
        )
        refl

  -- A header that the driver wrote is read back.
  next_frame-header :
      (e : E) (s : Sent) (rest : List ℕ)
      → next_frame w e (words_of s ++ rest) ≡ handle_frame w s.header e (s.payload ++ rest)
  unfolding next_frame
  next_frame-header e s rest =
      rw
        (
          next_frame,
          read_words-append 5
              (s.header.op ∷ s.header.slot ∷ s.header.n ∷ s.header.base ∷ s.header.topk ∷ [])
              (s.payload ++ rest) refl,
        )
        refl

  bad_frame-op : (h : PipeHdr) → bad_frame w h ≡ false → h.op ≡ 1
  unfolding bad_frame
  bad_frame-op h fine = ground arith

  not_bye : (op : ℕ) → op ≡ 1 → (op == 2) ≡ false
  not_bye op e = ground arith

  not_state : (op : ℕ) → op ≡ 1 → ((op == 3) || (op == 4)) ≡ false
  not_state op e = ground arith

  handle-run :
      (e : E) (s : Sent) (rest : List ℕ)
      → bad_frame w s.header ≡ false
      → handle_frame w s.header e (s.payload ++ rest) ≡ run_frame w s.header e (s.payload ++ rest)
  unfolding handle_frame
  handle-run e s rest fine =
      let one : s.header.op ≡ 1 = bad_frame-op s.header fine in
      let bye : (s.header.op == 2) ≡ false = not_bye s.header.op one in
      let state : ((s.header.op == 3) || (s.header.op == 4)) ≡ false = not_state s.header.op one in
      rw (handle_frame, bye, state, fine) refl

  next_frame-Replies :
      (e : E) (s : Sent) (e' : E) (out rest : List ℕ)
      → Replies e s out e'
      → next_frame w e (words_of s ++ rest) ≡ goes_on e' out rest
  unfolding handle_frame state_frame run_frame answer
  next_frame-Replies e s e' out rest (saved _ _ op none') =
      next_frame-header e s rest ∙ rw (handle_frame, op, none') refl
  next_frame-Replies e s e' out rest (loaded _ _ op none') =
      next_frame-header e s rest ∙ rw (handle_frame, op, none') refl
  next_frame-Replies e s e' out rest (ran _ _ _ _ fine len top run) =
      next_frame-header e s rest
      ∙ (handle-run e s rest fine
          ∙ rw (run_frame, read_words-append (payload_size w s.header) s.payload rest len, run, top)
              refl)
  next_frame-Replies e s e' out rest (sampled_from _ _ o pairs _ fine len top run picks) =
      let some_top : (s.header.topk == 0) ≡ false = ground (arith, top) in
      next_frame-header e s rest
      ∙ (handle-run e s rest fine
          ∙ rw
              (
                run_frame,
                read_words-append (payload_size w s.header) s.payload rest len,
                run,
                some_top,
                picks,
              )
              refl)

  serve_frames-AllReplies :
      (fuel : ℕ) (e e' : E) (ss : List Sent) (out : List ℕ)
      → AllReplies e ss out e'
      → length ss < fuel
      → serve_frames w fuel e (all_words ss) ≡ (out, e')
  unfolding serve_frames all_words next_frame handle_frame read_words
  serve_frames-AllReplies zero e e' ss out r lt = absurd (omega arith)
  serve_frames-AllReplies (suc fuel) e e' _ _ (no_more _) lt = refl
  serve_frames-AllReplies (suc fuel) e e' _ _ (one_more_reply _ e1 _ s ss o os r rs) lt =
      rw
        (
          serve_frames,
          next_frame-Replies e s e1 o (all_words ss) r,
          serve_frames-AllReplies fuel e1 e' ss os rs (omega arith),
        )
        refl

  length-all_words : (ss : List Sent) → length ss ≤ length (all_words ss)
  unfolding all_words
  length-all_words [] = omega arith
  length-all_words (s ∷ ss) =
      omega (arith, length-append (words_of s) (all_words ss), length-all_words ss)

  -- When a client sends the worker the magic word, then frames that each have a reply (a state
  -- saved or loaded, or a run that passes the checks, carries as many words as its stage needs and
  -- succeeds, with its candidates where they are asked for), then a bye, the worker writes its
  -- hello and the replies, in order and nothing else, and is left as the last reply leaves it.
  pub connection-AllReplies :
      (e e' : E) (ss : List Sent) (out : List ℕ)
      → AllReplies e ss out e'
      → connection w e (pipe_magic ∷ all_words ss) ≡ (
        (pipe_magic ∷ w.l_first ∷ w.l_end ∷ w.n_layer ∷ w.n_embd ∷ w.n_slots ∷ w.n_ctx ∷ []) ++ out,
        e',
      )
  unfolding connection
  connection-AllReplies e e' ss out r =
      let served : serve_frames w (length (all_words ss) + 1) e (all_words ss) ≡ (out, e') =
        serve_frames-AllReplies (length (all_words ss) + 1) e e' ss out r
          (omega (arith, length-all_words ss)) in
      rw (connection, served) refl
