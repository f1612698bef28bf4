-- ===== src/Pipe.antt =====
-- The connection of a pipeline worker (mode pipe-worker of src/main.cpp): hello, frames, replies. A
-- stream is a list of 32-bit words; all frames are whole words. What the stage computes is a
-- parameter. Writes succeed; a read past the end is a closed connection.
pub mod Replies
use qwen_kernel.Prelude.{
  ◌+◌, ◌*◌, ◌&&◌, ◌||◌, ◌∷◌, ◌++◌, ◌==◌, if◌then◌else◌, ℕ, zero, suc, Bool, not, Option, none, some,
  List, [], ltb, leb, length, get_or, take, drop,
}

-- kPipeMagic.
abbrev pub pipe_magic : ℕ
pipe_magic = 1902866483

pub record PipeHdr : Type 0 where
  pub op : ℕ
  pub slot : ℕ
  pub n : ℕ
  pub base : ℕ
  pub topk : ℕ

-- A worker's stage. Where a call fails there is no result.
pub record Worker (E : Type 0) : Type 0 where
  pub l_first : ℕ
  pub l_end : ℕ
  pub n_layer : ℕ
  pub n_embd : ℕ
  pub n_slots : ℕ
  pub n_ctx : ℕ
  pub run : E → PipeHdr → List ℕ → Option (E × List ℕ)
  pub top : E → ℕ → Option (List ℕ)
  pub save : E → ℕ → ℕ → ℕ → E × ℕ
  pub load : E → ℕ → ℕ → ℕ → E × ℕ

-- readAll.
unfoldable pub read_words : ℕ → List ℕ → Option (List ℕ × List ℕ)
read_words k ws = if leb k (length ws) then some (take k ws, drop k ws) else none

abbrev pub header_of : List ℕ → PipeHdr
header_of ws = record {
  op = get_or ws 0 0;
  slot = get_or ws 1 0;
  n = get_or ws 2 0;
  base = get_or ws 3 0;
  topk = get_or ws 4 0;
}

-- After a frame: the connection is closed, or goes on with the words that are left.
pub data Served (E : Type 0) : Type 0 where
  closed : E → List ℕ → Served E
  goes_on : E → List ℕ → List ℕ → Served E

module _ {E : Type 0} (w : Worker E) where
  abbrev pub is_last : Bool
  is_last = w.l_end == w.n_layer

  -- The words that a run frame carries: ids, or hidden rows.
  unfoldable pub payload_size : PipeHdr → ℕ
  payload_size h = if w.l_first == 0 then h.n else h.n * w.n_embd

  unfoldable pub bad_frame : PipeHdr → Bool
  bad_frame h =
      not (h.op == 1)
      || ltb h.n 1
      || leb w.n_slots h.slot
      || ltb w.n_ctx (h.base + h.n)
      || ltb 256 h.topk
      || (not (h.topk == 0) && not is_last)

  -- The rows or ids, with the candidates behind them where they are asked for.
  unfoldable pub answer : PipeHdr → E → List ℕ → List ℕ → Served E
  answer h e out rest = if h.topk == 0 then goes_on e out rest else elim (w.top e h.topk) [
    | none ↦ closed e out
    | some pairs ↦ goes_on e (out ++ pairs) rest
  ]

  unfoldable pub run_frame : PipeHdr → E → List ℕ → Served E
  unfolding answer payload_size read_words
  run_frame h e ws = elim (read_words (payload_size h) ws) [
    | none ↦ closed e []
    | some r ↦ elim (w.run e h r.0) [ none ↦ closed e [] | some q ↦ answer h q.0 q.1 r.1 ]
  ]

  -- Save and load: the index is in `n`, the token count in `topk`.
  unfoldable pub state_frame : PipeHdr → E → List ℕ → Served E
  state_frame h e ws =
      let r = if h.op == 3 then w.save e h.slot h.n h.topk else w.load e h.slot h.n h.topk in
      goes_on r.0 (r.1 ∷ []) ws

  unfoldable pub handle_frame : PipeHdr → E → List ℕ → Served E
  unfolding run_frame state_frame bad_frame
  handle_frame h e ws =
      if h.op == 2
      then closed e []
      else if (h.op == 3) || (h.op == 4)
      then state_frame h e ws
      else if bad_frame h
      then closed e []
      else run_frame h e ws

  unfoldable pub next_frame : E → List ℕ → Served E
  unfolding handle_frame read_words
  next_frame e ws = elim (read_words 5 ws) [
    | none ↦ closed e []
    | some r ↦ handle_frame (header_of r.0) e r.1
  ]

  -- The loop of a connection: what is written, and the engine at its end.
  unfoldable pub serve_frames : ℕ → E → List ℕ → List ℕ × E
  unfolding next_frame
  serve_frames zero e ws = ([], e)
  serve_frames (suc fuel) e ws = elim (next_frame e ws) [
    | closed e' out ↦ (out, e')
    | goes_on e' out rest ↦ let r = serve_frames fuel e' rest in (out ++ r.0, r.1)
  ]

  -- A connection: the hello, then the frames, of which each has five words at least.
  unfoldable pub connection : E → List ℕ → List ℕ × E
  unfolding serve_frames
  connection e [] = ([], e)
  connection e (x ∷ ws) =
      let r = serve_frames (length ws + 1) e ws in
      if x == pipe_magic
      then (
        (pipe_magic ∷ w.l_first ∷ w.l_end ∷ w.n_layer ∷ w.n_embd ∷ w.n_slots ∷ w.n_ctx ∷ []) ++ r.0,
        r.1,
      )
      else ([], e)
