-- ===== src/Serving/Capture.antt =====
-- Every snapshot that the serving path takes stands for exactly the tokens that it is keyed by.
use qwen_kernel.Prelude.{
  ◌+◌, ◌-◌, ◌≤◌, ◌≡◌, ◌∙◌, ◌++◌, if◌then◌else◌, ℕ, min, ap, append-nil, arith, ltb, length, take,
  length-append, length-take_le, take_all,
}
use qwen_kernel.Device.{Device, Live, feeds, reset_live}
use qwen_kernel.Device.Agree.{Agree}
use qwen_kernel.Greedy.{begin, greedy}
use qwen_kernel.Greedy.Laws.{after-begin, length-greedy, take-greedy}
use qwen_kernel.PrefixCache.{snapshot_key}
use qwen_kernel.PrefixCache.Coherent.{Captured}
use qwen_kernel.Serving.Status.{HasPrompt, HasRun, HasTokens}
use qwen_kernel.Slot.{Params, Slot}

module _ {Rec Row : Type 0} (c : Params) (d : Device Rec Row) where
  -- While decoding: the prompt and the generated tokens that were fed back.
  snapshot_key-run :
      (s : Slot) (n g : ℕ)
      → s.pos ≡ length s.prompt + n
      → HasTokens c d s g
      → n ≤ g
      → snapshot_key s ≡ s.prompt ++ greedy d (begin d s.prompt) n
  unfolding snapshot_key
  snapshot_key-run s n g at t h =
      let b = begin d s.prompt in
      let whole : take (min s.pos (length s.prompt)) s.prompt ≡ s.prompt =
        take_all (min s.pos (length s.prompt)) s.prompt (omega arith) in
      let size : length s.gen_tokens ≡ g = ap length t.tokens ∙ length-greedy d b g in
      let fed : min (if ltb (length s.prompt) s.pos then s.pos - length s.prompt else 0)
            (length s.gen_tokens)
          ≡ n =
        ground (arith, size) in
      rw (whole, fed)
        (ap (λ us. s.prompt ++ take n us) t.tokens
          ∙ ap (λ us. s.prompt ++ us) (take-greedy d b n g h))

  pub HasRun-Captured :
      (s : Slot) (lv : Live Rec Row) (n g : ℕ)
      → HasPrompt c s
      → HasRun c d s lv n
      → HasTokens c d s g
      → n ≤ g
      → Captured d s lv
  HasRun-Captured s lv n g p r t h =
      let b = begin d s.prompt in
      let key = snapshot_key-run s n g r.position t h in
      let size : length (s.prompt ++ greedy d b n) ≡ s.pos =
        let q = r.position in
        omega (arith, length-append s.prompt (greedy d b n), length-greedy d b n) in
      record {
        size = ap length key ∙ size;
        holds = rw (key, size) (rw (← after-begin d s.prompt p.some_prompt n) r.state);
      }

  -- While prefilling: the prefix of the prompt that was read.
  pub Captured-prefix :
      (s : Slot) (lv : Live Rec Row)
      → s.pos ≤ length s.prompt
      → Agree s.pos lv (feeds d (reset_live d) (take s.pos s.prompt) 0)
      → Captured d s lv
  unfolding snapshot_key
  Captured-prefix s lv h a =
      let least : min s.pos (length s.prompt) ≡ s.pos = omega arith in
      let none_fed : min (if ltb (length s.prompt) s.pos then s.pos - length s.prompt else 0)
            (length s.gen_tokens)
          ≡ 0 =
        ground arith in
      let key : snapshot_key s ≡ take s.pos s.prompt =
        rw (least, none_fed) (append-nil (take s.pos s.prompt)) in
      let size = length-take_le s.pos s.prompt h in
      record { size = ap length key ∙ size; holds = rw (key, size) a }
