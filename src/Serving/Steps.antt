-- ===== src/Serving/Steps.antt =====
-- A sampled token keeps a slot's status: taking it, and the end of a step.
use qwen_kernel.Prelude.{
  ◌+◌, ◌≤◌, ◌<◌, ◌≡◌, ◌∙◌, ◌≢◌, ◌⊎◌, ◌||◌, ◌∷◌, ◌++◌, ◌==◌, if◌then◌else◌, ℕ, suc, refl, sym, ap₂,
  inl, inr, Bool, true, false, List, [], arith, leb, Bool-cases, length,
}
use qwen_kernel.Chunk.{commit_sample, end_step}
use qwen_kernel.Device.{Device, Live}
use qwen_kernel.Greedy.{after, begin, greedy}
use qwen_kernel.PrefixCache.{PrefixCache}
use qwen_kernel.Serving.Cases.{emit_tok_cases, finish_cases, noted}
use qwen_kernel.Serving.Status.{Ended, HasPrompt, HasRun, HasTokens, Status, decoding, ended}
use qwen_kernel.Slot.{Lane, Params, Slot, finish, idle, reset_spec}
use qwen_kernel.Speculate.{take_token}
use qwen_kernel.Speculate.Accept.{NoEos}

pub NoEos-snoc : (eos : ℕ) (ts : List ℕ) (t : ℕ) → NoEos eos ts → t ≢ eos → NoEos eos (ts ++ t ∷ [])
NoEos-snoc eos [] t h k = (k, tt)
NoEos-snoc eos (u ∷ ts) t h k = (h.0, NoEos-snoc eos ts t h.1 k)

pub NoEos-append : (eos : ℕ) (ts us : List ℕ) → NoEos eos ts → NoEos eos us → NoEos eos (ts ++ us)
NoEos-append eos [] us h k = k
NoEos-append eos (t ∷ ts) us h k = (h.0, NoEos-append eos ts us h.1 k)

pub idle-false : (s : Slot) → s.active ≡ true → s.fin_pending ≡ false → idle s ≡ false
idle-false s a r = ground arith

module _ {Rec Row : Type 0} (c : Params) (d : Device Rec Row) where
  -- A slot that has fed n generated tokens, and whose step sampled the next greedy token.
  pub record Sampled (s : Slot) (lv : Live Rec Row) (t n : ℕ) : Type 0 where
    pub active : s.active ≡ true
    pub running : s.fin_pending ≡ false
    pub prompt_ok : HasPrompt c s
    pub run : HasRun c d s lv n
    pub generated : HasTokens c d s n
    pub next : t ≡ (after d (begin d s.prompt) (suc n)).next
    pub in_ctx : s.pos ≤ c.n_ctx
    pub wanted : (n < s.max_gen) ⊎ (n ≡ 0)

  -- Taking the token as one more generated token.
  pub HasTokens-noted :
      (l : Lane Rec Row) (t n : ℕ)
      → Sampled l.slot l.live t n
      → t ≢ c.eos
      → HasTokens c d (noted l t).slot (suc n)
  unfolding greedy
  HasTokens-noted l t n h ne = record {
    tokens = ap₂ (λ ts u. ts ++ u ∷ []) h.generated.tokens h.next;
    count = let e = h.generated.count in omega arith;
    no_eos = NoEos-snoc c.eos l.slot.gen_tokens t h.generated.no_eos ne;
  }

  -- The slot of a finished request, whether it is freed or still has tokens to hand out.
  abbrev pub Over : ℕ → Lane Rec Row → Type 0
  Over g l = Ended c d l.slot g

  pub finish-Over :
      (l : Lane Rec Row) (g : ℕ)
      → HasPrompt c l.slot
      → HasTokens c d l.slot g
      → (g ≤ l.slot.max_gen) ⊎ (g ≡ 1)
      → (l.slot.max_gen ≤ g)
        ⊎ (c.n_ctx < length l.slot.prompt + g)
        ⊎ ((after d (begin d l.slot.prompt) (suc g)).next ≡ c.eos)
      → Over g (finish (record l { slot = record (l.slot) { fin_pending = true } }))
  unfolding reset_spec
  finish-Over l g p t w r =
      finish_cases (Over g) (record l { slot = record (l.slot) { fin_pending = true } })
        (record {
          stopped = ground arith;
          prompt_ok = record { some_prompt = p.some_prompt; fits = p.fits };
          generated = record { tokens = t.tokens; count = t.count; no_eos = t.no_eos };
          within = w;
          reason = r;
        })
        (λ _ _. record {
          stopped = refl;
          prompt_ok = record { some_prompt = p.some_prompt; fits = p.fits };
          generated = record { tokens = t.tokens; count = t.count; no_eos = t.no_eos };
          within = w;
          reason = r;
        })

  -- After a token is taken, the slot decodes on or is over.
  end_step-Status :
      (k : PrefixCache Rec Row) (l : Lane Rec Row) (n : ℕ)
      → l.slot.active ≡ true
      → l.slot.fin_pending ≡ false
      → HasPrompt c l.slot
      → HasRun c d l.slot l.live n
      → HasTokens c d l.slot (suc n)
      → l.slot.last ≡ (after d (begin d l.slot.prompt) (suc n)).next
      → (n < l.slot.max_gen) ⊎ (n ≡ 0)
      → Status c d (end_step c k l).1.slot (end_step c k l).1.live
  unfolding end_step
  end_step-Status k l n a f p r t e w =
      elim (Bool-cases (leb c.n_ctx l.slot.pos || leb l.slot.max_gen l.slot.gen)) [
        | inl stop ↦
            rw (stop, end_step)
              (ended (suc n) (finish-Over l (suc n) p t (ground arith) (ground arith)))
        | inr go ↦
            rw (go, end_step)
              (decoding n (record {
                active = a;
                running = f;
                prompt_ok = p;
                run = r;
                generated = t;
                sampled = e;
                room = ground arith;
                wanted = ground arith;
              }))
      ]

  -- The slot with its position moved, as commit_sample moves it.
  abbrev pub stepped : Bool → Slot → Slot
  stepped b s = record s { pos = s.pos + (if b then 0 else 1); serial_steps = s.serial_steps + 1 }

  -- The lane after the token, wherever it was emitted.
  abbrev queued : Lane Rec Row → List ℕ → List ℕ → Lane Rec Row
  queued l o q = record l { slot = record (l.slot) { out_q = q }; out = o }

  pub noted-Status :
      (k : PrefixCache Rec Row) (l : Lane Rec Row) (n : ℕ) (o q : List ℕ)
      → Sampled l.slot l.live l.samp n
      → l.samp ≢ c.eos
      → Status c d
          (end_step c k (queued (noted l l.samp) o q)).1.slot
          (end_step c k (queued (noted l l.samp) o q)).1.live
  noted-Status k l n o q h ne =
      let t = HasTokens-noted l l.samp n h ne in
      end_step-Status k (queued (noted l l.samp) o q) n h.active h.running
        (record { some_prompt = h.prompt_ok.some_prompt; fits = h.prompt_ok.fits })
        (record { read_all = h.run.read_all; position = h.run.position; state = h.run.state })
        (record { tokens = t.tokens; count = t.count; no_eos = t.no_eos }) h.next h.wanted

  -- One sampled token that counts.
  pub commit_sample-Status :
      (b : Bool) (k : PrefixCache Rec Row) (l : Lane Rec Row) (n : ℕ)
      → Sampled (stepped b l.slot) l.live l.samp n
      → Status c d (commit_sample c b k l).1.slot (commit_sample c b k l).1.live
  unfolding commit_sample take_token
  commit_sample-Status b k l n h =
      let l' : Lane Rec Row = record l { slot = stepped b l.slot } in
      elim (Bool-cases (l.samp == c.eos)) [
        | inl e ↦
            rw (e, commit_sample)
              (ended n (
                finish-Over l' n h.prompt_ok h.generated (ground arith)
                  (inr (inr (sym h.next ∙ ground arith)))))
        | inr e ↦
            rw (e, commit_sample)
              (emit_tok_cases (λ x. Status c d (end_step c k x).1.slot (end_step c k x).1.live)
                c.chunk l.samp (noted l' l.samp)
                (λ _. noted-Status k l' n (l.out ++ l.samp ∷ []) l.slot.out_q h (ground arith))
                (λ _. noted-Status k l' n l.out (l.slot.out_q ++ l.samp ∷ []) h (ground arith)))
      ]
