-- ===== src/Speculate.antt =====
-- Speculative decoding of src/main.cpp: specDraft (prompt lookup), and one verify round of phase 2
-- of stepChunk (draft, verify, accept, commit or promote, emit).
pub mod Accept
use qwen_kernel.Prelude.{
  ◌>>=◌, ◌+◌, ◌-◌, ◌*◌, ◌%◌, ◌&&◌, ◌||◌, ◌∷◌, ◌++◌, ◌==◌, if◌then◌else◌, ℕ, zero, suc, min, max,
  bit_xor, Bool, true, false, not, Option, none, some, List, [], ltb, leb, sub32, length, get_or,
  take, drop, Run, done, stalled,
}
use qwen_kernel.Device.{Device, Live}
use qwen_kernel.Prefill.{Verified, prefill_batch, promote_scratch, verify_round}
use qwen_kernel.PrefixCache.{PrefixCache, snapshot_slot}
use qwen_kernel.Slot.{Lane, Params, Slot, emit_tok, finish}

-- The lambda `tok`: the token at place i of prompt ++ genTokens.
abbrev pub tok : Slot → ℕ → ℕ
tok s i =
    if ltb i (length s.prompt)
    then get_or s.prompt i 0
    else get_or s.gen_tokens (i - length s.prompt) 0

abbrev pub history_size : Slot → ℕ
history_size s = length s.prompt + length s.gen_tokens

-- FNV-1a over `n` tokens of the history from place i on, in uint64_t.
unfoldable pub gram_from : Slot → ℕ → ℕ → ℕ → ℕ
gram_from s i zero h = h
gram_from s i (suc n) h =
    gram_from s (i + 1) n ((bit_xor h (tok s i) * 1099511628211) % 18446744073709551616)

unfoldable pub gram_hash : Params → Slot → ℕ → ℕ
gram_hash c s end = gram_from s (end - c.spec_l) c.spec_l 1469598103934665603

-- The indexing loop: the next `n` grams, from the one that ends at `end` on.
unfoldable pub index_grams : Params → Slot → ℕ → ℕ → (ℕ → Option ℕ) → ℕ → Option ℕ
index_grams c s zero end m = m
index_grams c s (suc n) end m =
    index_grams c s n (end + 1) (λ k. if k == gram_hash c s end then some end else m k)

unfoldable pub copy_toks : Slot → ℕ → ℕ → List ℕ
copy_toks s e zero = []
copy_toks s e (suc n) = tok s e ∷ copy_toks s (e + 1) n

-- The batch for a gram that was seen before, at place `e`; `[]` is the return of 0.
unfoldable pub draft_at : Params → Slot → Option ℕ → List ℕ
unfolding copy_toks
draft_at c s none = []
draft_at c s (some e) =
    let max_n = min (min c.spec_k (sub32 c.n_ctx s.pos)) (sub32 s.max_gen s.gen) in
    if ltb max_n 2
    then []
    else tok s (history_size s - 1) ∷ copy_toks s e (min (max_n - 1) (history_size s - e))

-- specDraft: the slot with its index grown, and the verify batch.
unfoldable pub spec_draft : Params → Slot → Slot × List ℕ
spec_draft c s =
    let from = max s.ngram_built c.spec_l in
    let m = index_grams c s (history_size s - from) from s.ngram in
    let s' = record s { ngram = m; ngram_built = history_size s } in
    if ltb (history_size s) (c.spec_l + 1)
    then (s, [])
    else (s', draft_at c s (m (gram_hash c s (history_size s))))

-- `while (k < n && specToks[k] == specAm[k - 1]) k++`, over specToks from k on and specAm from
-- k - 1 on.
unfoldable pub accept_from : List ℕ → List ℕ → ℕ → ℕ
accept_from [] ids k = k
accept_from (t ∷ ts) [] k = k
accept_from (t ∷ ts) (i ∷ ids) k = if t == i then accept_from ts ids (k + 1) else k

-- The scan of specAm[0, k) for an accepted end-of-sequence token.
unfoldable pub find_eos : ℕ → List ℕ → ℕ → ℕ → Option ℕ
find_eos eos ids zero i = none
find_eos eos [] (suc k) i = none
find_eos eos (t ∷ ids) (suc k) i = if t == eos then some i else find_eos eos ids k (i + 1)

-- How far a round goes: tokens fed (k), tokens emitted (emitN), and whether it met the end.
pub record Accepted : Type 0 where
  pub fed : ℕ
  pub emitted : ℕ
  pub eos_hit : Bool

abbrev pub cut_at_eos : ℕ → Option ℕ → Accepted
cut_at_eos k none = record { fed = k; emitted = k; eos_hit = false }
cut_at_eos k (some i) = record { fed = i + 1; emitted = i; eos_hit = true }

unfoldable pub accept : ℕ → List ℕ → List ℕ → Accepted
accept eos toks ids = let k = accept_from (drop 1 toks) ids 1 in cut_at_eos k (find_eos eos ids k 0)

module _ {Rec Row : Type 0} where
  -- One accepted token: recorded, and emitted.
  unfoldable pub take_token : ℕ → Lane Rec Row → ℕ → Lane Rec Row
  take_token chunk l t =
      emit_tok chunk
        (record l {
          slot = record (l.slot) {
            gen_tokens = l.slot.gen_tokens ++ t ∷ [];
            last = t;
            gen = l.slot.gen + 1;
          };
        })
        t

  unfoldable pub take_tokens : ℕ → Lane Rec Row → List ℕ → Lane Rec Row
  take_tokens chunk l [] = l
  take_tokens chunk l (t ∷ ts) = take_tokens chunk (take_token chunk l t) ts

module _ {Rec Row : Type 0} (c : Params) (d : Device Rec Row) where
  -- Full acceptance promotes the scratch state, else the accepted tokens are run again, live.
  unfoldable pub settle : ℕ → ℕ → List ℕ → ℕ → Verified Rec Row → Run (Live Rec Row)
  settle idx pos toks k v =
      if k == length toks
      then done (promote_scratch v)
      else prefill_batch c d idx v.live (take k toks) pos

  -- The end of a round: the finishing test, the snapshot, and `finish`.
  unfoldable pub end_round :
      Bool → PrefixCache Rec Row → Lane Rec Row → PrefixCache Rec Row × Lane Rec Row
  end_round eos_hit k l =
      if eos_hit || leb l.slot.max_gen l.slot.gen || leb c.n_ctx l.slot.pos
      then (
        snapshot_slot c k l.slot l.live,
        finish (record l { slot = record (l.slot) { fin_pending = true } }),
      )
      else (k, l)

  -- One round on lane `idx` with the batch `toks`.
  unfoldable pub spec_round :
      ℕ → PrefixCache Rec Row → Lane Rec Row → List ℕ → Run (PrefixCache Rec Row × Lane Rec Row)
  spec_round idx k l toks = do
    v ← verify_round c d idx l.live toks l.slot.pos
    let a = accept c.eos toks v.ids
    live ← settle idx l.slot.pos toks a.fed v
    let l' =
        take_tokens c.chunk
          (record l { live = live; slot = record (l.slot) { pos = l.slot.pos + a.fed } })
          (take a.emitted v.ids)
    done (
        end_round a.eos_hit k (record l' {
          slot = record (l'.slot) {
            spec_rounds = l'.slot.spec_rounds + 1;
            spec_fed = l'.slot.spec_fed + a.fed;
            spec_emitted = l'.slot.spec_emitted + a.emitted;
          };
        }))

  abbrev pub may_speculate : Lane Rec Row → Bool
  may_speculate l =
      l.slot.active
      && not l.slot.fin_pending
      && leb (length l.slot.prompt) l.slot.cursor
      && ltb (length l.out) c.chunk

  -- The round loop of phase 2; each round moves `pos`, so n_ctx rounds are enough.
  unfoldable pub spec_loop :
      ℕ → ℕ → PrefixCache Rec Row → Lane Rec Row → Run (PrefixCache Rec Row × Lane Rec Row)
  spec_loop zero idx k l = stalled
  spec_loop (suc fuel) idx k l = elim (may_speculate l) [
    | false ↦ done (k, l)
    | true ↦
        let drafted = spec_draft c l.slot in
        let l' = record l { slot = drafted.0 } in
        elim (ltb (length drafted.1) 2) [
          | true ↦ done (k, l')
          | false ↦ spec_round idx k l' drafted.1 >>= λ r. spec_loop fuel idx r.0 r.1
        ]
  ]
