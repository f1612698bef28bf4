-- ===== src/Tests/Examples.antt =====
-- The theorems at concrete inputs.
use qwen_kernel.Prelude.{
  ◌+◌, ◌-◌, ◌*◌, ◌%◌, ◌≤◌, ◌<◌, ◌≡◌, ◌↔◌, ◌⊎◌, ◌∷◌, ◌++◌, ◌==◌, if◌then◌else◌, ℕ, refl, inl, inr,
  Bool, true, false, Option, none, some, List, [], arith, leb, length, get_elem?, set, take, All,
  done,
}
use qwen_kernel.Chunk.{Engine, commit, input_pos, input_tok, serial_phase, step_chunk}
use qwen_kernel.Device.{Live, feed, feeds, feeds_ids, reset_live, sampled}
use qwen_kernel.Device.Agree.{Agree, Agree-refl}
use qwen_kernel.Gguf.{got, scalar_width}
use qwen_kernel.Gguf.Bytes.{le_bytes}
use qwen_kernel.Gguf.Contents.{HasParsed, parse-HasParsed}
use qwen_kernel.Gguf.Directory.{Directory, alignment_key, parse, same_str}
use qwen_kernel.Gguf.Ends.{parse-Takes}
use qwen_kernel.Gguf.RoundTrip.{Info, file_bytes, header_size, infos_size}
use qwen_kernel.Gguf.Skip.{Takes}
use qwen_kernel.Gguf.Write.{Value, kvs_bytes, scalar, text, value_bytes}
use qwen_kernel.Greedy.{Trace, advance, after, begin, greedy}
use qwen_kernel.Prefill.{prefill_batch, seeded}
use qwen_kernel.PrefixCache.{
  Entry, PrefixCache, match_from, match_prefix, matches, pick, pick_from, restore_into,
  snapshot_key, snapshot_slot,
}
use qwen_kernel.PrefixCache.Coherent.{Holds, IsCoherent, restore_into-Holds}
use qwen_kernel.PrefixCache.Match.{match_prefix-Best, usable}
use qwen_kernel.PrefixCache.Victim.{Stored, snapshot_slot-Stored}
use qwen_kernel.Serving.Calls.{EngineOk}
use qwen_kernel.Serving.Cancel.{Cancelled, slot_cancel-Cancelled}
use qwen_kernel.Serving.Commit.{commit-Status}
use qwen_kernel.Serving.Deliveries.{EmitsFrom, step_chunk-Delivers}
use qwen_kernel.Serving.Delivery.{drain-Delivers}
use qwen_kernel.Serving.Draft.{Drafted, spec_draft-Drafted}
use qwen_kernel.Serving.Emission.{Delivers, take_tokens-Delivers}
use qwen_kernel.Serving.Lanes.{AllOk, serial_phase-AllOk}
use qwen_kernel.Serving.Loop.{Served, spec_loop-Served}
use qwen_kernel.Serving.Prefills.{HasRead, batch_to-HasRead}
use qwen_kernel.Serving.Requests.{slot_start-EngineOk, start_error_iff, start_error_wraps}
use qwen_kernel.Serving.Round.{Fits, settle-Agree}
use qwen_kernel.Serving.Rounds.{RoundDone, spec_round-RoundDone}
use qwen_kernel.Serving.Status.{Decoding, HasPrompt, HasRun, HasTokens, Reading, Status, decoding}
use qwen_kernel.Session.{by_start, by_step, opened}
use qwen_kernel.Session.Safe.{Reaches-EngineOk, session-Greedy}
use qwen_kernel.Slot.{Lane, Slot, drain, reset_spec}
use qwen_kernel.Speculate.{accept, settle, spec_draft, spec_loop, spec_round, take_tokens}
use qwen_kernel.Speculate.Accept.{Commits, NoEos, accept-Commits}
use qwen_kernel.Stage.{stage_ran, stage_run}
use qwen_kernel.Stage.Whole.{stage_run-feeds}
use qwen_kernel.Start.{
  admit, all_below, batch_to, occupied, prefill_batched, prefill_history, prefill_prompt, resident,
  slot_cancel, slot_start, start_error, start_lane, started,
}
use qwen_kernel.Stripes.{Stripe, load_stripe, save_stripe}
use qwen_kernel.Stripes.RoundTrip.{load_stripe-save_stripe, load_stripe_others}
use qwen_kernel.Tests.Runs.{
  active_lane2, after_step, at_lane2, engine1, engine2, lane2, prompt20, start_runs, step_runs,
}
use qwen_kernel.Toy.{
  empty_entry, engine, engine-EngineOk, free_lane, free_slot, params, params-IsWhole, toy,
  toy-IsFaithful,
}

session-Greedy_example :
    (lane2.slot.gen_tokens ≡ greedy toy (begin toy lane2.slot.prompt) lane2.slot.gen)
    × NoEos params.eos lane2.slot.gen_tokens
    × ((r : Engine ℕ ℕ × ℕ) × (step_chunk params toy engine2 ≡ done r))
session-Greedy_example =
    session-Greedy params toy toy-IsFaithful params-IsWhole engine engine2 0 lane2 engine-EngineOk
      (by_step (after_step (step_chunk params toy engine1))
        (by_start 0 prompt20 12 0 opened (omega arith) start_runs) step_runs)
      at_lane2 active_lane2

engine1-EngineOk : EngineOk params toy engine1
engine1-EngineOk =
    Reaches-EngineOk params toy toy-IsFaithful params-IsWhole engine-EngineOk
      (by_start 0 prompt20 12 0 opened (omega arith) start_runs)

-- Slot 0 is active and has sent nothing, slot 1 is free.
abbrev sent : ℕ → Option (List ℕ)
sent i = if i == 0 then some [] else none

step_chunk-Delivers_example :
    (r : Engine ℕ ℕ × ℕ) × (step_chunk params toy engine1 ≡ done r)
    × EngineOk params toy r.0
    × EmitsFrom params toy sent 0 r.0.lanes
unfolding slot_start start_error all_below start_lane resident match_prefix match_from matches
    prefill_prompt prefill_batched prefill_history batch_to prefill_batch admit occupied reset_spec
    snapshot_slot pick pick_from snapshot_key feeds feed
step_chunk-Delivers_example =
    step_chunk-Delivers params toy toy-IsFaithful params-IsWhole sent engine1 engine1-EngineOk
      ((refl, omega arith, refl), (refl, tt))

slot_start-EngineOk_example :
    (k : PrefixCache ℕ ℕ) × (l' : Lane ℕ ℕ) × (slot_start params toy engine 0 prompt20 12 0
      ≡ done (started (record { lanes = set engine.lanes 0 l'; cache = k })))
    × (l'.slot.prompt ≡ prompt20)
    × (l'.slot.max_gen ≡ 12)
    × Reading params toy l'.slot l'.live
    × EngineOk params toy (record { lanes = set engine.lanes 0 l'; cache = k })
unfolding start_error all_below
slot_start-EngineOk_example =
    slot_start-EngineOk params toy toy-IsFaithful params-IsWhole engine 0 free_lane prompt20 12 0
      engine-EngineOk refl refl (omega arith)

slot_cancel-Cancelled_example :
    Cancelled params 0 engine1 (slot_cancel engine1 0) × EngineOk params toy (slot_cancel engine1 0)
slot_cancel-Cancelled_example = slot_cancel-Cancelled params toy engine1 0 engine1-EngineOk

start_error_iff_example : (start_error params 0 free_slot prompt20 12 ≡ none) ↔ (
    (0 < params.n_slots)
    × (params.l_first ≡ 0)
    × (params.l_end ≡ params.n_layer)
    × (free_slot.active ≡ false)
    × (1 ≤ length prompt20)
    × ((length prompt20 + 12) % 4294967296 ≤ params.n_ctx)
    × All (λ t. t < params.vocab) prompt20)
start_error_iff_example = start_error_iff params toy 0 free_slot prompt20 12

-- A slot that has fed one generated token of twelve.
abbrev short : List ℕ
short = 1 ∷ 2 ∷ []

abbrev trace : Trace ℕ ℕ
trace = begin toy short

abbrev busy_slot : Slot
busy_slot = record free_slot {
  active = true;
  prompt = short;
  gen_tokens = greedy toy trace 2;
  cursor = 2;
  pos = 3;
  gen = 2;
  max_gen = 12;
  last = (after toy trace 2).next;
}

abbrev busy : Lane ℕ ℕ
busy = record free_lane { slot = busy_slot; live = (after toy trace 2).live }

busy-HasPrompt : HasPrompt params busy_slot
busy-HasPrompt = record { some_prompt = omega arith; fits = omega arith }

busy-HasRun : HasRun params toy busy_slot busy.live 1
busy-HasRun = record { read_all = refl; position = refl; state = Agree-refl 3 busy.live }

busy-HasTokens : HasTokens params toy busy_slot 2
unfolding greedy after advance begin feeds feed sampled
busy-HasTokens = record {
  tokens = refl;
  count = refl;
  no_eos = ((λ h. ground arith), ((λ h. ground arith), tt));
}

busy-Decoding : Decoding params toy busy_slot busy.live 1
busy-Decoding = record {
  active = refl;
  running = refl;
  prompt_ok = busy-HasPrompt;
  run = busy-HasRun;
  generated = busy-HasTokens;
  sampled = refl;
  room = omega arith;
  wanted = omega arith;
}

accept-Commits_example :
    Commits toy 40 trace
      (trace.next ∷ 3 ∷ 1 ∷ [])
      (feeds_ids toy trace.live (trace.next ∷ 3 ∷ 1 ∷ []) trace.at)
      (accept 40
        (trace.next ∷ 3 ∷ 1 ∷ [])
        (feeds_ids toy trace.live (trace.next ∷ 3 ∷ 1 ∷ []) trace.at))
accept-Commits_example = accept-Commits toy 40 trace (3 ∷ 1 ∷ [])

busy-Fits : Fits params 0 3 2
busy-Fits = record {
  whole_first = refl;
  whole_last = refl;
  slot_ok = omega arith;
  some_tokens = omega arith;
  in_batch = omega arith;
  in_context = omega arith;
}

spec_round-RoundDone_example :
    RoundDone params toy toy-IsFaithful busy 1 engine.cache
      (spec_round params toy 0 engine.cache busy (busy_slot.last ∷ 0 ∷ []))
spec_round-RoundDone_example =
    spec_round-RoundDone params toy toy-IsFaithful 0 engine.cache busy 1 (0 ∷ []) busy-Decoding
      busy-Fits (omega arith)

spec_loop-Served_example :
    Served params toy toy-IsFaithful (spec_loop params toy 65 0 engine.cache busy)
spec_loop-Served_example =
    spec_loop-Served params toy toy-IsFaithful params-IsWhole 0 (omega arith) 65 engine.cache busy
      (omega arith) (omega arith) engine-EngineOk.coherent (decoding 1 busy-Decoding)

spec_draft-Drafted_example :
    Decoding params toy (spec_draft params busy_slot).0 busy.live 1
    × (2 ≤ length (spec_draft params busy_slot).1
        → Drafted params toy (spec_draft params busy_slot).0 (spec_draft params busy_slot).1)
    × ((spec_draft params busy_slot).0.pos ≡ busy_slot.pos)
spec_draft-Drafted_example = spec_draft-Drafted params toy busy_slot busy.live 1 busy-Decoding

serial_phase-AllOk_example :
    AllOk params toy (serial_phase params toy 4 engine1).lanes
    × IsCoherent toy (serial_phase params toy 4 engine1).cache
serial_phase-AllOk_example =
    serial_phase-AllOk params toy toy-IsFaithful 4 engine1 engine1-EngineOk.lanes_ok
      engine1-EngineOk.coherent

batch_to-HasRead_example :
    (lv : Live ℕ ℕ) × (p : ℕ) × (batch_to params toy 65 0 prompt20 19 0 (reset_live toy)
      ≡ done (lv, p))
    × (0 ≤ p)
    × (p ≤ 19)
    × (19 < p + 16)
    × HasRead params toy prompt20 p lv
unfolding feeds
batch_to-HasRead_example =
    batch_to-HasRead params toy toy-IsFaithful params-IsWhole 0 (omega arith) 65 prompt20 19 0
      (reset_live toy) (omega arith) (omega arith) (omega arith) (omega arith)
      (Agree-refl 0 (reset_live toy))

-- The slot after the GPU worked on it.
abbrev stepped_busy : Lane ℕ ℕ
stepped_busy = record busy {
  live = feed toy busy.live (input_tok busy_slot) (input_pos busy_slot);
  samp = sampled toy busy.live (input_tok busy_slot) (input_pos busy_slot);
}

commit-Status_example :
    Status params toy
      (commit params engine.cache stepped_busy).1.slot
      (commit params engine.cache stepped_busy).1.live
commit-Status_example =
    commit-Status params toy toy-IsFaithful engine.cache stepped_busy busy.live
      (record { fed = refl; sample = refl }) (decoding 1 busy-Decoding)

settle-Agree_example :
    (lv : Live ℕ ℕ) × (settle params toy 0 3 (busy_slot.last ∷ 0 ∷ []) 1 (record {
      live = record {
        rec = busy.live.rec;
        kv = (feeds toy busy.live (busy_slot.last ∷ 0 ∷ []) 3).kv;
      };
      scratch = (feeds toy busy.live (busy_slot.last ∷ 0 ∷ []) 3).rec;
      ids = feeds_ids toy busy.live (busy_slot.last ∷ 0 ∷ []) 3;
    })
      ≡ done lv)
    × Agree 4 lv (feeds toy busy.live (busy_slot.last ∷ []) 3)
settle-Agree_example =
    settle-Agree params toy toy-IsFaithful 0 3 1 busy.live (busy_slot.last ∷ 0 ∷ []) busy-Fits
      (omega arith) (omega arith) (omega arith)

-- A cache whose first entry holds nine tokens.
abbrev nine : List ℕ
nine = 1 ∷ 2 ∷ 3 ∷ 4 ∷ 5 ∷ 6 ∷ 7 ∷ 8 ∷ 9 ∷ []

abbrev entry9 : Entry ℕ ℕ
entry9 = record { tokens = nine; snap = feeds toy (reset_live toy) nine 0; lru = 1; valid = true }

abbrev cache9 : PrefixCache ℕ ℕ
cache9 = record { entries = entry9 ∷ empty_entry ∷ []; clock = 1 }

cache9-IsCoherent : IsCoherent toy cache9
cache9-IsCoherent = ((λ h. Agree-refl 9 entry9.snap), ((λ h. cc), tt))

match_prefix-Best_example :
    ((match_prefix cache9 (nine ++ 10 ∷ []) 10 ≡ none)
      × All (λ e. usable (nine ++ 10 ∷ []) 10 e ≡ true → length e.tokens ≤ 8) cache9.entries)
    ⊎ ((j : ℕ) × (e : Entry ℕ ℕ) × (match_prefix cache9 (nine ++ 10 ∷ []) 10 ≡ some j)
        × (get_elem? cache9.entries j ≡ some e)
        × (e.valid ≡ true)
        × (e.tokens ≡ take (length e.tokens) (nine ++ 10 ∷ []))
        × (8 < length e.tokens)
        × (length e.tokens < 10)
        × All
            (λ x. usable (nine ++ 10 ∷ []) 10 x ≡ true → length x.tokens ≤ length e.tokens)
            cache9.entries)
match_prefix-Best_example = match_prefix-Best cache9 (nine ++ 10 ∷ []) 10

restore_into-Holds_example :
    Holds toy nine (restore_into cache9 0 (reset_live toy)).1
    × IsCoherent toy (restore_into cache9 0 (reset_live toy)).0
restore_into-Holds_example =
    restore_into-Holds toy cache9 0 (reset_live toy) entry9 cache9-IsCoherent refl refl

-- The cache after the busy slot, at position 9, is cached.
abbrev nine_read : Slot
nine_read = record busy_slot { prompt = nine; pos = 9; gen_tokens = [] }

snapshot_slot-Stored_example :
    Stored toy params cache9 nine_read entry9.snap
      (snapshot_slot params cache9 nine_read entry9.snap)
    × IsCoherent toy (snapshot_slot params cache9 nine_read entry9.snap)
snapshot_slot-Stored_example =
    snapshot_slot-Stored toy params cache9 nine_read entry9.snap cache9-IsCoherent (omega arith)
      (Agree-refl 9 entry9.snap)

-- What waited goes out first, then new tokens as long as there is room.
abbrev full_queue : Lane ℕ ℕ
full_queue = record free_lane {
  slot = record busy_slot { gen_tokens = 5 ∷ 6 ∷ 7 ∷ []; out_q = 5 ∷ 6 ∷ 7 ∷ []; out_q_head = 1 };
}

drain-Delivers_example : Delivers params.chunk (5 ∷ []) (drain params.chunk full_queue)
drain-Delivers_example =
    drain-Delivers params toy (5 ∷ []) full_queue refl
      (record { head_ok = omega arith; nothing_out = refl; all_tokens = refl })

take_tokens-Delivers_example : Delivers 4 [] (
    take_tokens 4
      (record free_lane { slot = busy_slot; out = greedy toy trace 2 })
      (5 ∷ 6 ∷ 7 ∷ []))
unfolding greedy after advance
take_tokens-Delivers_example =
    take_tokens-Delivers 4 [] (5 ∷ 6 ∷ 7 ∷ [])
      (record free_lane { slot = busy_slot; out = greedy toy trace 2 })
      (record {
        head_ok = omega arith;
        at_most = omega arith;
        in_order = inl refl;
        all_tokens = refl;
      })

-- A file with one string, one number and one tensor.
abbrev kvs : List (List ℕ × Value)
kvs = (97 ∷ [], text (98 ∷ 99 ∷ [])) ∷ (alignment_key, scalar 4 4 64) ∷ []

abbrev infos : List Info
infos = record { name = 119 ∷ []; dims = 256 ∷ 2 ∷ []; type = 14; place = 0 } ∷ []

abbrev no_directory : Directory
no_directory = record {
  keys = record { alignment = 32; split_count = 0; split_total = 0; kv_int = []; kv_str = [] };
  tensors = [];
}

-- Room for a million tensors.
abbrev a_million : ℕ → Bool
a_million n = leb n 1000000

parse-HasParsed_example :
    (new : Directory) × ((parse a_million true no_directory (file_bytes 3 kvs infos [])
        ≡ got (some new) (record { pos = header_size kvs infos; rest = [] }))
      × HasParsed true kvs infos (header_size kvs infos) no_directory new)
unfolding scalar_width infos_size kvs_bytes value_bytes le_bytes same_str
parse-HasParsed_example =
    parse-HasParsed a_million true no_directory 3 kvs infos [] (omega arith) (omega arith)
      (omega arith) (omega arith)
      ((omega arith, omega arith), ((omega arith, (refl, omega arith, omega arith)), tt))
      (
        record {
          name_ok = omega arith;
          dims_ok = (omega arith, (omega arith, tt));
          few_dims = omega arith;
          type_ok = omega arith;
          place_ok = omega arith;
        },
        tt,
      )
      refl (omega arith) (omega arith, tt)

parse-Takes_example :
    Takes 0
      (length (file_bytes 3 kvs infos []))
      (parse a_million true no_directory (file_bytes 3 kvs infos []))
parse-Takes_example = parse-Takes a_million true no_directory (file_bytes 3 kvs infos [])

stage_run-feeds_example :
    stage_run params toy 0 (reset_live toy) prompt20 0
    ≡ done (
        stage_ran
          (feeds toy (seeded params toy (reset_live toy) 0) prompt20 0)
          (feeds_ids toy (seeded params toy (reset_live toy) 0) prompt20 0))
stage_run-feeds_example =
    stage_run-feeds params toy toy-IsFaithful params-IsWhole 0 (omega arith) (reset_live toy)
      prompt20 0 (omega arith) (omega arith)

-- Two heads of 4096 bytes, of which one token takes 1024 each.
abbrev kv_stripe : Stripe
kv_stripe = record { recurrent = false; size = 8192; snap_off = 100 }

load_stripe-save_stripe_example :
    load_stripe 4 kv_stripe 1 1
      (save_stripe 4 kv_stripe 1 1 (λ i. i) (λ i. 0))
      (λ i. 7)
      (1 * 8192 + 4100)
    ≡ 1 * 8192 + 4100
load_stripe-save_stripe_example =
    load_stripe-save_stripe 4 kv_stripe 1 1 4100 (λ i. i) (λ i. 0) (λ i. 7) (omega arith)
      (inr (omega arith, omega arith))

load_stripe_others_example : load_stripe 4 kv_stripe 1 1 (λ i. 9) (λ i. i) 20000 ≡ 20000
load_stripe_others_example =
    load_stripe_others 4 kv_stripe 1 1 20000 (λ i. 9) (λ i. i) (omega arith) (inr (omega arith))

-- A prompt of twenty tokens passes on an engine with room for ten.
start_error_wraps_example :
    start_error (record params { n_ctx = 10 }) 0 free_slot prompt20 (4294967296 - length prompt20)
    ≡ none
start_error_wraps_example =
    start_error_wraps (record params { n_ctx = 10 }) toy 0 free_slot prompt20 (omega arith) refl
      refl refl (omega arith) (omega arith) (all_below-All_prompt20)
  where
    all_below-All_prompt20 : All (λ t. t < 50) prompt20
    all_below-All_prompt20 = ground arith
