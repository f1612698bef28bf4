-- ===== src/Tests/Machines.antt =====
-- The theorems on the stub at concrete inputs.
use qwen_kernel.Prelude.{
  ◌+◌, ◌-◌, ◌*◌, ◌%◌, ◌<◌, ◌≡◌, ◌∷◌, ◌++◌, ◌==◌, ℕ, min, refl, Bool, false, some, List, [], map,
  arith, ltb, length, get_or, set, take,
}
use qwen_kernel.Pipe.{Worker, bad_frame, connection, payload_size, pipe_magic}
use qwen_kernel.Pipe.Replies.{
  Sent, all_words, connection-AllReplies, loaded, no_more, one_more_reply, sampled_from,
}
use qwen_kernel.Serial.{SerialResult, Slots, last_row, serial_prefill}
use qwen_kernel.Serial.First.{IsAnswer, IsOrder, reads, serial_prefill-IsAnswer}
use qwen_kernel.Slot.{Params}
use qwen_kernel.Start.{all_below, start_error}
use qwen_kernel.Stub.{Config, StubEngine, stub_opened, zero_slot}
use qwen_kernel.Stub.Calls.{request, stub_calls, stub_request-Stream}
use qwen_kernel.Stub.Chain.{stub_start_error-engine}
use qwen_kernel.Stub.Requests.{accepted_slot, stub_slot_start, stub_start_error}
use qwen_kernel.Stub.Stage.{Conversions}
use qwen_kernel.Stub.Stream.{ids_to, n_ids}
use qwen_kernel.Toy.{free_slot, params}

abbrev stub_cfg : Config
stub_cfg = record { n_slots = 2; n_ctx = 64; chunk = 4 }

abbrev stub : StubEngine
stub = stub_opened stub_cfg (0, 40)

abbrev two_ids : List ℕ
two_ids = 5 ∷ 6 ∷ []

abbrev stub_busy : StubEngine
stub_busy = record stub { slots = set stub.slots 1 (accepted_slot two_ids 3) }

stub_request-Stream_example :
    ((stub_calls 2 stub_busy 1).0
      ≡ ids_to
          (request two_ids 3).last_tok
          (min (n_ids (request two_ids 3)) (2 * stub_cfg.chunk - length two_ids)))
    × (length two_ids + n_ids (request two_ids 3) < 2 * stub_cfg.chunk
        → (get_or (stub_calls 2 stub_busy 1).1.slots 1 zero_slot).active ≡ false)
unfolding stub_slot_start stub_start_error all_below
stub_request-Stream_example = stub_request-Stream 2 stub stub_busy 1 two_ids 3 refl refl

-- Floats that hold every id.
abbrev id_floats : Conversions ℕ
id_floats = record { of_uint = λ t. t; to_uint = λ x. x }

abbrev stub_like : Params
stub_like = record params { vocab = 248320; n_ctx = 64; n_slots = 2 }

stub_start_error-engine_example :
    stub_start_error stub 1 two_ids 63 ≡ start_error stub_like 1 free_slot two_ids 63
stub_start_error-engine_example =
    stub_start_error-engine stub_like free_slot stub 1 two_ids 63 refl refl refl refl refl

-- A last stage that counts the tokens it has run, and answers each with its double.
abbrev counter : Worker ℕ
counter = record {
  l_first = 20;
  l_end = 40;
  n_layer = 40;
  n_embd = 2;
  n_slots = 1;
  n_ctx = 64;
  run = λ e h ws. some (e + h.n, map (λ x. x * 2) (take h.n ws));
  top = λ e k. some (e ∷ k ∷ []);
  save = λ e s i n. (e, 0);
  load = λ e s i n. (i, 0);
}

abbrev run_two : Sent
run_two = record {
  header = record { op = 1; slot = 0; n = 2; base = 0; topk = 1 };
  payload = 5 ∷ 6 ∷ 7 ∷ 8 ∷ [];
}

abbrev load_nine : Sent
load_nine = record { header = record { op = 4; slot = 0; n = 9; base = 0; topk = 0 }; payload = [] }

connection-AllReplies_example :
    connection counter 3 (pipe_magic ∷ all_words (run_two ∷ load_nine ∷ []))
    ≡ ((pipe_magic ∷ 20 ∷ 40 ∷ 40 ∷ 2 ∷ 1 ∷ 64 ∷ []) ++ 10 ∷ 12 ∷ 5 ∷ 1 ∷ 0 ∷ [], 9)
unfolding bad_frame payload_size
connection-AllReplies_example =
    connection-AllReplies counter 3 9 (run_two ∷ load_nine ∷ []) (10 ∷ 12 ∷ 5 ∷ 1 ∷ 0 ∷ []) (
      one_more_reply 3 5 9 run_two (load_nine ∷ []) (10 ∷ 12 ∷ 5 ∷ 1 ∷ []) (0 ∷ [])
        (sampled_from 3 run_two (10 ∷ 12 ∷ []) (5 ∷ 1 ∷ []) 5 refl refl (omega arith) refl refl)
        (one_more_reply 5 9 9 load_nine [] (0 ∷ []) [] (loaded 5 load_nine refl refl) (no_more 9)))

abbrev greater : ℕ → ℕ → Bool
greater a b = ltb b a

greater-IsOrder : IsOrder greater
greater-IsOrder = record {
  asym = λ a b h. ground (arith, h);
  weak = λ a b c h k. ground (arith, h, k);
}

abbrev digits_read : ℕ → ℕ → ℕ → ℕ
digits_read s tok pos = s * 10 + tok

abbrev row_of : ℕ → ℕ → ℕ
row_of s i = (s + i * 3) % 5

abbrev two_free : Slots ℕ
two_free = record { state = λ s. 7; active = λ s. s == 2 }

serial_prefill-IsAnswer_example :
    (r : SerialResult ℕ ℕ) × ((serial_prefill greater 0 digits_read row_of 5
          (4 ∷ 2 ∷ [])
          1
          (λ i. 0)
          two_free
        ≡ some r)
      × IsAnswer greater (row_of 42) 5 1 two_free r)
unfolding reads last_row
serial_prefill-IsAnswer_example =
    serial_prefill-IsAnswer greater greater-IsOrder 0 digits_read row_of 5 (4 ∷ 2 ∷ []) 1 (λ i. 0)
      two_free (omega arith) (λ s h. ground (arith, h))
