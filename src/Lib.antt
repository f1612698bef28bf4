-- ===== src/Lib.antt =====
-- qwen-kernel: the serving engine behind include/qk.h.
--
-- The engine (src/main.cpp) keeps a number of slots. A client starts a request on a free slot
-- (qk_slot_start), advances all active slots with qk_step_chunk and may cancel (qk_slot_cancel). The
-- forward pass runs on the GPU; the host decides what is fed where, what a sampled token means, what
-- is cached, and what is handed out. This library models that host code.
--
-- Parts and files:
--   Device      the GPU as the host sees it: what a step computes is a parameter, with the laws
--               (IsFaithful) that the comments of main.cpp promise: a step at a position reads K/V
--               rows below it only, and the batched pass leaves what serial steps would. The laws
--               are exact; the code says that the tiled GEMM of 48 or more tokens differs by about
--               1e-7. Two states that agree on the recurrent part and below a position cannot be
--               told apart from there (Device/Agree); consecutive steps compose (Device/Steps).
--   Slot        qk_engine::Slot, the engine's parameters, and a lane: a slot with its stripes and
--               its part of the output buffers; phase 1 of stepChunk, `finish` and `emitTok`.
--   PrefixCache CacheEntry, snapshotSlot, matchPrefix, restoreInto; what a valid entry stands for
--               (PrefixCache/Coherent), which entry is matched (PrefixCache/Match) and which
--               is overwritten (PrefixCache/Victim).
--   Prefill     the argument checks of prefillBatchLast, verifyRound, promoteScratch.
--   Speculate   specDraft and one verify round of phase 2, with the round loop; what a round accepts
--               (Speculate/Accept).
--   Chunk       the serial steps of phase 3, stepChunk and qk_step_chunk.
--   Start       qk_slot_start and qk_slot_cancel.
--   Greedy      the specification: one token at a time from a reset slot; its laws (Greedy/Laws).
--   Serving     the states that a slot goes through (Serving/Status) and that every operation keeps
--               them: serial steps (Steps, Commit, Lanes), verify rounds (Draft, Round, Rounds, Loop),
--               whole calls (Drain, Calls), admission and cancelling
--               (Prefills, Starts, Requests, Cancel); what is handed out
--               (Emission, Delivery, Outputs, Deliveries).
--   Stage       qk_stage_run: the checks for every stage, the passes on an engine that owns all
--               layers; what they compute (Stage/Whole).
--   Stripes     copyStripes: the byte ranges that go to a snapshot buffer and back
--               (Stripes/RoundTrip).
--   Gguf        src/gguf.h: reads and values; key-values, tensor infos and `parse`
--               (Gguf/Directory). A read past the end of the mapping is `overrun`. That values and
--               files end (Skip, Ends); a writer and the round trip (Bytes, Write, RoundTrip), and what
--               lookups then find (Lookups, Entries, Contents). Which numbers of tensor infos can be
--               allocated is a parameter; other failing allocations are left out.
--   Batch       the command buffer that prefillBatchLast records: projections (Project), recurrent
--               and attention layers (Delta, Attention), experts (Experts), the pass (Pass); the
--               buffers that the descriptor sets bind (Buffers). The query tiles (Tiles), the grids
--               (Groups), the barriers (Hazards, Ordered, OrderedPass).
--   Quants      src/quants.h: half precision (what survives it: Halves), the block formats and their
--               dequantisation over given float arithmetic and codebooks (Blocks), and the formula
--               for each element of a Q6_K row (Closed, Rows).
--   Open        qk_engine::open: the checks (Open, Shapes), where a snapshot keeps each stripe (Layout),
--               the switches of the environment and the kernels that they allow (Switches).
--   Pipe        the connection of a pipeline worker (mode pipe-worker): hello, frames and replies as
--               words; what a driver's frames are answered (Replies).
--   Stub        stub/qk_stub.c: requests, steps, stages; what a request emits (Stream, Calls), stages
--               in a row, and the engine's checks (Chain).
--   Serial      serialPrefillLogits: the prompt through the recorded serial steps, and the argmax of its
--               logits (Serial/First).
--   Session     calls of the interface in any order, as a relation between engines.
--   Toy, Tests  a concrete device and engine, runs, and the theorems at concrete inputs.
--
-- How the model is built: numbers are natural numbers; 32-bit and 64-bit wrap-around is written out
-- where the source can reach it (the sum in qk_slot_start, the differences in specDraft, the hash,
-- the clock of the cache, the places in a GGUF file). outQ and outQHead are kept as they are; the n-gram index, an
-- unordered_map, is a function. A run yields a result, or `exited` where the code calls exit(1), or
-- `stalled` where the model's fuel is used up. The round loop has n_ctx + 1 rounds of fuel and
-- batch_to n_ctx + 1 passes: each moves the position by at least one, so neither stalls. stageRun has
-- a pass for every token, and a skipped value fuel for every byte that is left. A slot that
-- is free may be stepped along with lower indices; the model steps the first slots up to the
-- highest running one, as the recorded command buffers do.
--
-- A recorded pass is a list of commands. Its kernels' read and written buffers are those of the
-- bindings in qk_engine::open and the qualifiers in shaders/*.comp; the copies of the carry to
-- different layers are taken as apart. Sums in grids wrap at 32 bits, products of model
-- sizes and offsets within a chunk, of at most maxB tokens, are taken as in range.
--
-- Not modelled: the kernels, the serial step's command buffers, the buffers that engine
-- start-up creates, debug dumps, profiling and log lines, null pointers but for stageRun's,
-- hidden rows between pipeline stages, qk_stage_topk, the checks of qk_state_save and
-- qk_state_load, the shards of a split model, the CPU reference kernels and, but for the
-- pipeline worker, the command-line modes of src/main.cpp, the Metal back end
-- (src/main_metal.mm), the Rust server.
pub mod Prelude
pub mod Device
pub mod Slot
pub mod PrefixCache
pub mod Prefill
pub mod Speculate
pub mod Chunk
pub mod Start
pub mod Stub
pub mod Batch
pub mod Quants
pub mod Open
pub mod Greedy
pub mod Serving
pub mod Session
pub mod Gguf
pub mod Serial
pub mod Stage
pub mod Stripes
pub mod Pipe
pub mod Toy
pub mod Tests
