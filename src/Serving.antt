-- ===== src/Serving.antt =====
-- Correctness of the serving path of src/main.cpp: what is true of a slot between two calls, and
-- that slot_start, step_chunk (all three phases) and slot_cancel keep it.
pub mod Status
pub mod Cases
pub mod Commit
pub mod Round
pub mod Rounds
pub mod Capture
pub mod Lanes
pub mod Draft
pub mod Loop
pub mod Drain
pub mod Calls
pub mod Prefills
pub mod Starts
pub mod Emission
pub mod Delivery
pub mod Deliveries
pub mod Steps
pub mod Outputs
pub mod Requests
pub mod Cancel
