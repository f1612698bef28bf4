-- ===== src/Tests.antt =====
-- Runs of the model on concrete inputs, and the theorems applied to them.
mod Runs
mod Examples
mod Machines
mod Passes
