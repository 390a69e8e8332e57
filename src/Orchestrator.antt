-- ===== src/Orchestrator.antt =====
-- The tick loop: orchestrator/engine.py. `Names` has the keys of a context, `Model` the loop, `Frame`
-- what each part of a tick leaves alone, and the others what holds of ticks and runs.
pub mod Names
pub mod Model
pub mod Frame
pub mod Ticks
pub mod Running
pub mod Safety
pub mod Completion
pub mod Breaking
pub mod Halting
pub mod Drift
