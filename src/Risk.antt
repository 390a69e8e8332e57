-- ===== src/Risk.antt =====
-- The risk gate: risk/manager.py.
pub mod Manager
pub mod Limits
pub mod Halts
