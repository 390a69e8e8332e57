-- ===== src/Coordinator.antt =====
-- From a trade intent to an order and a fill: coordinator/types.py and coordinator/coordinator.py.
-- `Types` has the intents and the risk decisions, which the risk manager uses too.
pub mod Types
pub mod Model
pub mod Isolation
pub mod Routing
pub mod Booking
pub mod Frame
pub mod Oversell
