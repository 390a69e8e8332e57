-- ===== src/Supervisor.antt =====
-- The strategy supervisor: supervisor/strategy_supervisor.py. `Names` has the names, `Records` the
-- decision on a stream record, `Reconcile` what a decision does to the services, and `Services`
-- what holds of the services afterwards.
pub mod Names
pub mod Records
pub mod Reconcile
pub mod Transitions
pub mod Calls
pub mod Others
pub mod Services
pub mod Sweep
pub mod Coverage
