-- ===== src/Halt.antt =====
-- The halt flags that are shared through the table: halt/store.py. `Store` has the operations,
-- `Effective` what an organisation sees, `Audit` what the log of transitions says, and `Events` what
-- is listed of it.
pub mod Store
pub mod Effective
pub mod Audit
pub mod Log
pub mod Events
