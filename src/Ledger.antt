-- ===== src/Ledger.antt =====
-- The balance sheet of a bot: ledger/models.py. `Model` has the data and the operations, `Positions`
-- the laws of the list of positions, and the other children the properties of `record_fill`.
pub mod Model
pub mod Positions
pub mod Fills
pub mod Holdings
pub mod Accounts
pub mod Equity
