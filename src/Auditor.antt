-- ===== src/Auditor.antt =====
-- Ledger against broker: auditor/reconciler.py. `Reconciler` has the checks, `Totals` what they find.
pub mod Reconciler
pub mod Totals
