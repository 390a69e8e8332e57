-- ===== src/Authz.antt =====
-- Who may do what: src/trading_strands/authz/model.py and policy.py. The deploy flag that the
-- policy reads from the environment is the argument `flag` of each rule that reads it.
pub mod Model
pub mod Policy
pub mod Spec
