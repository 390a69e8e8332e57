-- ===== src/Tests.antt =====
-- Runs at concrete inputs: the theorems at inputs that meet their hypotheses, and the code on small
-- cases, one module for each component.
mod Authz
mod Ledger
mod LedgerStore
mod Risk
mod Coordinator
mod Oversell
mod Halt
mod Tta
mod Auditor
mod KillSwitch
mod Supervisor
mod Orchestrator
mod WhatIf
mod Quota
mod MarketData
mod Strategies
mod Health
mod Tenancy
mod Proposals
