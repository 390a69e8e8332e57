-- ===== src/Lib.antt =====
-- Verification of TradingStrands: the path of a trade from a bot's intent to its ledger, the controls
-- around it, and the authorization policy.
--
-- The program runs trading bots for several organisations. A bot makes a `TradeIntent`. The
-- coordinator looks at the halt store, finds the broker of the bot's organisation, asks the risk
-- manager, sends an order and records the broker's fill in the bot's ledger, which the ledger store
-- makes durable. The kill switch sells positions and halts; the auditor compares ledgers with the
-- broker; trigger predicates decide when a strategy acts; the policy decides who may do what. The
-- orchestrator is the loop that ties these together, tick by tick; the supervisor keeps a service
-- running for every active strategy, and the platform supervisor watches their heartbeats.
--
-- Parts, and the files under src/trading_strands that they model:
-- - Ledger (ledger/models.py): `Ledger.Model` has fills, positions and `record_fill`; an operation
--   that raises gives the ledger as it stands then, beside the error. `Positions`, `Fills`,
--   `Holdings`, `Accounts` and `Equity` have the proofs.
-- - LedgerStore (ledger_store/store.py): snapshots, the event log, `events_for_bot`,
--   `record_and_persist`.
-- - Risk (risk/manager.py): `Manager` has the limits and `evaluate`.
-- - Coordinator (coordinator/coordinator.py, coordinator/types.py, broker/types.py): `Model` has
--   `execute`, cut into the stretches between its early returns. `Services` is what brokers, their
--   factory and the halt store answer during one call, exceptions included.
-- - KillSwitch (risk/killswitch.py): the three verbs; the broker's answer may depend on all orders
--   sent before.
-- - WhatIf (whatif/tracker.py): trades that were passed on, and their summary.
-- - Orchestrator (orchestrator/engine.py): `Model` has the tick, which wakes the bots whose
--   predicates fire, routes their intents through the coordinator and reconciles every 60 ticks, and
--   the run over the ticks. `Outside` is what the publisher, the market data, the callbacks and the
--   brokers answer during one tick; a run has as many ticks as there are answers.
-- - Tenancy (tenancy/models.py, tenancy/store.py, dashboard/principal.py): users, organisations and
--   memberships, and the principal that the policy decides on.
-- - Strategies (strategies_store/store.py, models/registry.py): the rows of strategies, their
--   co-authors, the bridge to the policy, and the models that a strategy can name.
-- - Proposals (strategy_proposals/store.py): proposed edits and the decisions on them.
-- - MarketData (marketdata_store/store.py, marketdata/provider.py, marketdata/store_provider.py):
--   observations, the bars of minutes, and the choice between the store and the broker.
-- - Tools (org_tools/store.py, tools/base.py, org_fanout/fanout.py): the switches of tools, the tools
--   that a strategy is given, and the fan-out of reviews over organisations.
-- - Quota (tool_quota/store.py): the counters of tool calls.
-- - Health (heartbeat/store.py, platform_supervisor/supervisor.py): beats and the report on them.
-- - Halt (halt/store.py): the rows of the halt table and its audit rows.
-- - Supervisor (supervisor/strategy_supervisor.py): `Records` decides on a stream record, `Reconcile`
--   carries the decision out on the container service, whose calls are the fields of `Ecs`, and
--   `Sweep` (supervisor/reconcile_all.py) does so for all strategies of the table. `Calls.Works` is what
--   the service is documented to do: a deleted service is described as draining for a while.
-- - Tta (ir/tta.py): predicates as a data type, and the evaluator with its exceptions.
-- - Auditor (auditor/reconciler.py): both reconciliations and the threshold of the kill switch.
-- - Authz (authz/model.py, authz/policy.py): the chain of allow rules, `can` and `require`.
-- - Tests: runs at concrete inputs. Prelude and Decimal: what the parts share.
--
-- Amounts are integers in a common unit that is left open. Sums, differences and comparisons are
-- those of the integers; product and quotient belong to the parameter `Decimals`, of which only the
-- unit and monotonicity are assumed, so results hold with rounding, or say where they need exact
-- products. Dictionaries are association lists that `put` keeps in the order of insertion. Texts of
-- errors and rejections are kept as data. Every loop is structural recursion; the one definition
-- with fuel, the loop of `MarketData.Store.get_range` over hours, is given more hours than reach the
-- end of the range, and `MarketData.Bars` proves that further ones would add nothing.
--
-- Not modelled: metrics and logging, DynamoDB encodings, the wall clock (an argument where a row
-- keeps it), concurrent calls, and the parts of the program that no file above names: the
-- dashboard's pages, the agents that call language models, feeds of market data, and deployment.
pub mod Supervisor
pub mod Prelude
pub mod Decimal
pub mod Ledger
pub mod LedgerStore
pub mod Coordinator
pub mod Risk
pub mod KillSwitch
pub mod WhatIf
pub mod Orchestrator
pub mod Tenancy
pub mod Health
pub mod Strategies
pub mod MarketData
pub mod Tools
pub mod Quota
pub mod Proposals
pub mod Halt
pub mod Tta
pub mod Auditor
pub mod Authz
pub mod Tests
