-- ===== src/Orchestrator/Breaking.antt =====
-- An exception of one bot's predicate, which leaves the tick.
use trading_strands.Prelude.{◌≡◌, String, some}
use trading_strands.Prelude.Int.{ℤ}
use trading_strands.Prelude.Dict.{Dict, get}
use trading_strands.Decimal.{Decimals}
use trading_strands.Ledger.Model.{Ledger}
use trading_strands.Tta.{Predicate}
use trading_strands.Tta.Failures.{Fails}
use trading_strands.Orchestrator.Model.{Orchestrator, BotRegistration, build_context}

module _ {Handle : Type 0} ⦃D : Decimals⦄ where
  -- The registration has a predicate, the bot a ledger, and the predicate fails on the prices and the
  -- ledger in the state.
  pub record Spoilt (prices : Dict ℤ) (bot : String) (reg : BotRegistration)
      (o : Orchestrator Handle) : Type 0 where
    pub predicate : Predicate
    pub ledger : Ledger
    pub registered : reg.tta ≡ some predicate
    pub known : get o.coordinator.ledgers bot ≡ some ledger
    pub fails : Fails predicate (build_context prices (some ledger)) o.prev_ctx
