-- ===== src/Tests/Risk.antt =====
-- Tests of the risk manager: risk/manager.py.
use trading_strands.Prelude.{◌≡◌, refl, true, false, some, [], ◌∷◌, arith}
use trading_strands.Prelude.Int.{ℤ, pos, ◌+ℤ◌, ◌-ℤ◌, ◌*ℤ◌, ◌≤ℤ◌}
use trading_strands.Prelude.Dict.{Dict, get}
use trading_strands.Decimal.{whole_units, quot_ℤ}
use trading_strands.Ledger.Model.{new_ledger, equity, drawdown_pct}
use trading_strands.Coordinator.Types.{IntentAction, buy, TradeIntent}
use trading_strands.Risk.Manager.{
  RiskManager, evaluate, drawdown_check, daily_loss_check, position_check, exposure_check,
  current_exposure, buy_checks,
}
use trading_strands.Risk.Limits.{passes}
use trading_strands.Risk.Halts.{smaller_buy_approved}
use trading_strands.Tests.Ledger.{fresh}

-- In whole units the limits are multiples of the equity: a position of at most twice it.
abbrev pub manager : RiskManager
manager = record {
  config = record {
    max_position_pct = pos 2;
    max_total_exposure_pct = pos 3;
    max_drawdown_pct = pos 0;
    daily_loss_cap_pct = pos 0;
  };
  halted_bots = "stuck" ∷ [];
  desk_halted = false;
  daily_loss = pos 0;
}

abbrev pub intent : IntentAction → ℤ → TradeIntent
intent a q = record {
  bot_id = "bot";
  org_id = "acme";
  symbol = "SPY";
  action = a;
  quantity = q;
  rationale = "";
}

abbrev pub quotes : Dict ℤ
quotes = ("SPY", pos 500) ∷ []

-- 5 * 500 is within twice the equity of 1000, and 6 * 500 is not.
position_limit :
    (passes (evaluate ⦃D = whole_units⦄ manager (intent buy (pos 5)) fresh quotes) ≡ true)
    × (passes (evaluate ⦃D = whole_units⦄ manager (intent buy (pos 6)) fresh quotes) ≡ false)
unfolding evaluate buy_checks drawdown_check daily_loss_check position_check exposure_check
    new_ledger equity drawdown_pct current_exposure get ◌+ℤ◌ ◌-ℤ◌ ◌*ℤ◌ quot_ℤ
position_limit = (refl, refl)

quoted_nonneg : (p : ℤ) → get quotes "SPY" ≡ some p → pos 0 ≤ℤ p
unfolding get
quoted_nonneg p h = ground arith

smaller_buy_approved_example :
    passes (evaluate ⦃D = whole_units⦄ manager (intent buy (pos 3)) fresh quotes) ≡ true
smaller_buy_approved_example =
    smaller_buy_approved ⦃D = whole_units⦄ manager (intent buy (pos 5)) fresh quotes (pos 3) refl
      quoted_nonneg (omega arith) position_limit.0
