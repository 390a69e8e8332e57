-- ===== src/Risk/Manager.antt =====
-- src/trading_strands/risk/manager.py: the limits and `evaluate`.
use trading_strands.Prelude.{
  String, Bool, true, false, Option, none, some, List, [], ◌∷◌, ◌==◌, if◌then◌else◌, contains,
  or_else,
}
use trading_strands.Prelude.Int.{ℤ, ◌+ℤ◌, ltb_ℤ}
use trading_strands.Prelude.Dict.{Dict, get}
use trading_strands.Decimal.{Decimals, zero_ℤ}
use trading_strands.Ledger.Model.{Position, Ledger, equity, drawdown_pct}
use trading_strands.Coordinator.Types.{
  TradeIntent, RiskVerdict, RiskDecision, Reason, no_reason, desk_is_halted, bot_is_halted,
  drawdown_exceeds, daily_loss_exceeds, position_size_exceeds, total_exposure_exceeds, is_idle,
  is_exit,
}

pub record RiskConfig : Type 0 where
  pub max_position_pct : ℤ
  pub max_total_exposure_pct : ℤ
  pub max_drawdown_pct : ℤ
  pub daily_loss_cap_pct : ℤ

pub record RiskManager : Type 0 where
  pub config : RiskConfig
  pub halted_bots : List String
  pub desk_halted : Bool
  pub daily_loss : ℤ

unfoldable pub new_risk_manager : RiskConfig → RiskManager
new_risk_manager c = record {
  config = c;
  halted_bots = [];
  desk_halted = false;
  daily_loss = zero_ℤ;
}

-- `set.discard`
unfoldable pub discard : List String → String → List String
discard [] k = []
discard (x ∷ xs) k = let rest = discard xs k in if x == k then rest else x ∷ rest

unfoldable pub halt_bot : RiskManager → String → RiskManager
halt_bot m b = if contains m.halted_bots b then m else record m { halted_bots = b ∷ m.halted_bots }

unfoldable pub unhalt_bot : RiskManager → String → RiskManager
unfolding discard
unhalt_bot m b = record m { halted_bots = discard m.halted_bots b }

unfoldable pub halt_desk : RiskManager → RiskManager
halt_desk m = record m { desk_halted = true }

unfoldable pub unhalt_desk : RiskManager → RiskManager
unhalt_desk m = record m { desk_halted = false }

unfoldable pub record_daily_loss : RiskManager → ℤ → RiskManager
record_daily_loss m amount = record m { daily_loss = m.daily_loss +ℤ amount }

unfoldable pub reset_daily_loss : RiskManager → RiskManager
reset_daily_loss m = record m { daily_loss = zero_ℤ }

unfoldable pub approve : TradeIntent → RiskDecision
approve i = record { verdict = RiskVerdict.approved; intent = i; reason = no_reason }

unfoldable pub reject : TradeIntent → Reason → RiskDecision
reject i why = record { verdict = RiskVerdict.rejected; intent = i; reason = why }

-- the checks that apply to purchases only: the first that fails gives the reason
unfoldable pub first_failure : List (Option Reason) → Option Reason
first_failure [] = none
first_failure (none ∷ rest) = first_failure rest
first_failure (some why ∷ rest) = some why

module _ ⦃D : Decimals⦄ where
  unfoldable pub drawdown_check : RiskManager → Ledger → Option Reason
  drawdown_check m l =
      if ltb_ℤ m.config.max_drawdown_pct (drawdown_pct l)
      then some (drawdown_exceeds (drawdown_pct l) m.config.max_drawdown_pct)
      else none

  unfoldable pub daily_loss_check : RiskManager → Ledger → Option Reason
  daily_loss_check m l =
      let pct = D.div m.daily_loss (equity l) in
      if ltb_ℤ zero_ℤ (equity l)
      then if ltb_ℤ m.config.daily_loss_cap_pct pct
        then some (daily_loss_exceeds pct m.config.daily_loss_cap_pct)
        else none
      else none

  -- the share of equity that a purchase at this price takes
  unfoldable pub position_pct : Ledger → ℤ → ℤ → ℤ
  position_pct l quantity price =
      if ltb_ℤ zero_ℤ (equity l) then D.div (D.mul quantity price) (equity l) else D.one

  unfoldable pub position_check : RiskManager → TradeIntent → Ledger → Option ℤ → Option Reason
  unfolding position_pct
  position_check m i l none = none
  position_check m i l (some price) =
      let pct = position_pct l i.quantity price in
      if ltb_ℤ m.config.max_position_pct pct
      then some (position_size_exceeds pct m.config.max_position_pct)
      else none

  unfoldable pub current_exposure : List Position → Dict ℤ → ℤ
  current_exposure [] prices = zero_ℤ
  current_exposure (p ∷ ps) prices =
      D.mul p.quantity (or_else (get prices p.symbol) p.burdened_cost_basis)
      +ℤ current_exposure ps prices

  -- what the intent adds, where its symbol has a price
  unfoldable pub added_exposure : ℤ → Option ℤ → ℤ
  added_exposure quantity none = zero_ℤ
  added_exposure quantity (some price) = D.mul quantity price

  unfoldable pub exposure_check : RiskManager → TradeIntent → Ledger → Dict ℤ → Option Reason
  unfolding added_exposure
  exposure_check m i l prices =
      let new_exposure =
        current_exposure l.open_positions prices
        +ℤ added_exposure i.quantity (get prices i.symbol) in
      let pct = D.div new_exposure (equity l) in
      if ltb_ℤ zero_ℤ (equity l)
      then if ltb_ℤ m.config.max_total_exposure_pct pct
        then some (total_exposure_exceeds pct m.config.max_total_exposure_pct)
        else none
      else none

  unfoldable pub buy_checks : RiskManager → TradeIntent → Ledger → Dict ℤ → Option Reason
  unfolding first_failure
  buy_checks m i l prices = first_failure (
      drawdown_check m l
      ∷ daily_loss_check m l
      ∷ position_check m i l (get prices i.symbol)
      ∷ exposure_check m i l prices
      ∷ [])

  unfoldable pub evaluate : RiskManager → TradeIntent → Ledger → Dict ℤ → RiskDecision
  unfolding approve reject
  evaluate m i l prices =
      if is_idle i.action
      then approve i
      else if m.desk_halted
      then reject i desk_is_halted
      else if contains m.halted_bots i.bot_id
      then reject i (bot_is_halted i.bot_id)
      else if is_exit i.action
      then approve i
      else elim (buy_checks m i l prices) [ none ↦ approve i | some why ↦ reject i why ]
