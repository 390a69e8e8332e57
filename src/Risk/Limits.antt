-- ===== src/Risk/Limits.antt =====
-- What an approval of the risk manager guarantees, and what the halt flags do.
use trading_strands.Prelude.{
  String, ◌≡◌, ◌≢◌, ◌↔◌, refl, Bool, true, false, not, ◌||◌, Option, none, some, arith, contains,
}
use trading_strands.Prelude.Int.{ℤ, ◌≤ℤ◌, ◌<ℤ◌, ◌+ℤ◌, ltb_ℤ→lt}
use trading_strands.Prelude.Dict.{Dict, get}
use trading_strands.Decimal.{Decimals, zero_ℤ}
use trading_strands.Ledger.Model.{Ledger, equity, drawdown_pct}
use trading_strands.Coordinator.Types.{buy, TradeIntent, RiskDecision, is_idle, is_approved}
use trading_strands.Risk.Manager.{
  RiskManager, drawdown_check, daily_loss_check, position_pct, position_check, current_exposure,
  added_exposure, exposure_check, buy_checks, evaluate,
}

-- `RiskDecision.approved`
abbrev pub passes : RiskDecision → Bool
passes d = is_approved d.verdict

-- The bot or the desk is halted.
abbrev pub is_halted : RiskManager → String → Bool
is_halted m b = m.desk_halted || contains m.halted_bots b

module _ ⦃D : Decimals⦄ where
  -- What the four limits ask of a purchase.
  pub record WithinLimits (m : RiskManager) (i : TradeIntent) (l : Ledger) (prices : Dict ℤ)
      : Type 0 where
    pub drawdown : drawdown_pct l ≤ℤ m.config.max_drawdown_pct
    pub daily_loss :
        zero_ℤ <ℤ equity l → D.div m.daily_loss (equity l) ≤ℤ m.config.daily_loss_cap_pct
    pub position :
        (price : ℤ)
        → get prices i.symbol ≡ some price
        → position_pct l i.quantity price ≤ℤ m.config.max_position_pct
    pub exposure :
        zero_ℤ <ℤ equity l
        → D.div
            (current_exposure l.open_positions prices
              +ℤ added_exposure i.quantity (get prices i.symbol))
            (equity l)
          ≤ℤ m.config.max_total_exposure_pct

  drawdown-sound :
      (m : RiskManager) (l : Ledger)
      → drawdown_check m l ≡ none
      → drawdown_pct l ≤ℤ m.config.max_drawdown_pct
  unfolding drawdown_check
  drawdown-sound m l h = ground arith

  daily_loss-sound :
      (m : RiskManager) (l : Ledger)
      → daily_loss_check m l ≡ none
      → zero_ℤ <ℤ equity l
      → D.div m.daily_loss (equity l) ≤ℤ m.config.daily_loss_cap_pct
  unfolding daily_loss_check
  daily_loss-sound m l h p = ground arith

  position-sound :
      (m : RiskManager) (i : TradeIntent) (l : Ledger) (price : ℤ)
      → position_check m i l (some price) ≡ none
      → position_pct l i.quantity price ≤ℤ m.config.max_position_pct
  unfolding position_check
  position-sound m i l price h = ground arith

  exposure-sound :
      (m : RiskManager) (i : TradeIntent) (l : Ledger) (prices : Dict ℤ)
      → exposure_check m i l prices ≡ none
      → zero_ℤ <ℤ equity l
      → D.div
          (current_exposure l.open_positions prices
            +ℤ added_exposure i.quantity (get prices i.symbol))
          (equity l)
        ≤ℤ m.config.max_total_exposure_pct
  unfolding exposure_check
  exposure-sound m i l prices h p = ground arith

  pub buy_checks-none :
      (m : RiskManager) (i : TradeIntent) (l : Ledger) (prices : Dict ℤ)
      → buy_checks m i l prices ≡ none
      → (drawdown_check m l ≡ none)
        × (daily_loss_check m l ≡ none)
        × (position_check m i l (get prices i.symbol) ≡ none)
        × (exposure_check m i l prices ≡ none)
  unfolding buy_checks
  buy_checks-none m i l prices h = ground arith

  WithinLimits-sound :
      (m : RiskManager) (i : TradeIntent) (l : Ledger) (prices : Dict ℤ)
      → buy_checks m i l prices ≡ none
      → WithinLimits m i l prices
  WithinLimits-sound m i l prices h =
      let (a, b, c, d) = buy_checks-none m i l prices h in
      record {
        drawdown = drawdown-sound m l a;
        daily_loss = daily_loss-sound m l b;
        position = λ price e. position-sound m i l price (rw e at c);
        exposure = exposure-sound m i l prices d;
      }

  drawdown_complete :
      (m : RiskManager) (l : Ledger)
      → drawdown_pct l ≤ℤ m.config.max_drawdown_pct
      → drawdown_check m l ≡ none
  unfolding drawdown_check
  drawdown_complete m l h = ground arith

  daily_loss_complete :
      (m : RiskManager) (l : Ledger)
      → (zero_ℤ <ℤ equity l → D.div m.daily_loss (equity l) ≤ℤ m.config.daily_loss_cap_pct)
      → daily_loss_check m l ≡ none
  unfolding daily_loss_check
  daily_loss_complete m l h = ground (arith, ltb_ℤ→lt zero_ℤ (equity l))

  position_complete :
      (m : RiskManager) (i : TradeIntent) (l : Ledger) (o : Option ℤ)
      → ((price : ℤ)
          → o ≡ some price
          → position_pct l i.quantity price ≤ℤ m.config.max_position_pct)
      → position_check m i l o ≡ none
  unfolding position_check
  position_complete m i l none h = refl
  position_complete m i l (some price) h = ground (arith, h price refl)

  exposure_complete :
      (m : RiskManager) (i : TradeIntent) (l : Ledger) (prices : Dict ℤ)
      → (zero_ℤ <ℤ equity l
          → D.div
              (current_exposure l.open_positions prices
                +ℤ added_exposure i.quantity (get prices i.symbol))
              (equity l)
            ≤ℤ m.config.max_total_exposure_pct)
      → exposure_check m i l prices ≡ none
  unfolding exposure_check
  exposure_complete m i l prices h = ground (arith, ltb_ℤ→lt zero_ℤ (equity l))

  WithinLimits-complete :
      (m : RiskManager) (i : TradeIntent) (l : Ledger) (prices : Dict ℤ)
      → WithinLimits m i l prices
      → buy_checks m i l prices ≡ none
  unfolding buy_checks
  WithinLimits-complete m i l prices w = rw (
    drawdown_complete m l w.drawdown,
    daily_loss_complete m l w.daily_loss,
    position_complete m i l (get prices i.symbol) w.position,
    exposure_complete m i l prices w.exposure,
  )

  pub buy_approved_iff :
      (m : RiskManager) (i : TradeIntent) (l : Ledger) (prices : Dict ℤ)
      → i.action ≡ buy
      → (passes (evaluate m i l prices) ≡ true)
        ↔ ((is_halted m i.bot_id ≡ false) × WithinLimits m i l prices)
  unfolding evaluate
  buy_approved_iff m i l prices b = (
    λ h. (ground arith, WithinLimits-sound m i l prices (ground arith)),
    λ h. ground (arith, h.0, WithinLimits-complete m i l prices h.1),
  )

  -- Selling and closing pass exactly when neither the desk nor the bot is halted, whatever the
  -- limits say; holding and
  -- standing down always pass.
  pub exit_approved :
      (m : RiskManager) (i : TradeIntent) (l : Ledger) (prices : Dict ℤ)
      → i.action ≢ buy
      → passes (evaluate m i l prices) ≡ (is_idle i.action || not (is_halted m i.bot_id))
  unfolding evaluate
  exit_approved m i l prices n = ground arith
