-- ===== src/Risk/Halts.antt =====
-- The halt flags of the risk manager, and how an approval scales with the quantity.
use trading_strands.Prelude.{
  String, ◌≡◌, ◌≢◌, refl, true, false, not, ◌&&◌, ◌||◌, Option, none, some, List, [], ◌∷◌, ◌==◌,
  eq_iff, arith, contains, inl, inr, Bool-cases,
}
use trading_strands.Prelude.Int.{ℤ, pos, ◌≤ℤ◌, ◌+ℤ◌, ltb_ℤ, ltb_ℤ→lt, ≤ℤ_trans, +ℤ_mono_right}
use trading_strands.Prelude.Dict.{Dict, get}
use trading_strands.Decimal.{Decimals, zero_ℤ}
use trading_strands.Ledger.Model.{Ledger, equity}
use trading_strands.Coordinator.Types.{buy, TradeIntent, is_idle}
use trading_strands.Risk.Manager.{
  RiskManager, discard, halt_bot, unhalt_bot, drawdown_check, daily_loss_check, position_pct,
  position_check, current_exposure, added_exposure, exposure_check, buy_checks, evaluate,
}
use trading_strands.Risk.Limits.{passes, is_halted, buy_approved_iff}

contains-discard :
    (xs : List String) (b j : String) → contains (discard xs b) j ≡ not (b == j) && contains xs j
unfolding discard
contains-discard [] b j = ground arith
contains-discard (x ∷ xs) b j =
    ground (arith, contains-discard xs b j, eq_iff x b, eq_iff x j, eq_iff b j)

pub halted-halt_bot :
    (m : RiskManager) (b j : String) → is_halted (halt_bot m b) j ≡ (b == j || is_halted m j)
unfolding halt_bot
halted-halt_bot m b j = ground (arith, eq_iff b j)

pub halted-unhalt_bot :
    (m : RiskManager) (b j : String)
    → is_halted (unhalt_bot m b) j ≡ (m.desk_halted || (not (b == j) && is_halted m j))
unfolding unhalt_bot
halted-unhalt_bot m b j = ground (arith, contains-discard m.halted_bots b j)

module _ ⦃D : Decimals⦄ (m n : RiskManager) (same_config : m.config ≡ n.config)
    (same_loss : m.daily_loss ≡ n.daily_loss) where
  same_position_check :
      (i : TradeIntent) (l : Ledger) (o : Option ℤ)
      → position_check m i l o ≡ position_check n i l o
  unfolding position_check
  same_position_check i l none = refl
  same_position_check i l (some price) = rw same_config

  same_checks :
      (i : TradeIntent) (l : Ledger) (prices : Dict ℤ)
      → buy_checks m i l prices ≡ buy_checks n i l prices
  unfolding buy_checks drawdown_check daily_loss_check exposure_check
  same_checks i l prices =
      rw (same_position_check i l (get prices i.symbol), same_config, same_loss)

  -- Two managers with the same limits and the same loss decide alike on a bot whose halts agree.
  same_decision :
      (i : TradeIntent) (l : Ledger) (prices : Dict ℤ)
      → m.desk_halted ≡ n.desk_halted
      → contains m.halted_bots i.bot_id ≡ contains n.halted_bots i.bot_id
      → evaluate m i l prices ≡ evaluate n i l prices
  unfolding evaluate
  same_decision i l prices d b = ground (arith, same_checks i l prices)

module _ ⦃D : Decimals⦄ where
  -- Halting a bot rejects each of its trades that is not idle, and leaves the decisions on every other bot as they
  -- were.
  halt_bot_isolates :
      (m : RiskManager) (b : String) (i : TradeIntent) (l : Ledger) (prices : Dict ℤ)
      → (i.bot_id ≡ b → passes (evaluate (halt_bot m b) i l prices) ≡ is_idle i.action)
        × (i.bot_id ≢ b → evaluate (halt_bot m b) i l prices ≡ evaluate m i l prices)
  halt_bot_isolates m b i l prices = (
    λ e. unfold evaluate in ground (arith, halted-halt_bot m b i.bot_id, eq_iff b i.bot_id),
    λ n.
        same_decision (halt_bot m b) m (unfold halt_bot in ground arith)
          (unfold halt_bot in ground arith) i l prices (unfold halt_bot in ground arith)
          (unfold halt_bot in ground (arith, eq_iff b i.bot_id)),
  )

  -- Releasing a bot that was not halted before undoes the halt for every decision.
  unhalt-halt_bot :
      (m : RiskManager) (b : String) (i : TradeIntent) (l : Ledger) (prices : Dict ℤ)
      → contains m.halted_bots b ≡ false
      → evaluate (unhalt_bot (halt_bot m b) b) i l prices ≡ evaluate m i l prices
  unhalt-halt_bot m b i l prices free =
      same_decision (unhalt_bot (halt_bot m b) b) m (unfold halt_bot unhalt_bot in ground arith)
        (unfold halt_bot unhalt_bot in ground arith) i l prices
        (unfold halt_bot unhalt_bot in ground arith)
        (unfold halt_bot unhalt_bot in
          ground (arith, contains-discard (b ∷ m.halted_bots) b i.bot_id, eq_iff b i.bot_id))

  position_pct_mono :
      (l : Ledger) (q r price : ℤ)
      → pos 0 ≤ℤ price
      → q ≤ℤ r
      → position_pct l q price ≤ℤ position_pct l r price
  unfolding position_pct
  position_pct_mono l q r price p h = elim (Bool-cases (ltb_ℤ zero_ℤ (equity l))) [
    | inl up ↦ rw up (
        D.div_mono (D.mul q price) (D.mul r price) (equity l) (ltb_ℤ→lt zero_ℤ (equity l) up)
          (D.mul_mono q r price p h))
    | inr down ↦ rw down (omega arith)
  ]

  added_exposure_mono :
      (q r : ℤ) (o : Option ℤ)
      → ((price : ℤ) → o ≡ some price → pos 0 ≤ℤ price)
      → q ≤ℤ r
      → added_exposure q o ≤ℤ added_exposure r o
  unfolding added_exposure
  added_exposure_mono q r none p h = omega arith
  added_exposure_mono q r (some price) p h = D.mul_mono q r price (p price refl) h

  -- An approved purchase would have been approved for any smaller quantity too, at a price that is
  -- not negative; rounding included.
  pub smaller_buy_approved :
      (m : RiskManager) (i : TradeIntent) (l : Ledger) (prices : Dict ℤ) (q : ℤ)
      → i.action ≡ buy
      → ((price : ℤ) → get prices i.symbol ≡ some price → pos 0 ≤ℤ price)
      → q ≤ℤ i.quantity
      → passes (evaluate m i l prices) ≡ true
      → passes (evaluate m (record i { quantity = q }) l prices) ≡ true
  smaller_buy_approved m i l prices q b p h ok =
      let (free, w) = (buy_approved_iff m i l prices b).0 ok in
      (buy_approved_iff m (record i { quantity = q }) l prices b).1 (
        free,
        record {
          drawdown = w.drawdown;
          daily_loss = w.daily_loss;
          position = λ price e.
              ≤ℤ_trans (position_pct l q price) (position_pct l i.quantity price) _
                (position_pct_mono l q i.quantity price (p price e) h) (w.position price e);
          exposure = λ up.
              let held = current_exposure l.open_positions prices in
              ≤ℤ_trans (D.div (held +ℤ added_exposure q (get prices i.symbol)) (equity l))
                (D.div (held +ℤ added_exposure i.quantity (get prices i.symbol)) (equity l)) _
                (D.div_mono _ _ (equity l) up (
                  +ℤ_mono_right _ _ held
                    (added_exposure_mono q i.quantity (get prices i.symbol) p h)))
                (w.exposure up);
        },
      )
