-- ===== src/Tests/Ledger.antt =====
-- Tests of the ledger: ledger/models.py.
use trading_strands.Prelude.{◌≡◌, refl, List, [], ◌∷◌, ◌==◌, arith, if◌then◌else◌}
use trading_strands.Prelude.Int.{ℤ, pos, ◌+ℤ◌, ◌-ℤ◌, ◌*ℤ◌}
use trading_strands.Decimal.{whole_units, quot_ℤ}
use trading_strands.Ledger.Model.{
  Side, buy, sell, FeeBreakdown, Fill, Ledger, no_position, new_ledger, equity, find_position,
  record_fill, record_fills, burdened_total,
}
use trading_strands.Ledger.Positions.{held}
use trading_strands.Ledger.Fills.{appended, IsValid, record_fill-IsValid, record_fill_error}
use trading_strands.Ledger.Holdings.{
  refusal, held_after, record_fill_outcome, held-record_fill, record_fills-IsValid,
}
use trading_strands.Ledger.Accounts.{book_value}
use trading_strands.Ledger.Equity.{total_settled, equity_accounts}

abbrev pub no_fees : FeeBreakdown
no_fees = record {
  commission = pos 0;
  sec_fee = pos 0;
  taf_fee = pos 0;
  finra_fee = pos 0;
  options_per_contract = pos 0;
  options_exercise = pos 0;
  crypto_spread = pos 0;
  crypto_network = pos 0;
  other = pos 0;
}

abbrev pub fill : Side → ℤ → ℤ → Fill
fill s q p = record { symbol = "SPY"; side = s; quantity = q; price = p; fees = no_fees }

-- ten bought at 5, ten more at 7, then twelve sold at 8
abbrev pub bought : Fill
bought = fill buy (pos 10) (pos 5)

abbrev pub sold : Fill
sold = fill sell (pos 12) (pos 8)

abbrev trades : List Fill
trades = bought ∷ fill buy (pos 10) (pos 7) ∷ sold ∷ fill sell (pos 9) (pos 8) ∷ []

abbrev pub fresh : Ledger
fresh = new_ledger (pos 1000)

pub fresh-IsValid : IsValid fresh
unfolding new_ledger equity ◌+ℤ◌
fresh-IsValid = record { positions = tt; marked = omega arith }

-- The average cost is 6, the profit of the sale 24, and the last sale is refused.
after_trades :
    (equity (record_fills ⦃D = whole_units⦄ fresh trades) ≡ pos 1024)
    × (held (record_fills ⦃D = whole_units⦄ fresh trades).open_positions "SPY" ≡ pos 8)
unfolding record_fills record_fill new_ledger equity held ◌+ℤ◌ ◌-ℤ◌ ◌*ℤ◌ quot_ℤ find_position
after_trades = (refl, refl)

record_fill-IsValid_example : IsValid (record_fill ⦃D = whole_units⦄ fresh bought).0
record_fill-IsValid_example =
    record_fill-IsValid ⦃D = whole_units⦄ fresh bought (omega arith) fresh-IsValid

record_fill_outcome_example :
    (record_fill ⦃D = whole_units⦄ fresh sold).1
    ≡ refusal sell (held fresh.open_positions "SPY") (pos 12)
record_fill_outcome_example =
    record_fill_outcome ⦃D = whole_units⦄ fresh sold (omega arith) fresh-IsValid

record_fill_error_example : (record_fill ⦃D = whole_units⦄ fresh sold).0 ≡ appended fresh sold
unfolding record_fill new_ledger
record_fill_error_example = record_fill_error ⦃D = whole_units⦄ fresh sold no_position refl

held-record_fill_example :
    held (record_fill ⦃D = whole_units⦄ fresh bought).0.open_positions "SPY" ≡ (
      if "SPY" == "SPY"
      then held_after buy (held fresh.open_positions "SPY") (pos 10)
      else held fresh.open_positions "SPY")
unfolding record_fill new_ledger ◌+ℤ◌ ◌*ℤ◌ quot_ℤ
held-record_fill_example =
    held-record_fill ⦃D = whole_units⦄ fresh bought "SPY" (omega arith) fresh-IsValid refl

record_fills-IsValid_example : IsValid (record_fills ⦃D = whole_units⦄ fresh trades)
record_fills-IsValid_example =
    record_fills-IsValid ⦃D = whole_units⦄ fresh trades (omega arith) fresh-IsValid

equity_accounts_example :
    equity (record_fills ⦃D = whole_units⦄ fresh trades)
    ≡ pos 1000
      +ℤ total_settled ⦃D = whole_units⦄ fresh trades
      +ℤ book_value ⦃D = whole_units⦄ (record_fills ⦃D = whole_units⦄ fresh trades).open_positions
unfolding record_fill new_ledger find_position burdened_total ◌+ℤ◌ ◌-ℤ◌ ◌*ℤ◌ quot_ℤ
equity_accounts_example =
    equity_accounts ⦃D = whole_units⦄ (pos 1000) trades (refl, ((refl, refl), (refl, (refl, tt))))
