-- ===== src/Ledger/Model.antt =====
-- src/trading_strands/ledger/models.py: fills, positions and the ledger. An operation that raises
-- returns the ledger as it stands at that moment, beside the error.
use trading_strands.Prelude.{String, Option, none, some, List, [], ◌∷◌, ◌++◌, ◌==◌, if◌then◌else◌}
use trading_strands.Prelude.Int.{ℤ, ◌+ℤ◌, ◌-ℤ◌, ltb_ℤ, eqb_ℤ}
use trading_strands.Prelude.Dict.{Dict, get}
use trading_strands.Decimal.{Decimals, zero_ℤ}

pub data Side : Type 0 where
  buy sell : Side

pub record FeeBreakdown : Type 0 where
  pub commission : ℤ
  pub sec_fee : ℤ
  pub taf_fee : ℤ
  pub finra_fee : ℤ
  pub options_per_contract : ℤ
  pub options_exercise : ℤ
  pub crypto_spread : ℤ
  pub crypto_network : ℤ
  pub other : ℤ

-- `FeeBreakdown.total`
unfoldable pub total_fees : FeeBreakdown → ℤ
total_fees f =
    f.commission +ℤ f.sec_fee +ℤ f.taf_fee +ℤ f.finra_fee +ℤ f.options_per_contract
    +ℤ f.options_exercise +ℤ f.crypto_spread +ℤ f.crypto_network +ℤ f.other

pub record Fill : Type 0 where
  pub symbol : String
  pub side : Side
  pub quantity : ℤ
  pub price : ℤ
  pub fees : FeeBreakdown

pub record Position : Type 0 where
  pub symbol : String
  pub quantity : ℤ
  pub burdened_cost_basis : ℤ

pub record Ledger : Type 0 where
  pub starting_capital : ℤ
  pub realized_pnl : ℤ
  pub high_water_mark : ℤ
  pub open_positions : List Position
  pub order_history : List Fill
  pub fee_ledger : List FeeBreakdown

-- what `record_fill` can raise: the two `ValueError`s of a sale, and the division of `decimal`
pub data LedgerError : Type 0 where
  no_position exceeds_held division_by_zero : LedgerError

abbrev pub Outcome : Type 0
Outcome = Ledger × Option LedgerError

-- `Ledger(starting_capital=c)`, after `model_post_init`
unfoldable pub new_ledger : ℤ → Ledger
new_ledger c = record {
  starting_capital = c;
  realized_pnl = zero_ℤ;
  high_water_mark = c;
  open_positions = [];
  order_history = [];
  fee_ledger = [];
}

-- `model_post_init`
unfoldable pub post_init : Ledger → Ledger
post_init l =
    if eqb_ℤ l.high_water_mark zero_ℤ then record l { high_water_mark = l.starting_capital } else l

unfoldable pub equity : Ledger → ℤ
equity l = l.starting_capital +ℤ l.realized_pnl

unfoldable pub drawdown_from_hwm : Ledger → ℤ
unfolding equity
drawdown_from_hwm l = l.high_water_mark -ℤ equity l

-- `_find_position`: the first position of the symbol
unfoldable pub find_position : List Position → String → Option Position
find_position [] s = none
find_position (p ∷ ps) s = if p.symbol == s then some p else find_position ps s

-- the writes through `existing` and `pos`, which are the first position of the symbol
unfoldable pub write_position : List Position → String → Position → List Position
write_position [] s new = []
write_position (p ∷ ps) s new = if p.symbol == s then new ∷ ps else p ∷ write_position ps s new

-- `open_positions.remove(pos)`
unfoldable pub drop_position : List Position → String → List Position
drop_position [] s = []
drop_position (p ∷ ps) s = if p.symbol == s then ps else p ∷ drop_position ps s

-- the last statement of `record_fill`
unfoldable pub update_hwm : Ledger → Ledger
unfolding equity
update_hwm l =
    if ltb_ℤ l.high_water_mark (equity l) then record l { high_water_mark = equity l } else l

-- an exception leaves `record_fill` before its last statement
unfoldable pub finish : Outcome → Outcome
unfolding update_hwm
finish (l, none) = (update_hwm l, none)
finish (l, some e) = (l, some e)

unfoldable pub log_fill : Ledger → Fill → Ledger
log_fill l f = record l {
  order_history = l.order_history ++ f ∷ [];
  fee_ledger = l.fee_ledger ++ f.fees ∷ [];
}

module _ ⦃D : Decimals⦄ where
  unfoldable pub gross_value : Fill → ℤ
  gross_value f = D.mul f.price f.quantity

  unfoldable pub burdened_by : Side → ℤ → ℤ → ℤ
  burdened_by buy gross fees = gross +ℤ fees
  burdened_by sell gross fees = gross -ℤ fees

  unfoldable pub burdened_total : Fill → ℤ
  unfolding gross_value burdened_by total_fees
  burdened_total f = burdened_by f.side (gross_value f) (total_fees f.fees)

  -- `None` stands for `DivisionByZero`
  unfoldable pub checked_div : ℤ → ℤ → Option ℤ
  checked_div a b = if eqb_ℤ b zero_ℤ then none else some (D.div a b)

  unfoldable pub burdened_cost_per_unit : Fill → Option ℤ
  unfolding checked_div burdened_total
  burdened_cost_per_unit f = checked_div (burdened_total f) f.quantity

  unfoldable pub unrealized_pnl : Position → ℤ → ℤ
  unrealized_pnl p market_price = D.mul (market_price -ℤ p.burdened_cost_basis) p.quantity

  -- the sum of `equity_marked`; `None` stands for the `KeyError` of a missing price
  unfoldable pub sum_unrealized : Dict ℤ → List Position → Option ℤ
  unfolding unrealized_pnl
  sum_unrealized prices [] = some zero_ℤ
  sum_unrealized prices (p ∷ ps) =
      let rest = sum_unrealized prices ps in
      elim (get prices p.symbol) [
        | none ↦ none
        | some m ↦ elim rest [ none ↦ none | some u ↦ some (unrealized_pnl p m +ℤ u) ]
      ]

  unfoldable pub equity_marked : Ledger → Dict ℤ → Option ℤ
  unfolding sum_unrealized equity
  equity_marked l prices = elim (sum_unrealized prices l.open_positions) [
    | none ↦ none
    | some u ↦ some (equity l +ℤ u)
  ]

  unfoldable pub drawdown_pct : Ledger → ℤ
  unfolding drawdown_from_hwm
  drawdown_pct l =
      if eqb_ℤ l.high_water_mark zero_ℤ
      then zero_ℤ
      else D.div (drawdown_from_hwm l) l.high_water_mark

  -- averaging in, once the cost per unit of the fill is known
  unfoldable pub average_in : Ledger → Fill → Position → ℤ → Outcome
  unfolding checked_div
  average_in l f existing unit =
      let total_qty = existing.quantity +ℤ f.quantity in
      let total_cost =
        D.mul existing.burdened_cost_basis existing.quantity +ℤ D.mul unit f.quantity in
      elim (checked_div total_cost total_qty) [
        | none ↦ (l, some division_by_zero)
        | some basis ↦ (
          record l {
            open_positions =
                write_position l.open_positions f.symbol
                  (record existing { burdened_cost_basis = basis; quantity = total_qty });
          },
          none,
        )
      ]

  unfoldable pub open_position : Ledger → Fill → ℤ → Outcome
  open_position l f unit = (
    record l {
      open_positions =
          l.open_positions
          ++ record { symbol = f.symbol; quantity = f.quantity; burdened_cost_basis = unit } ∷ [];
    },
    none,
  )

  unfoldable pub handle_buy : Ledger → Fill → Outcome
  unfolding find_position write_position average_in open_position burdened_cost_per_unit
  handle_buy l f = elim (burdened_cost_per_unit f) [
    | none ↦ (l, some division_by_zero)
    | some unit ↦ elim (find_position l.open_positions f.symbol) [
      | none ↦ open_position l f unit
      | some existing ↦ average_in l f existing unit
    ]
  ]

  -- the rest of `_handle_sell`, for a position that covers the sale
  unfoldable pub close_out : Ledger → Fill → Position → Ledger
  unfolding write_position drop_position burdened_total
  close_out l f p =
      let remaining = p.quantity -ℤ f.quantity in
      record l {
        realized_pnl =
            l.realized_pnl +ℤ (burdened_total f -ℤ D.mul p.burdened_cost_basis f.quantity);
        open_positions =
            if eqb_ℤ remaining zero_ℤ
            then drop_position l.open_positions f.symbol
            else write_position l.open_positions f.symbol (record p { quantity = remaining });
      }

  unfoldable pub handle_sell : Ledger → Fill → Outcome
  unfolding find_position close_out
  handle_sell l f = elim (find_position l.open_positions f.symbol) [
    | none ↦ (l, some no_position)
    | some p ↦
        if ltb_ℤ p.quantity f.quantity then (l, some exceeds_held) else (close_out l f p, none)
  ]

  unfoldable pub handle_side : Side → Ledger → Fill → Outcome
  unfolding handle_buy handle_sell
  handle_side buy l f = handle_buy l f
  handle_side sell l f = handle_sell l f

  unfoldable pub record_fill : Ledger → Fill → Outcome
  unfolding log_fill handle_side finish
  record_fill l f = finish (handle_side f.side (log_fill l f) f)

  -- the fills of a run, with every exception caught
  unfoldable pub record_fills : Ledger → List Fill → Ledger
  record_fills l [] = l
  record_fills l (f ∷ fs) = record_fills (record_fill l f).0 fs
