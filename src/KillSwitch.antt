-- ===== src/KillSwitch.antt =====
-- The kill switch: src/trading_strands/risk/killswitch.py. The switch and the coordinator share one
-- risk manager, the coordinator's. The time of a log entry is left out.
pub mod WholeSale
pub mod Liquidation
pub mod Verbs
pub mod Isolation
use trading_strands.Prelude.{
  String, Bool, true, false, Option, none, some, List, [], ◌∷◌, ◌++◌, ◌==◌, if◌then◌else◌,
}
use trading_strands.Prelude.Int.{ℤ, ltb_ℤ}
use trading_strands.Prelude.Dict.{Dict, get, put}
use trading_strands.Decimal.{Decimals, zero_ℤ}
use trading_strands.Ledger.Model.{Side, Fill, Position, Ledger, LedgerError, record_fill}
use trading_strands.Coordinator.Types.{OrderRequest, OrderResult, OrderType, TimeInForce}
use trading_strands.Coordinator.Model.{Coordinator}
use trading_strands.Risk.Manager.{RiskManager, halt_bot, halt_desk}

pub data KillSwitchVerb : Type 0 where
  halt_and_stop halt_and_liquidate halt_and_sell_gains : KillSwitchVerb

pub record KillSwitch (Handle : Type 0) : Type 0 where
  pub coordinator : Coordinator Handle
  pub log : List (KillSwitchVerb × Option String)

-- what a verb can raise
pub data KillError : Type 0 where
  no_broker submit_error : KillError
  ledger_error : LedgerError → KillError

kill_error : Option LedgerError → Option KillError
kill_error none = none
kill_error (some e) = some (ledger_error e)

unfoldable pub sell_order : Position → OrderRequest
sell_order p = record {
  symbol = p.symbol;
  side = Side.sell;
  quantity = p.quantity;
  order_type = OrderType.market;
  limit_price = none;
  time_in_force = TimeInForce.day;
}

unfoldable pub sell_fill : Position → OrderResult → Fill
sell_fill p r = record {
  symbol = p.symbol;
  side = Side.sell;
  quantity = r.filled_quantity;
  price = r.filled_price;
  fees = r.fees;
}

-- `current_price > pos.burdened_cost_basis`, where there is a price
unfoldable pub is_gain : Dict ℤ → Position → Bool
is_gain prices p = elim (get prices p.symbol) [
  | none ↦ false
  | some current ↦ ltb_ℤ p.burdened_cost_basis current
]

-- `if bot_id:`, where an empty text counts as no bot
unfoldable pub named_bot : Option String → Option String
named_bot none = none
named_bot (some b) = if b == "" then none else some b

-- What the broker answers to an order depends on the orders sent before; `None` is an exception.
abbrev pub Submit : Type 0 → Type 0
Submit Handle = List (Handle × OrderRequest) → Handle → OrderRequest → Option OrderResult

unfoldable pub bot_ledgers : Dict Ledger → String → Dict Ledger
bot_ledgers ls b = elim (get ls b) [ none ↦ [] | some l ↦ (b, l) ∷ [] ]

unfoldable pub halt_target : Option String → RiskManager → RiskManager
halt_target bot m = elim (named_bot bot) [ none ↦ halt_desk m | some b ↦ halt_bot m b ]

module _ {Handle : Type 0} where
  unfoldable pub target_ledgers : Option String → Coordinator Handle → Dict Ledger
  unfolding bot_ledgers
  target_ledgers bot c = elim (named_bot bot) [
    | none ↦ c.ledgers
    | some b ↦ bot_ledgers c.ledgers b
  ]

  unfoldable pub halt : Option String → Coordinator Handle → Coordinator Handle
  halt bot c = record c { risk_manager = halt_target bot c.risk_manager }

module _ {Handle : Type 0} ⦃D : Decimals⦄ where
  -- what follows the broker's answer
  unfoldable pub record_sale :
      String
      → Position
      → OrderResult
      → Ledger
      → Coordinator Handle
      → Option KillError × Ledger × Coordinator Handle
  unfolding kill_error
  record_sale bot p r l c =
      let (l', e) = record_fill l (sell_fill p r) in
      if ltb_ℤ zero_ℤ r.filled_quantity
      then (kill_error e, l', record c { ledgers = put c.ledgers bot l' })
      else (none, l, c)

  -- the body of the loops over positions
  unfoldable pub sell_position :
      Submit Handle
      → String
      → Position
      → Ledger
      → Coordinator Handle
      → Option KillError × Ledger × Coordinator Handle
  sell_position submit bot p l c = elim c.default_broker [
    | none ↦ (some no_broker, l, c)
    | some broker ↦
        let sent = record c { orders = c.orders ++ (broker, sell_order p) ∷ [] } in
        elim (submit c.orders broker (sell_order p)) [
          | none ↦ (some submit_error, l, sent)
          | some r ↦ record_sale bot p r l sent
        ]
  ]

  -- `for pos in list(ledger.open_positions)`, over the positions that the verb wants sold
  unfoldable pub sell_positions :
      Submit Handle
      → (Position → Bool)
      → String
      → List Position
      → Ledger
      → Coordinator Handle
      → Option KillError × Ledger × Coordinator Handle
  sell_positions submit wanted bot [] l c = (none, l, c)
  sell_positions submit wanted bot (p ∷ ps) l c =
      let (e, l', c') = if wanted p then sell_position submit bot p l c else (none, l, c) in
      elim e [
        | none ↦ sell_positions submit wanted bot ps l' c'
        | some raised ↦ (some raised, l', c')
      ]

  -- `for _lid, ledger in target_ledgers.items()`
  unfoldable pub sell_ledgers :
      Submit Handle
      → (Position → Bool)
      → Dict Ledger
      → Coordinator Handle
      → Option KillError × Coordinator Handle
  sell_ledgers submit wanted [] c = (none, c)
  sell_ledgers submit wanted ((bot, l) ∷ ls) c =
      let (e, l', c') = sell_positions submit wanted bot l.open_positions l c in
      elim e [ none ↦ sell_ledgers submit wanted ls c' | some raised ↦ (some raised, c') ]

  -- an exception of a sale leaves the verb before the halt
  unfoldable pub then_halt :
      Option String → Option KillError × Coordinator Handle → Option KillError × Coordinator Handle
  then_halt bot (none, c) = (none, halt bot c)
  then_halt bot (some e, c) = (some e, c)

  unfoldable pub liquidate_and_halt :
      Submit Handle → Option String → Coordinator Handle → Option KillError × Coordinator Handle
  unfolding then_halt
  liquidate_and_halt submit bot c =
      then_halt bot (sell_ledgers submit (λ _. true) (target_ledgers bot c) c)

  unfoldable pub sell_gains_and_halt :
      Submit Handle
      → Option String
      → Dict ℤ
      → Coordinator Handle
      → Option KillError × Coordinator Handle
  unfolding then_halt
  sell_gains_and_halt submit bot prices c =
      then_halt bot (sell_ledgers submit (is_gain prices) (target_ledgers bot c) c)

  unfoldable pub run_verb :
      Submit Handle
      → KillSwitchVerb
      → Option String
      → Dict ℤ
      → Coordinator Handle
      → Option KillError × Coordinator Handle
  run_verb submit halt_and_stop bot prices c = (none, halt bot c)
  run_verb submit halt_and_liquidate bot prices c = liquidate_and_halt submit bot c
  run_verb submit halt_and_sell_gains bot prices c = sell_gains_and_halt submit bot prices c

  unfoldable pub execute_verb :
      Submit Handle
      → KillSwitchVerb
      → Option String
      → Dict ℤ
      → KillSwitch Handle
      → Option KillError × KillSwitch Handle
  execute_verb submit verb bot prices k =
      let (e, c) = run_verb submit verb bot prices k.coordinator in
      (e, record { coordinator = c; log = k.log ++ (verb, bot) ∷ [] })
