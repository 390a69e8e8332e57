-- ===== src/Coordinator/Model.antt =====
-- src/trading_strands/coordinator/coordinator.py: `execute` from the intent to the ledger. Brokers,
-- their factory and the halt store are not code of this file, so what they answer during one call
-- is an argument. The list of the orders handed to brokers is kept beside the state.
use trading_strands.Prelude.{
  String, Bool, not, Option, none, some, List, [], ◌∷◌, ◌++◌, ◌==◌, if◌then◌else◌, contains,
  is_some,
}
use trading_strands.Prelude.Int.{ℤ, leb_ℤ}
use trading_strands.Prelude.Dict.{Dict, get, put, remove, has}
use trading_strands.Decimal.{Decimals, zero_ℤ}
use trading_strands.Ledger.Model.{Fill, Position, Ledger, LedgerError, record_fill}
use trading_strands.LedgerStore.{LedgerStore, Writing, PersistError, refused, record_and_persist}
use trading_strands.Coordinator.Types.{
  TradeIntent, RiskDecision, halted, broker_unavailable, is_idle, is_approved, intent_to_side,
  OrderRequest, OrderResult, OrderType, TimeInForce,
}
use trading_strands.Risk.Manager.{RiskManager, approve, reject, evaluate}

-- what `broker.get_quote(symbol)` gives: an exception, a quote with no price, or a price
pub data Quote : Type 0 where
  quote_raises no_price : Quote
  price : ℤ → Quote

-- what the halt store gives for an organisation; `unexplained` is an exception of the second read,
-- for the reason
pub data HaltAnswer : Type 0 where
  read_error running : HaltAnswer
  stopped : Option String → HaltAnswer
  unexplained : HaltAnswer

-- The answers of the outside during one call. `None` stands for an exception of `factory` and of
-- `submit`, and for an absent halt store.
pub record Services (Handle : Type 0) : Type 0 where
  pub factory : String → Option Handle
  pub quote : Handle → String → Quote
  pub submit : Handle → OrderRequest → Option OrderResult
  pub halt_store : Option (String → HaltAnswer)
  pub faults : Writing

pub record Coordinator (Handle : Type 0) : Type 0 where
  pub broker_cache : Dict Handle
  pub risk_manager : RiskManager
  pub ledgers : Dict Ledger
  pub default_broker : Option Handle
  pub ledger_store : Option LedgerStore
  pub orders : List (Handle × OrderRequest)

pub record ExecutionResult : Type 0 where
  pub intent : TradeIntent
  pub risk_decision : Option RiskDecision
  pub order_result : Option OrderResult

pub data ExecError : Type 0 where
  unknown_bot halt_reason_error quote_error submit_error : ExecError
  persist_error : PersistError → ExecError

-- how `execute` ends
pub data Execution : Type 0 where
  done : ExecutionResult → Execution
  raised : ExecError → Execution

-- `ExecutionResult.approved`
unfoldable pub execution_approved : ExecutionResult → Bool
execution_approved r = elim r.risk_decision [
  | none ↦ is_some r.order_result
  | some d ↦ is_approved d.verdict
]

abbrev pub decided : TradeIntent → RiskDecision → Execution
decided i d = done (record { intent = i; risk_decision = some d; order_result = none })

-- `get_effective_reason(...) or "desk halted"`
unfoldable pub or_desk_halted : Option String → String
or_desk_halted none = "desk halted"
or_desk_halted (some why) = if why == "" then "desk halted" else why

unfoldable pub intent_to_order : TradeIntent → OrderRequest
unfolding intent_to_side
intent_to_order i = record {
  symbol = i.symbol;
  side = intent_to_side i.action;
  quantity = i.quantity;
  order_type = OrderType.market;
  limit_price = none;
  time_in_force = TimeInForce.day;
}

unfoldable pub fill_of : TradeIntent → OrderResult → Fill
unfolding intent_to_side
fill_of i r = record {
  symbol = i.symbol;
  side = intent_to_side i.action;
  quantity = r.filled_quantity;
  price = r.filled_price;
  fees = r.fees;
}

-- `{intent.symbol} | {pos.symbol ...}`
unfoldable pub quoted_symbols : List String → List Position → List String
quoted_symbols seen [] = seen
quoted_symbols seen (p ∷ ps) =
    quoted_symbols (if contains seen p.symbol then seen else seen ++ p.symbol ∷ []) ps

-- the loop of `_get_market_prices`
unfoldable pub fetch_prices : (String → Quote) → List String → Dict ℤ → Option (Dict ℤ)
fetch_prices quote [] prices = some prices
fetch_prices quote (s ∷ ss) prices = elim (quote s) [
  | quote_raises ↦ none
  | no_price ↦ fetch_prices quote ss prices
  | price p ↦ fetch_prices quote ss (put prices s p)
]

unfoldable pub market_prices : (String → Quote) → TradeIntent → Ledger → Option (Dict ℤ)
unfolding quoted_symbols fetch_prices
market_prices quote i l = fetch_prices quote (quoted_symbols (i.symbol ∷ []) l.open_positions) []

-- the exception that leaves `_record_fill`, if any
ended : Execution → Option PersistError → Execution
ended ok none = ok
ended ok (some e) = raised (persist_error e)

plain_error : Option LedgerError → Option PersistError
plain_error none = none
plain_error (some e) = some (refused e)

-- no halt store: the gate is open
abbrev pub halt_answer : Option (String → HaltAnswer) → String → HaltAnswer
halt_answer none org_id = running
halt_answer (some ask) org_id = ask org_id

module _ {Handle : Type 0} where
  -- `broker_for`: the cached broker, or a new one from the factory; `None` stands for
  -- `BrokerUnavailableError`
  unfoldable pub broker_for :
      Services Handle → String → Coordinator Handle → Option Handle × Coordinator Handle
  broker_for s org_id c = elim (get c.broker_cache org_id) [
    | some cached ↦ (some cached, c)
    | none ↦ elim (s.factory org_id) [
      | none ↦ (none, c)
      | some broker ↦ (some broker, record c { broker_cache = put c.broker_cache org_id broker })
    ]
  ]

  unfoldable pub invalidate_broker : String → Coordinator Handle → Coordinator Handle
  invalidate_broker org_id c = record c { broker_cache = remove c.broker_cache org_id }

module _ {Handle : Type 0} ⦃D : Decimals⦄ where
  -- `_record_fill`
  unfoldable pub record_result :
      Services Handle
      → TradeIntent
      → OrderResult
      → Ledger
      → Execution
      → Coordinator Handle
      → Execution × Coordinator Handle
  unfolding ended plain_error
  record_result s i r l ok c =
      if leb_ℤ r.filled_quantity zero_ℤ then (ok, c) else elim c.ledger_store [
        | none ↦
            let (l', e) = record_fill l (fill_of i r) in
            (ended ok (plain_error e), record c { ledgers = put c.ledgers i.bot_id l' })
        | some store ↦
            let (l', store', e) = record_and_persist s.faults store i.bot_id l (fill_of i r) in
            (
              ended ok e,
              record c { ledgers = put c.ledgers i.bot_id l'; ledger_store = some store' },
            )
      ]

  -- from the approval on: the order, and the fill
  unfoldable pub submit_order :
      Services Handle
      → TradeIntent
      → Handle
      → Ledger
      → RiskDecision
      → Coordinator Handle
      → Execution × Coordinator Handle
  submit_order s i broker l d c =
      let order = intent_to_order i in
      let sent = record c { orders = c.orders ++ (broker, order) ∷ [] } in
      elim (s.submit broker order) [
        | none ↦ (raised submit_error, sent)
        | some r ↦
            record_result s i r l
              (done (record { intent = i; risk_decision = some d; order_result = some r })) sent
      ]

  -- from the broker on: prices and the risk check
  unfoldable pub check_and_submit :
      Services Handle
      → TradeIntent
      → Handle
      → Ledger
      → Coordinator Handle
      → Execution × Coordinator Handle
  check_and_submit s i broker l c = elim (market_prices (s.quote broker) i l) [
    | none ↦ (raised quote_error, c)
    | some prices ↦
        let d = evaluate c.risk_manager i l prices in
        if is_approved d.verdict then submit_order s i broker l d c else (decided i d, c)
  ]

  -- `self.ledgers[intent.bot_id]`
  with_ledger :
      Services Handle
      → TradeIntent
      → Handle
      → Option Ledger
      → Coordinator Handle
      → Execution × Coordinator Handle
  with_ledger s i broker none c = (raised unknown_bot, c)
  with_ledger s i broker (some l) c = check_and_submit s i broker l c

  -- from the halt gate on
  unfoldable pub route :
      Services Handle → TradeIntent → Coordinator Handle → Execution × Coordinator Handle
  unfolding with_ledger
  route s i c =
      let (broker, c') = broker_for s i.org_id c in
      elim broker [
        | none ↦ (decided i (reject i (broker_unavailable i.org_id)), c')
        | some b ↦ with_ledger s i b (get c'.ledgers i.bot_id) c'
      ]

  unfoldable pub halt_gate :
      Services Handle
      → TradeIntent
      → HaltAnswer
      → Coordinator Handle
      → Execution × Coordinator Handle
  halt_gate s i read_error c = route s i c
  halt_gate s i running c = route s i c
  halt_gate s i (stopped why) c = (decided i (reject i (halted (or_desk_halted why))), c)
  halt_gate s i unexplained c = (raised halt_reason_error, c)

  unfoldable pub execute :
      Services Handle → TradeIntent → Coordinator Handle → Execution × Coordinator Handle
  execute s i c =
      if not (has c.ledgers i.bot_id)
      then (raised unknown_bot, c)
      else if is_idle i.action
      then (decided i (approve i), c)
      else halt_gate s i (halt_answer s.halt_store i.org_id) c
