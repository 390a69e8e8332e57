-- ===== src/Coordinator/Booking.antt =====
-- What a call of `execute` does to the ledgers: nothing, or one fill that the broker reported,
-- recorded in the ledger of the intent's bot.
use trading_strands.Prelude.{
  String, ◌≡◌, ◌≢◌, refl, sym, ◌∙◌, ap, Option, none, some, if◌then◌else◌, [], ◌∷◌, ◌++◌, eq_iff,
  arith, ◌⊎◌, inl, inr, Option-cases, Bool-cases,
}
use trading_strands.Prelude.Int.{◌<ℤ◌, ltb_ℤ, ltb_ℤ→lt}
use trading_strands.Prelude.Dict.{Dict, get, put, has, get-put}
use trading_strands.Decimal.{Decimals, zero_ℤ}
use trading_strands.Ledger.Model.{Side, Fill, Ledger, record_fill}
use trading_strands.Ledger.Fills.{IsValid, record_fill-IsValid}
use trading_strands.LedgerStore.{LedgerStore, Writing, record_and_persist}
use trading_strands.Coordinator.Types.{
  IntentAction, intent_to_side, TradeIntent, RiskDecision, OrderResult, is_idle, is_approved,
}
use trading_strands.Risk.Manager.{evaluate}
use trading_strands.Coordinator.Model.{
  Services, Coordinator, Execution, done, fill_of, intent_to_order, market_prices, broker_for,
  record_result, submit_order, check_and_submit, route, halt_answer, execute,
}
use trading_strands.Coordinator.Isolation.{check_and_submit-approved, submit_order-frame}
use trading_strands.Coordinator.Routing.{
  is_stopped, broker_for-frame, route-unavailable, route-unknown, route-known, execute-unknown,
  execute-idle, execute-stopped, execute-route,
}

ledger-record_and_persist :
    ⦃D : Decimals⦄ (w : Writing) (s : LedgerStore) (b : String) (l : Ledger) (f : Fill)
    → (record_and_persist w s b l f).0 ≡ (record_fill l f).0
unfolding record_and_persist
ledger-record_and_persist w s b l f = ground arith

abbrev pub executed : TradeIntent → RiskDecision → OrderResult → Execution
executed i d r = done (record { intent = i; risk_decision = some d; order_result = some r })

-- The side of an order for the intent's action.
abbrev pub side_of : IntentAction → Side
side_of IntentAction.sell = Side.sell
side_of IntentAction.close = Side.sell
side_of IntentAction.buy = Side.buy
side_of IntentAction.hold = Side.buy
side_of IntentAction.noop = Side.buy

-- The fill that a broker's answer reports.
abbrev pub reported : TradeIntent → OrderResult → Fill
reported i r = record {
  symbol = i.symbol;
  side = side_of i.action;
  quantity = r.filled_quantity;
  price = r.filled_price;
  fees = r.fees;
}

filled-IsValid :
    ⦃D : Decimals⦄ (i : TradeIntent) (l : Ledger) (r : OrderResult)
    → zero_ℤ <ℤ r.filled_quantity
    → IsValid l
    → IsValid (record_fill l (reported i r)).0
filled-IsValid i l r p v = record_fill-IsValid l (reported i r) p v

intent_to_side_of : (a : IntentAction) → intent_to_side a ≡ side_of a
unfolding intent_to_side
intent_to_side_of IntentAction.sell = refl
intent_to_side_of IntentAction.close = refl
intent_to_side_of IntentAction.buy = refl
intent_to_side_of IntentAction.hold = refl
intent_to_side_of IntentAction.noop = refl

pub fill_of-reported : (i : TradeIntent) (r : OrderResult) → fill_of i r ≡ reported i r
unfolding fill_of
fill_of-reported i r = ap (λ s. record (reported i r) { side = s }) (intent_to_side_of i.action)

-- The ledgers once the broker has answered: unchanged where it raised or reported no positive
-- quantity, and with the reported fill in the ledger of the intent's bot otherwise.
abbrev pub after_answer :
    ⦃D : Decimals⦄ → Dict Ledger → TradeIntent → Ledger → Option OrderResult → Dict Ledger
after_answer ls i l none = ls
after_answer ls i l (some r) =
    if ltb_ℤ zero_ℤ r.filled_quantity then put ls i.bot_id (record_fill l (reported i r)).0 else ls

module _ {Handle : Type 0} ⦃D : Decimals⦄ where
  -- An order went out, and the ledgers are those after the broker's answer to it.
  pub record Answered (s : Services Handle) (i : TradeIntent) (c c' : Coordinator Handle)
      : Type 0 where
    pub broker : Handle
    pub ledger : Ledger
    pub order : c'.orders ≡ c.orders ++ (broker, intent_to_order i) ∷ []
    pub known : get c.ledgers i.bot_id ≡ some ledger
    pub settled : c'.ledgers ≡ after_answer c.ledgers i ledger (s.submit broker (intent_to_order i))

  -- The fill of a broker's answer, recorded in the ledger of the bot.
  pub record Booked (s : Services Handle) (i : TradeIntent) (c c' : Coordinator Handle)
      : Type 0 where
    pub ledger : Ledger
    pub result : OrderResult
    pub broker : Handle
    pub known : get c.ledgers i.bot_id ≡ some ledger
    pub answered : s.submit broker (intent_to_order i) ≡ some result
    pub positive : zero_ℤ <ℤ result.filled_quantity
    pub booked : c'.ledgers ≡ put c.ledgers i.bot_id (record_fill ledger (reported i result)).0

  -- Nothing was sent and no ledger changed, or an order was sent and its answer settled.
  abbrev pub Books :
      Services Handle → TradeIntent → Coordinator Handle → Coordinator Handle → Type 0
  Books s i c c' = ((c'.orders ≡ c.orders) × (c'.ledgers ≡ c.ledgers)) ⊎ Answered s i c c'

  record_result-ledgers :
      (s : Services Handle) (i : TradeIntent) (r : OrderResult) (l : Ledger) (x : Execution)
      → (c : Coordinator Handle)
      → let c' = (record_result s i r l x c).1 in c'.ledgers ≡ after_answer c.ledgers i l (some r)
  unfolding record_result
  record_result-ledgers s i r l x c =
      rw (← fill_of-reported i r) (elim (Option-cases c.ledger_store) [
        | inl n ↦ ground arith
        | inr (store, e) ↦
            ground (arith, ledger-record_and_persist s.faults store i.bot_id l (fill_of i r))
      ])

  -- The state in which the broker's answer is booked.
  abbrev pub sent_state : TradeIntent → Handle → Coordinator Handle → Coordinator Handle
  sent_state i b c = record c { orders = c.orders ++ (b, intent_to_order i) ∷ [] }

  pub submit_order-answered :
      (s : Services Handle) (i : TradeIntent) (b : Handle) (l : Ledger) (d : RiskDecision)
      → (r : OrderResult) (c : Coordinator Handle) → s.submit b (intent_to_order i) ≡ some r
      → submit_order s i b l d c ≡ record_result s i r l (executed i d r) (sent_state i b c)
  unfolding submit_order
  submit_order-answered s i b l d r c e = ground arith

  submit_order-Books :
      (s : Services Handle) (i : TradeIntent) (b : Handle) (l : Ledger) (d : RiskDecision)
      → (c : Coordinator Handle) → get c.ledgers i.bot_id ≡ some l
      → Books s i c (submit_order s i b l d c).1
  submit_order-Books s i b l d c known = elim (Option-cases (s.submit b (intent_to_order i))) [
    | inl n ↦ inr (record {
      broker = b;
      ledger = l;
      order = (submit_order-frame s i b l d c).0;
      known = known;
      settled = unfold submit_order in ground arith;
    })
    | inr (r, e) ↦ inr (record {
      broker = b;
      ledger = l;
      order = (submit_order-frame s i b l d c).0;
      known = known;
      settled =
          ap (λ z. z.1.ledgers) (submit_order-answered s i b l d r c e)
          ∙ record_result-ledgers s i r l (executed i d r) (sent_state i b c)
          ∙ ap (after_answer c.ledgers i l) (sym e);
    })
  ]

  check_and_submit-Books :
      (s : Services Handle) (i : TradeIntent) (b : Handle) (l : Ledger) (c : Coordinator Handle)
      → get c.ledgers i.bot_id ≡ some l
      → Books s i c (check_and_submit s i b l c).1
  check_and_submit-Books s i b l c known = elim (Option-cases (market_prices (s.quote b) i l)) [
    | inl n ↦ inl (unfold check_and_submit in ground arith, unfold check_and_submit in ground arith)
    | inr (prices, q) ↦
        let d = evaluate c.risk_manager i l prices in
        elim (Bool-cases (is_approved d.verdict)) [
          | inr n ↦
              inl (unfold check_and_submit in ground arith, unfold check_and_submit in ground arith)
          | inl y ↦
              rw (check_and_submit-approved s i b l prices c q y)
                (submit_order-Books s i b l d c known)
        ]
  ]

  Books-before :
      (s : Services Handle) (i : TradeIntent) (c m c' : Coordinator Handle)
      → m.orders ≡ c.orders
      → m.ledgers ≡ c.ledgers
      → Books s i m c'
      → Books s i c c'
  Books-before s i c m c' o e (inl (sent, same)) = inl (sent ∙ o, same ∙ e)
  Books-before s i c m c' o e (inr x) = inr (record {
    broker = x.broker;
    ledger = x.ledger;
    order = rw o at x.order;
    known = rw e at x.known;
    settled = rw e at x.settled;
  })

  route-Books :
      (s : Services Handle) (i : TradeIntent) (c : Coordinator Handle) → Books s i c (route s i c).1
  route-Books s i c =
      let m = (broker_for s i.org_id c).1 in
      let (os, same, _) = broker_for-frame s i.org_id c in
      elim (Option-cases (broker_for s i.org_id c).0) [
        | inl n ↦ rw (route-unavailable s i c n) (inl (os, same))
        | inr (b, e) ↦ elim (Option-cases (get m.ledgers i.bot_id)) [
          | inl n ↦ rw (route-unknown s i c b e n) (inl (os, same))
          | inr (l, known) ↦ rw (route-known s i c b l e known) (
              Books-before s i c m (check_and_submit s i b l m).1 os same
                (check_and_submit-Books s i b l m known))
        ]
      ]

  -- A call of `execute` that sends no order changes no ledger. One that sends an order leaves the
  -- ledgers as they were if the broker raises or reports no positive quantity; otherwise it records
  -- exactly one fill in the ledger of the intent's bot, with the intent's symbol, the side of its
  -- action, and the quantity, the price and the fees that the broker reported.
  pub execute_books :
      (s : Services Handle) (i : TradeIntent) (c : Coordinator Handle)
      → let c' = (execute s i c).1 in
        ((c'.orders ≡ c.orders) × (c'.ledgers ≡ c.ledgers)) ⊎ Answered s i c c'
  execute_books s i c = elim (Bool-cases (has c.ledgers i.bot_id)) [
    | inr n ↦ rw (execute-unknown s i c n) (inl (refl, refl))
    | inl y ↦ elim (Bool-cases (is_idle i.action)) [
      | inl idle ↦ rw (execute-idle s i c y idle) (inl (refl, refl))
      | inr busy ↦ elim (Bool-cases (is_stopped (halt_answer s.halt_store i.org_id))) [
        | inl stop ↦ rw (execute-stopped s i c y busy stop) (inl (refl, refl))
        | inr go ↦ rw (execute-route s i c y busy go) (route-Books s i c)
      ]
    ]
  ]

  Answered-Booked :
      (s : Services Handle) (i : TradeIntent) (c c' : Coordinator Handle)
      → Answered s i c c'
      → (c'.ledgers ≡ c.ledgers) ⊎ Booked s i c c'
  Answered-Booked s i c c' x = elim (Option-cases (s.submit x.broker (intent_to_order i))) [
    | inl n ↦ inl (x.settled ∙ ap (after_answer c.ledgers i x.ledger) n)
    | inr (r, e) ↦
        let at = x.settled ∙ ap (after_answer c.ledgers i x.ledger) e in
        elim (Bool-cases (ltb_ℤ zero_ℤ r.filled_quantity)) [
          | inr n ↦ inl (at ∙ ground (arith, n))
          | inl y ↦ inr (record {
            ledger = x.ledger;
            result = r;
            broker = x.broker;
            known = x.known;
            answered = e;
            positive = ltb_ℤ→lt zero_ℤ r.filled_quantity y;
            booked = at ∙ ground (arith, y);
          })
        ]
  ]

  -- No ledger changed, or one fill was booked.
  pub execute_ledgers :
      (s : Services Handle) (i : TradeIntent) (c : Coordinator Handle)
      → ((execute s i c).1.ledgers ≡ c.ledgers) ⊎ Booked s i c (execute s i c).1
  execute_ledgers s i c = elim (execute_books s i c) [
    | inl (_, same) ↦ inl same
    | inr x ↦ Answered-Booked s i c (execute s i c).1 x
  ]

  abbrev pub AreValid : Coordinator Handle → Type 0
  AreValid c = (b : String) (l : Ledger) → get c.ledgers b ≡ some l → IsValid l

  -- Every call keeps every ledger valid, whatever the brokers answer.
  pub execute-AreValid :
      (s : Services Handle) (i : TradeIntent) (c : Coordinator Handle)
      → AreValid c
      → AreValid (execute s i c).1
  execute-AreValid s i c v b l e = elim (execute_ledgers s i c) [
    | inl same ↦ v b l (rw same at e)
    | inr x ↦ ground (
      arith,
      ap (λ d. get d b) x.booked,
      get-put c.ledgers i.bot_id b (record_fill x.ledger (reported i x.result)).0,
      v b l,
      filled-IsValid i x.ledger x.result x.positive (v i.bot_id x.ledger x.known),
    )
  ]

  -- A call changes the ledger of no bot but the intent's.
  execute_others :
      (s : Services Handle) (i : TradeIntent) (c : Coordinator Handle) (b : String)
      → b ≢ i.bot_id
      → get (execute s i c).1.ledgers b ≡ get c.ledgers b
  execute_others s i c b n = elim (execute_ledgers s i c) [
    | inl same ↦ rw same
    | inr x ↦ ground (
      arith,
      ap (λ d. get d b) x.booked,
      get-put c.ledgers i.bot_id b (record_fill x.ledger (reported i x.result)).0,
      eq_iff i.bot_id b,
    )
  ]
