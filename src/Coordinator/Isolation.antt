-- ===== src/Coordinator/Isolation.antt =====
-- Every order goes to a broker of the organisation that its intent names, and only after the gates.
use trading_strands.Prelude.{
  String, ◌≡◌, refl, true, some, [], ◌∷◌, ◌++◌, eq_iff, arith, ◌⊎◌, inl, inr, Option-cases,
  Bool-cases,
}
use trading_strands.Prelude.Int.{ℤ}
use trading_strands.Prelude.Dict.{Dict, get, get-put}
use trading_strands.Decimal.{Decimals}
use trading_strands.Ledger.Model.{Ledger}
use trading_strands.Coordinator.Types.{TradeIntent, RiskDecision, is_approved, OrderResult}
use trading_strands.Risk.Manager.{evaluate}
use trading_strands.Coordinator.Model.{
  Services, Coordinator, Execution, done, intent_to_order, market_prices, broker_for, record_result,
  submit_order, check_and_submit,
}

module _ {Handle : Type 0} (owner : Handle → String) where
  -- Every cached broker belongs to the organisation under which it is cached.
  abbrev pub OwnsCache : Coordinator Handle → Type 0
  OwnsCache c = (o : String) (h : Handle) → get c.broker_cache o ≡ some h → owner h ≡ o

  -- Every order handed out so far is paired with the broker of the organisation that it was for.
  -- The factory makes brokers of the organisation that it is asked for.
  abbrev pub HonestFactory : Services Handle → Type 0
  HonestFactory s = (o : String) (h : Handle) → s.factory o ≡ some h → owner h ≡ o

  -- `broker_for` returns a broker of the organisation that was asked for and keeps the cache so.
  pub broker_for-owner :
      (s : Services Handle) (o : String) (c : Coordinator Handle)
      → HonestFactory s
      → OwnsCache c
      → ((h : Handle) → (broker_for s o c).0 ≡ some h → owner h ≡ o)
        × OwnsCache (broker_for s o c).1
  unfolding broker_for
  broker_for-owner s o c honest owns = elim (Option-cases (get c.broker_cache o)) [
    | inr (b, e) ↦ (λ h p. ground (arith, owns o h), λ j h p. ground (arith, owns j h))
    | inl e ↦ elim (Option-cases (s.factory o)) [
      | inl n ↦ (λ h p. ground arith, λ j h p. ground (arith, owns j h))
      | inr (b, m) ↦ (
        λ h p. ground (arith, honest o h),
        λ j h p. ground (arith, get-put c.broker_cache o j b, owns j h, honest o b, eq_iff o j),
      )
    ]
  ]

-- What `_record_fill` leaves alone.
module _ {Handle : Type 0} ⦃D : Decimals⦄ where
  pub record_result-frame :
      (s : Services Handle) (i : TradeIntent) (r : OrderResult) (l : Ledger) (x : Execution)
      → (c : Coordinator Handle)
      → let c' = (record_result s i r l x c).1 in
        (c'.orders ≡ c.orders)
        × (c'.broker_cache ≡ c.broker_cache)
        × (c'.risk_manager ≡ c.risk_manager)
  unfolding record_result
  record_result-frame s i r l x c = ground arith

  pub submit_order-frame :
      (s : Services Handle) (i : TradeIntent) (b : Handle) (l : Ledger) (d : RiskDecision)
      → (c : Coordinator Handle)
      → let c' = (submit_order s i b l d c).1 in
        (c'.orders ≡ c.orders ++ (b, intent_to_order i) ∷ [])
        × (c'.broker_cache ≡ c.broker_cache)
        × (c'.risk_manager ≡ c.risk_manager)
  unfolding submit_order
  submit_order-frame s i b l d c = elim (Option-cases (s.submit b (intent_to_order i))) [
    | inl n ↦ ground arith
    | inr (r, e) ↦ ground (
      arith,
      record_result-frame s i r l
          (done (record { intent = i; risk_decision = some d; order_result = some r }))
          (record c { orders = c.orders ++ (b, intent_to_order i) ∷ [] }),
    )
  ]

  -- One order went out, to a broker `b`, after an approval of the risk manager at the prices of `b`.
  pub record Sent (s : Services Handle) (i : TradeIntent) (c c' : Coordinator Handle) : Type 0 where
    pub broker : Handle
    pub ledger : Ledger
    pub prices : Dict ℤ
    pub order : c'.orders ≡ c.orders ++ (broker, intent_to_order i) ∷ []
    pub known : get c.ledgers i.bot_id ≡ some ledger
    pub quoted : market_prices (s.quote broker) i ledger ≡ some prices
    pub approved : is_approved (evaluate c.risk_manager i ledger prices).verdict ≡ true

  pub check_and_submit-approved :
      (s : Services Handle) (i : TradeIntent) (b : Handle) (l : Ledger) (prices : Dict ℤ)
      → (c : Coordinator Handle) → market_prices (s.quote b) i l ≡ some prices
      → is_approved (evaluate c.risk_manager i l prices).verdict ≡ true
      → check_and_submit s i b l c ≡ submit_order s i b l (evaluate c.risk_manager i l prices) c
  unfolding check_and_submit
  check_and_submit-approved s i b l prices c q y = ground arith

  pub check_and_submit-Sent :
      (s : Services Handle) (i : TradeIntent) (b : Handle) (l : Ledger) (c : Coordinator Handle)
      → get c.ledgers i.bot_id ≡ some l
      → let c' = (check_and_submit s i b l c).1 in
        (c'.broker_cache ≡ c.broker_cache)
        × ((c'.orders ≡ c.orders) ⊎ ((e : Sent s i c c') × (e.broker ≡ b)))
  check_and_submit-Sent s i b l c known = elim (Option-cases (market_prices (s.quote b) i l)) [
    | inl n ↦ unfold check_and_submit in ground arith
    | inr (prices, q) ↦
        let d = evaluate c.risk_manager i l prices in
        elim (Bool-cases (is_approved d.verdict)) [
          | inr n ↦ unfold check_and_submit in ground arith
          | inl y ↦ rw (check_and_submit-approved s i b l prices c q y) (
            (submit_order-frame s i b l d c).1,
            inr (
              record {
                broker = b;
                ledger = l;
                prices = prices;
                order = (submit_order-frame s i b l d c).0;
                known = known;
                quoted = q;
                approved = y;
              },
              refl,
            ),
          )
        ]
  ]
