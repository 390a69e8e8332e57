-- ===== src/Coordinator/Frame.antt =====
-- What every call of `execute` leaves alone: the halts and the set of bots; and that it hands out one
-- order at most.
use trading_strands.Prelude.{
  suc, String, ◌≡◌, refl, ◌∙◌, ap, true, [], ◌∷◌, arith, ◌≤◌, inl, inr, Option-cases, Bool-cases,
  length, length-append,
}
use trading_strands.Prelude.Dict.{get, has, get-put}
use trading_strands.Decimal.{Decimals}
use trading_strands.Ledger.Model.{Ledger, record_fill}
use trading_strands.Coordinator.Types.{TradeIntent, is_idle, is_approved}
use trading_strands.Risk.Manager.{evaluate}
use trading_strands.Coordinator.Model.{
  Services, Coordinator, intent_to_order, market_prices, broker_for, check_and_submit, route,
  halt_answer, execute,
}
use trading_strands.Coordinator.Isolation.{submit_order-frame, check_and_submit-approved}
use trading_strands.Coordinator.Routing.{
  is_stopped, broker_for-frame, route-unavailable, route-unknown, route-known, execute-unknown,
  execute-idle, execute-stopped, execute-route,
}
use trading_strands.Coordinator.Booking.{reported, execute_ledgers}

module _ {Handle : Type 0} ⦃D : Decimals⦄ where
  -- the halts as they were, and one more order at most
  abbrev pub Bounded : Coordinator Handle → Coordinator Handle → Type 0
  Bounded c c' = (c'.risk_manager ≡ c.risk_manager) × (length c'.orders ≤ suc (length c.orders))

  check_and_submit-Bounded :
      (s : Services Handle) (i : TradeIntent) (b : Handle) (l : Ledger) (c : Coordinator Handle)
      → Bounded c (check_and_submit s i b l c).1
  check_and_submit-Bounded s i b l c = elim (Option-cases (market_prices (s.quote b) i l)) [
    | inl n ↦ unfold check_and_submit in ground arith
    | inr (prices, q) ↦
        let d = evaluate c.risk_manager i l prices in
        elim (Bool-cases (is_approved d.verdict)) [
          | inr n ↦ unfold check_and_submit in ground arith
          | inl y ↦
              let (sent, _, risk) = submit_order-frame s i b l d c in
              rw (check_and_submit-approved s i b l prices c q y) (
                risk,
                omega (arith, ap length sent, length-append c.orders ((b, intent_to_order i) ∷ [])),
              )
        ]
  ]

  route-Bounded :
      (s : Services Handle) (i : TradeIntent) (c : Coordinator Handle) → Bounded c (route s i c).1
  route-Bounded s i c =
      let m = (broker_for s i.org_id c).1 in
      let (os, _, rs) = broker_for-frame s i.org_id c in
      elim (Option-cases (broker_for s i.org_id c).0) [
        | inl n ↦ rw (route-unavailable s i c n) (rs, omega (arith, ap length os))
        | inr (b, e) ↦ elim (Option-cases (get m.ledgers i.bot_id)) [
          | inl n ↦ rw (route-unknown s i c b e n) (rs, omega (arith, ap length os))
          | inr (l, known) ↦
              let (risk, one) = check_and_submit-Bounded s i b l m in
              rw (route-known s i c b l e known) (risk ∙ rs, omega (arith, one, ap length os))
        ]
      ]

  pub execute-Bounded :
      (s : Services Handle) (i : TradeIntent) (c : Coordinator Handle) → Bounded c (execute s i c).1
  execute-Bounded s i c = elim (Bool-cases (has c.ledgers i.bot_id)) [
    | inr n ↦ rw (execute-unknown s i c n) (refl, omega arith)
    | inl y ↦ elim (Bool-cases (is_idle i.action)) [
      | inl idle ↦ rw (execute-idle s i c y idle) (refl, omega arith)
      | inr busy ↦ elim (Bool-cases (is_stopped (halt_answer s.halt_store i.org_id))) [
        | inl stop ↦ rw (execute-stopped s i c y busy stop) (refl, omega arith)
        | inr go ↦ rw (execute-route s i c y busy go) (route-Bounded s i c)
      ]
    ]
  ]

  pub execute_known :
      (s : Services Handle) (i : TradeIntent) (c : Coordinator Handle) (b : String)
      → has c.ledgers b ≡ true
      → has (execute s i c).1.ledgers b ≡ true
  execute_known s i c b h = elim (execute_ledgers s i c) [
    | inl same ↦ rw same h
    | inr x ↦ ground (
      arith,
      ap (λ d. get d b) x.booked,
      get-put c.ledgers i.bot_id b (record_fill x.ledger (reported i x.result)).0,
    )
  ]
