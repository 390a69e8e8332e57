-- ===== src/Coordinator/Oversell.antt =====
-- A sale of more than is held: the risk manager lets every sale through, the broker fills it, and
-- the ledger refuses the fill.
use trading_strands.Prelude.{
  ◌≡◌, ◌∙◌, ap, true, false, some, [], ◌∷◌, ◌++◌, arith, inl, inr, Bool-cases, eq_refl,
}
use trading_strands.Prelude.Int.{ℤ, eqb_ℤ, ◌<ℤ◌}
use trading_strands.Prelude.Dict.{Dict, get, put, get-put}
use trading_strands.Decimal.{Decimals, zero_ℤ}
use trading_strands.Ledger.Model.{Side, Ledger, LedgerError, no_position, exceeds_held, record_fill}
use trading_strands.Ledger.Positions.{held}
use trading_strands.Ledger.Fills.{IsValid, appended, record_fill_error}
use trading_strands.Ledger.Holdings.{refusal, record_fill_outcome, held_nonneg}
use trading_strands.LedgerStore.{refused, record_and_persist}
use trading_strands.Coordinator.Types.{
  TradeIntent, OrderResult, is_idle, is_exit, is_approved, intent_to_side,
}
use trading_strands.Risk.Manager.{RiskManager, evaluate}
use trading_strands.Risk.Limits.{is_halted, exit_approved}
use trading_strands.Coordinator.Model.{
  Services, Coordinator, Execution, raised, persist_error, fill_of, intent_to_order, market_prices,
  broker_for, record_result, halt_answer, execute,
}
use trading_strands.Coordinator.Isolation.{check_and_submit-approved, record_result-frame}
use trading_strands.Coordinator.Routing.{is_stopped, broker_for-frame, route-known, execute-route}
use trading_strands.Coordinator.Booking.{
  reported, fill_of-reported, executed, sent_state, submit_order-answered,
}

sale_refused :
    (s : Side) (h q : ℤ) → s ≡ Side.sell → h <ℤ q → (e : LedgerError) × (refusal s h q ≡ some e)
sale_refused Side.buy h q b p = cc
sale_refused Side.sell h q b p = elim (Bool-cases (eqb_ℤ h zero_ℤ)) [
  | inl zero_held ↦ (no_position, ground arith)
  | inr some_held ↦ (exceeds_held, ground arith)
]

module _ ⦃D : Decimals⦄ (i : TradeIntent) (l : Ledger) (r : OrderResult) where
  exit_side : is_exit i.action ≡ true → intent_to_side i.action ≡ Side.sell
  unfolding intent_to_side
  exit_side x = ground arith

  -- Selling more than is held is refused by the ledger.
  oversold :
      is_exit i.action ≡ true
      → IsValid l
      → held l.open_positions i.symbol <ℤ r.filled_quantity
      → (e : LedgerError) × ((record_fill l (fill_of i r)).1 ≡ some e)
  unfolding fill_of
  oversold x v h =
      let (e, p) =
        sale_refused (intent_to_side i.action) (held l.open_positions i.symbol) r.filled_quantity
          (exit_side x) h in
      (e, record_fill_outcome l (fill_of i r) (omega (arith, held_nonneg l i.symbol v)) v ∙ p)

exit_busy : (i : TradeIntent) → is_exit i.action ≡ true → is_idle i.action ≡ false
exit_busy i x = ground arith

exit_passes :
    ⦃D : Decimals⦄ (m : RiskManager) (i : TradeIntent) (l : Ledger) (prices : Dict ℤ)
    → is_exit i.action ≡ true
    → is_halted m i.bot_id ≡ false
    → is_approved (evaluate m i l prices).verdict ≡ true
exit_passes m i l prices x free = exit_approved m i l prices (λ e. ground arith) ∙ ground arith

module _ {Handle : Type 0} ⦃D : Decimals⦄ where
  record_result-refused :
      (s : Services Handle) (i : TradeIntent) (r : OrderResult) (l : Ledger) (x : Execution)
      → (c : Coordinator Handle) (e : LedgerError) → zero_ℤ <ℤ r.filled_quantity
      → (record_fill l (fill_of i r)).1 ≡ some e
      → ((record_result s i r l x c).0 ≡ raised (persist_error (refused e)))
        × ((record_result s i r l x c).1.ledgers
            ≡ put c.ledgers i.bot_id (record_fill l (fill_of i r)).0)
  unfolding record_result record_and_persist
  record_result-refused s i r l x c e q h = ground arith

  -- A sale that the gates let through and that the broker fills for more than the bot holds: the
  -- order has gone out, `execute` raises, and the ledger keeps the holdings that it had, since the
  -- refused fill is only appended to its history.
  pub oversell_unrecorded :
      (s : Services Handle) (i : TradeIntent) (c : Coordinator Handle)
      → (b : Handle) (l : Ledger) (prices : Dict ℤ) (r : OrderResult) → is_exit i.action ≡ true
      → is_stopped (halt_answer s.halt_store i.org_id) ≡ false
      → is_halted c.risk_manager i.bot_id ≡ false
      → get c.ledgers i.bot_id ≡ some l
      → IsValid l
      → (broker_for s i.org_id c).0 ≡ some b
      → market_prices (s.quote b) i l ≡ some prices
      → s.submit b (intent_to_order i) ≡ some r
      → held l.open_positions i.symbol <ℤ r.filled_quantity
      → let (x, c') = execute s i c in
        ((e : LedgerError) × (x ≡ raised (persist_error (refused e))))
        × (c'.orders ≡ c.orders ++ (b, intent_to_order i) ∷ [])
        × (get c'.ledgers i.bot_id ≡ some (appended l (reported i r)))
  oversell_unrecorded s i c b l prices r exit go free known v br q sub h =
      let m = (broker_for s i.org_id c).1 in
      let (os, ls, rs) = broker_for-frame s i.org_id c in
      let d = evaluate m.risk_manager i l prices in
      let (e, denied) = oversold i l r exit v h in
      let (ends, books) =
        record_result-refused s i r l (executed i d r) (sent_state i b m) e
          (omega (arith, held_nonneg l i.symbol v)) denied in
      let (sent, _, _) = record_result-frame s i r l (executed i d r) (sent_state i b m) in
      let known_m : get m.ledgers i.bot_id ≡ some l = rw ls known in
      let pass : is_approved d.verdict ≡ true =
        rw rs (exit_passes c.risk_manager i l prices exit free) in
      rw
        (
          execute-route s i c (rw known) (exit_busy i exit) go,
          route-known s i c b l br known_m,
          check_and_submit-approved s i b l prices m q pass,
          submit_order-answered s i b l d r m sub,
        )
        (
          (e, ends),
          sent ∙ ap (λ o. o ++ (b, intent_to_order i) ∷ []) os,
          ap (λ g. get g i.bot_id) books
              ∙ get-put m.ledgers i.bot_id i.bot_id (record_fill l (fill_of i r)).0
              ∙ rw eq_refl (
                  ap some (
                    record_fill_error l (fill_of i r) e denied
                    ∙ ap (appended l) (fill_of-reported i r))),
        )
