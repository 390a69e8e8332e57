-- ===== src/Coordinator/Routing.antt =====
-- The main statement about `execute`: at most one order, to the right broker, behind every gate.
use trading_strands.Prelude.{
  String, ◌≡◌, refl, ◌∙◌, ap, Bool, true, false, none, some, arith, ◌⊎◌, inl, inr, Option-cases,
  Bool-cases,
}
use trading_strands.Prelude.Dict.{get, has}
use trading_strands.Decimal.{Decimals}
use trading_strands.Ledger.Model.{Ledger}
use trading_strands.Coordinator.Types.{TradeIntent, is_idle}
use trading_strands.Risk.Manager.{approve}
use trading_strands.Coordinator.Model.{
  HaltAnswer, read_error, running, stopped, unexplained, Services, Coordinator, raised, unknown_bot,
  decided, broker_for, check_and_submit, route, halt_gate, halt_answer, execute,
}
use trading_strands.Coordinator.Isolation.{
  OwnsCache, HonestFactory, broker_for-owner, Sent, check_and_submit-Sent,
}

-- The halt store says that trading is stopped.
abbrev pub is_stopped : HaltAnswer → Bool
is_stopped read_error = false
is_stopped running = false
is_stopped (stopped why) = true
is_stopped unexplained = true

module _ {Handle : Type 0} where
  pub broker_for-frame :
      (s : Services Handle) (o : String) (c : Coordinator Handle)
      → let c' = (broker_for s o c).1 in
        (c'.orders ≡ c.orders) × (c'.ledgers ≡ c.ledgers) × (c'.risk_manager ≡ c.risk_manager)
  unfolding broker_for
  broker_for-frame s o c = ground arith

-- `execute` by its early returns.
module _ {Handle : Type 0} ⦃D : Decimals⦄ (s : Services Handle) (i : TradeIntent)
    (c : Coordinator Handle) where
  pub execute-unknown : has c.ledgers i.bot_id ≡ false → execute s i c ≡ (raised unknown_bot, c)
  unfolding execute
  execute-unknown n = ground arith

  pub execute-idle :
      has c.ledgers i.bot_id ≡ true
      → is_idle i.action ≡ true
      → execute s i c ≡ (decided i (approve i), c)
  unfolding execute
  execute-idle y idle = ground arith

  pub execute-stopped :
      has c.ledgers i.bot_id ≡ true
      → is_idle i.action ≡ false
      → is_stopped (halt_answer s.halt_store i.org_id) ≡ true
      → (execute s i c).1 ≡ c
  unfolding execute halt_gate
  execute-stopped y busy stop = ground arith

  pub execute-route :
      has c.ledgers i.bot_id ≡ true
      → is_idle i.action ≡ false
      → is_stopped (halt_answer s.halt_store i.org_id) ≡ false
      → execute s i c ≡ route s i c
  unfolding execute halt_gate
  execute-route y busy go = ground arith

module _ {Handle : Type 0} ⦃D : Decimals⦄ where
  pub route-unavailable :
      (s : Services Handle) (i : TradeIntent) (c : Coordinator Handle)
      → (broker_for s i.org_id c).0 ≡ none
      → (route s i c).1 ≡ (broker_for s i.org_id c).1
  unfolding route
  route-unavailable s i c e = ground arith

  pub route-unknown :
      (s : Services Handle) (i : TradeIntent) (c : Coordinator Handle) (b : Handle)
      → (broker_for s i.org_id c).0 ≡ some b
      → get (broker_for s i.org_id c).1.ledgers i.bot_id ≡ none
      → (route s i c).1 ≡ (broker_for s i.org_id c).1
  unfolding route
  route-unknown s i c b e n = ground arith

  pub route-known :
      (s : Services Handle) (i : TradeIntent) (c : Coordinator Handle) (b : Handle) (l : Ledger)
      → (broker_for s i.org_id c).0 ≡ some b
      → get (broker_for s i.org_id c).1.ledgers i.bot_id ≡ some l
      → route s i c ≡ check_and_submit s i b l (broker_for s i.org_id c).1
  unfolding route
  route-known s i c b l e n = ground arith

module _ {Handle : Type 0} ⦃D : Decimals⦄ (owner : Handle → String) where
  -- What a call leaves: a cache that is still owned, and no order or one to a broker of the
  -- intent's organisation.
  abbrev pub Routed :
      Services Handle → TradeIntent → Coordinator Handle → Coordinator Handle → Type 0
  Routed s i c c' =
      OwnsCache owner c'
      × ((c'.orders ≡ c.orders) ⊎ ((e : Sent s i c c') × (owner e.broker ≡ i.org_id)))

  -- From the state after `broker_for` back to the state before it.
  Sent-before :
      (s : Services Handle) (i : TradeIntent) (c m c' : Coordinator Handle)
      → (m.orders ≡ c.orders) × (m.ledgers ≡ c.ledgers) × (m.risk_manager ≡ c.risk_manager)
      → (e : Sent s i m c') → owner e.broker ≡ i.org_id
      → (x : Sent s i c c') × (owner x.broker ≡ i.org_id)
  Sent-before s i c m c' (os, ls, rs) e o = (
    record {
      broker = e.broker;
      ledger = e.ledger;
      prices = e.prices;
      order = rw os at e.order;
      known = rw ls at e.known;
      quoted = e.quoted;
      approved = rw rs at e.approved;
    },
    o,
  )

  route-Routed :
      (s : Services Handle) (i : TradeIntent) (c : Coordinator Handle)
      → HonestFactory owner s
      → OwnsCache owner c
      → Routed s i c (route s i c).1
  route-Routed s i c honest owns =
      let m = (broker_for s i.org_id c).1 in
      let (theirs, kept) = broker_for-owner owner s i.org_id c honest owns in
      let frame = broker_for-frame s i.org_id c in
      elim (Option-cases (broker_for s i.org_id c).0) [
        | inl n ↦ rw (route-unavailable s i c n) (kept, inl frame.0)
        | inr (b, e) ↦ elim (Option-cases (get m.ledgers i.bot_id)) [
          | inl n ↦ rw (route-unknown s i c b e n) (kept, inl frame.0)
          | inr (l, known) ↦
              let (cache, sent) = check_and_submit-Sent s i b l m known in
              rw (route-known s i c b l e known) (
                (λ o h p. kept o h (rw cache at p)),
                elim sent [
                  | inl same ↦ inl (same ∙ frame.0)
                  | inr (x, at_b) ↦ inr (
                      Sent-before s i c m (check_and_submit s i b l m).1 frame x
                        (ap owner at_b ∙ theirs b e))
                ],
              )
        ]
      ]

  -- With a factory that makes each organisation its own broker, and a cache that keeps them apart,
  -- a call of `execute` keeps the cache apart and hands out at most one order: to a broker of the
  -- intent's own organisation, for a bot with a ledger, when the halt store does not say stopped,
  -- the intent is not idle, and the risk manager approved it at that broker's prices.
  pub execute_routes :
      (s : Services Handle) (i : TradeIntent) (c : Coordinator Handle)
      → HonestFactory owner s
      → OwnsCache owner c
      → let c' = (execute s i c).1 in
        OwnsCache owner c'
        × ((c'.orders ≡ c.orders)
            ⊎ ((is_idle i.action ≡ false)
                × (is_stopped (halt_answer s.halt_store i.org_id) ≡ false)
                × ((e : Sent s i c c') × (owner e.broker ≡ i.org_id))))
  execute_routes s i c honest owns = elim (Bool-cases (has c.ledgers i.bot_id)) [
    | inr n ↦ rw (execute-unknown s i c n) (owns, inl refl)
    | inl y ↦ elim (Bool-cases (is_idle i.action)) [
      | inl idle ↦ rw (execute-idle s i c y idle) (owns, inl refl)
      | inr busy ↦ elim (Bool-cases (is_stopped (halt_answer s.halt_store i.org_id))) [
        | inl stop ↦ rw (execute-stopped s i c y busy stop) (owns, inl refl)
        | inr go ↦
            let (kept, sent) = route-Routed s i c honest owns in
            rw (execute-route s i c y busy go)
              (kept, elim sent [ inl same ↦ inl same | inr x ↦ inr (busy, go, x) ])
      ]
    ]
  ]
