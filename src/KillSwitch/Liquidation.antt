-- ===== src/KillSwitch/Liquidation.antt =====
-- What the sales of one ledger leave open, when the broker fills every order.
use trading_strands.Prelude.{
  append-nil, append_assoc, String, ◌≡◌, refl, sym, ap, ◌∙◌, Bool, true, false, Option, none, some,
  List, [], ◌∷◌, ◌++◌, ◌==◌, if◌then◌else◌, arith, eq_refl, inl, inr, Bool-cases,
}
use trading_strands.Prelude.Int.{pos, ◌<ℤ◌}
use trading_strands.Prelude.Dict.{get, put, get-put}
use trading_strands.Decimal.{Decimals}
use trading_strands.Ledger.Model.{Side, Position, Ledger, find_position, record_fill}
use trading_strands.Ledger.Positions.{ArePositions}
use trading_strands.Coordinator.Types.{OrderRequest, OrderResult, OrderType, TimeInForce}
use trading_strands.Coordinator.Model.{Coordinator}
use trading_strands.KillSwitch.{
  KillError, Submit, sell_order, sell_fill, record_sale, sell_position, sell_positions,
}
use trading_strands.KillSwitch.WholeSale.{
  unwanted, AreNew, record_fill-whole, AreNew-append, append_one,
}

-- Every order is filled in full.
unfoldable pub FillsAll : {Handle : Type 0} → Submit Handle → Type 0
FillsAll {Handle} submit =
    (sent : List (Handle × OrderRequest)) (broker : Handle) (o : OrderRequest)
    → (r : OrderResult) × (submit sent broker o ≡ some r) × (r.filled_quantity ≡ o.quantity)

-- The market sale of a whole position.
abbrev pub market_sale : Position → OrderRequest
market_sale p = record {
  symbol = p.symbol;
  side = Side.sell;
  quantity = p.quantity;
  order_type = OrderType.market;
  limit_price = none;
  time_in_force = TimeInForce.day;
}

-- The market sales of the positions that a test wants sold.
pub sell_orders :
    {Handle : Type 0} → Handle → (Position → Bool) → List Position → List (Handle × OrderRequest)
sell_orders broker wanted [] = []
sell_orders broker wanted (p ∷ ps) =
    let rest = sell_orders broker wanted ps in
    if wanted p then (broker, market_sale p) ∷ rest else rest

-- Sales of a bot's positions that end well: the positions that are left, what is stored, and the
-- orders that were sent.
pub record Ends {Handle : Type 0} (bot : String) (rest : List Position)
    (sent : List (Handle × OrderRequest)) (c : Coordinator Handle)
    (o : Option KillError × Ledger × Coordinator Handle) : Type 0 where
  pub no_error : o.0 ≡ none
  pub left : o.1.open_positions ≡ rest
  pub stored : get o.2.ledgers bot ≡ some o.1
  pub others : (j : String) → bot == j ≡ false → get o.2.ledgers j ≡ get c.ledgers j
  pub broker_kept : o.2.default_broker ≡ c.default_broker
  pub risk_kept : o.2.risk_manager ≡ c.risk_manager
  pub ordered : o.2.orders ≡ c.orders ++ sent

Ends-chain :
    {Handle : Type 0} {bot : String} {rest left_over : List Position}
    {sent more : List (Handle × OrderRequest)} {c : Coordinator Handle}
    {o next : Option KillError × Ledger × Coordinator Handle}
    → Ends bot rest sent c o
    → Ends bot left_over more o.2 next
    → Ends bot left_over (sent ++ more) c next
Ends-chain {sent = sent} {more = more} {c = c} a b = record {
  no_error = b.no_error;
  left = b.left;
  stored = b.stored;
  others = λ j d. b.others j d ∙ a.others j d;
  broker_kept = b.broker_kept ∙ a.broker_kept;
  risk_kept = b.risk_kept ∙ a.risk_kept;
  ordered = b.ordered ∙ ap (λ os. os ++ more) a.ordered ∙ append_assoc c.orders sent more;
}

module _ {Handle : Type 0} ⦃D : Decimals⦄ (submit : Submit Handle) (broker : Handle)
    (bot : String) where
  record_sale-filled :
      (p : Position) (r : OrderResult) (l : Ledger) (c : Coordinator Handle)
      → pos 0 <ℤ r.filled_quantity
      → (record_fill l (sell_fill p r)).1 ≡ none
      → record_sale bot p r l c ≡ (
        none,
        (record_fill l (sell_fill p r)).0,
        record c { ledgers = put c.ledgers bot (record_fill l (sell_fill p r)).0 },
      )
  unfolding record_sale
  record_sale-filled p r l c q e = ground arith

  record_sale-Ends :
      (kept : List Position) (p : Position) (ps : List Position) (r : OrderResult) (l : Ledger)
      (c : Coordinator Handle)
      → l.open_positions ≡ kept ++ p ∷ ps
      → find_position kept p.symbol ≡ none
      → pos 0 <ℤ p.quantity
      → r.filled_quantity ≡ p.quantity
      → Ends bot (kept ++ ps) [] c (record_sale bot p r l c)
  record_sale-Ends kept p ps r l c e n q full =
      let sold = record_fill-whole kept p ps l r e n full in
      let l' = (record_fill l (sell_fill p r)).0 in
      rw (record_sale-filled p r l c (rw full q) sold.0) (record {
        no_error = refl;
        left = sold.1;
        stored = get-put c.ledgers bot bot l' ∙ rw (eq_refl bot) refl;
        others = λ j d. get-put c.ledgers bot j l' ∙ rw d refl;
        broker_kept = refl;
        risk_kept = refl;
        ordered = sym (append-nil c.orders);
      })

  sell_position-answered :
      (p : Position) (r : OrderResult) (l : Ledger) (c : Coordinator Handle)
      → c.default_broker ≡ some broker
      → submit c.orders broker (sell_order p) ≡ some r
      → sell_position submit bot p l c
        ≡ record_sale bot p r l (record c { orders = c.orders ++ (broker, sell_order p) ∷ [] })
  unfolding sell_position
  sell_position-answered p r l c b a = ground arith

  sell_positions_keep :
      (wanted : Position → Bool) (p : Position) (ps : List Position) (l : Ledger)
      (c : Coordinator Handle)
      → wanted p ≡ false
      → sell_positions submit wanted bot (p ∷ ps) l c ≡ sell_positions submit wanted bot ps l c
  unfolding sell_positions
  sell_positions_keep wanted p ps l c w = ground arith

  sell_positions_sell :
      (wanted : Position → Bool) (p : Position) (ps : List Position) (l : Ledger)
      (c : Coordinator Handle)
      → wanted p ≡ true
      → (sell_position submit bot p l c).0 ≡ none
      → sell_positions submit wanted bot (p ∷ ps) l c
        ≡ sell_positions submit wanted bot ps
            (sell_position submit bot p l c).1
            (sell_position submit bot p l c).2
  unfolding sell_positions
  sell_positions_sell wanted p ps l c w e = ground arith

  module _ (fills : FillsAll submit) where
    sell_position-Ends :
        (kept : List Position) (p : Position) (ps : List Position) (l : Ledger)
        (c : Coordinator Handle)
        → c.default_broker ≡ some broker
        → l.open_positions ≡ kept ++ p ∷ ps
        → find_position kept p.symbol ≡ none
        → pos 0 <ℤ p.quantity
        → Ends bot (kept ++ ps) ((broker, sell_order p) ∷ []) c (sell_position submit bot p l c)
    unfolding sell_order FillsAll
    sell_position-Ends kept p ps l c b e n q =
        let (r, answer, full) = fills c.orders broker (sell_order p) in
        let sent = record c { orders = c.orders ++ (broker, sell_order p) ∷ [] } in
        let ends = record_sale-Ends kept p ps r l sent e n q full in
        rw (sell_position-answered p r l c b answer) (record {
          no_error = ends.no_error;
          left = ends.left;
          stored = ends.stored;
          others = ends.others;
          broker_kept = ends.broker_kept;
          risk_kept = ends.risk_kept;
          ordered = ends.ordered ∙ append-nil _;
        })

    -- All the sales of a ledger: what stays is what was kept and what is not wanted.
    pub sell_positions-Ends :
        (wanted : Position → Bool) (kept ps : List Position) (l : Ledger) (c : Coordinator Handle)
        → c.default_broker ≡ some broker
        → get c.ledgers bot ≡ some l
        → l.open_positions ≡ kept ++ ps
        → AreNew kept ps
        → ArePositions ps
        → Ends bot
            (kept ++ unwanted wanted ps)
            (sell_orders broker wanted ps)
            c
            (sell_positions submit wanted bot ps l c)
    unfolding sell_positions unwanted sell_orders sell_order
    sell_positions-Ends wanted kept [] l c b g e n v = record {
      no_error = refl;
      left = e;
      stored = g;
      others = λ j d. refl;
      broker_kept = refl;
      risk_kept = refl;
      ordered = sym (append-nil c.orders);
    }
    sell_positions-Ends wanted kept (p ∷ ps) l c b g e n v = elim (Bool-cases (wanted p)) [
      | inl w ↦
          let one = sell_position-Ends kept p ps l c b e n.0 v.0 in
          let rest =
            sell_positions-Ends wanted kept ps (sell_position submit bot p l c).1
              (sell_position submit bot p l c).2 (one.broker_kept ∙ b) one.stored one.left n.1
              v.2 in
          rw (sell_positions_sell wanted p ps l c w one.no_error, w) (Ends-chain one rest)
      | inr w ↦
          let rest =
            sell_positions-Ends wanted (kept ++ p ∷ []) ps l c b g (e ∙ sym (append_one kept p ps))
              (AreNew-append kept p ps v.1 n.1) v.2 in
          rw
            (sell_positions_keep wanted p ps l c w, w, sym (append_one kept p (unwanted wanted ps)))
            rest
    ]
