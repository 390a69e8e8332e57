-- ===== src/KillSwitch/Isolation.antt =====
-- What a verb for one bot does to the other bots, on every path.
use trading_strands.Prelude.{
  String, ◌≡◌, refl, ap, ◌∙◌, Bool, true, false, Option, none, some, List, [], ◌∷◌, ◌++◌, ◌==◌,
  arith, inl, inr, Option-cases,
}
use trading_strands.Prelude.Int.{ℤ}
use trading_strands.Prelude.Dict.{Dict, get, get-put}
use trading_strands.Decimal.{Decimals}
use trading_strands.Ledger.Model.{Position, Ledger, record_fill}
use trading_strands.Coordinator.Types.{OrderResult}
use trading_strands.Coordinator.Model.{Coordinator}
use trading_strands.KillSwitch.{
  KillSwitch, KillSwitchVerb, halt_and_stop, halt_and_liquidate, halt_and_sell_gains, KillError,
  Submit, is_gain, named_bot, bot_ledgers, target_ledgers, halt, sell_order, sell_fill, record_sale,
  sell_position, sell_positions, sell_ledgers, then_halt, liquidate_and_halt, sell_gains_and_halt,
  run_verb, execute_verb,
}

module _ {Handle : Type 0} ⦃D : Decimals⦄ (submit : Submit Handle) (bot j : String)
    (apart : bot == j ≡ false) where
  record_sale_others :
      (p : Position) (r : OrderResult) (l : Ledger) (c : Coordinator Handle)
      → get (record_sale bot p r l c).2.ledgers j ≡ get c.ledgers j
  unfolding record_sale
  record_sale_others p r l c =
      ground (arith, get-put c.ledgers bot j (record_fill l (sell_fill p r)).0)

  sell_position_others :
      (p : Position) (l : Ledger) (c : Coordinator Handle)
      → get (sell_position submit bot p l c).2.ledgers j ≡ get c.ledgers j
  unfolding sell_position
  sell_position_others p l c = elim (Option-cases c.default_broker) [
    | inl missing ↦ ground arith
    | inr (broker, b) ↦ elim (Option-cases (submit c.orders broker (sell_order p))) [
      | inl failed ↦ ground arith
      | inr (r, a) ↦
          let sent = record c { orders = c.orders ++ (broker, sell_order p) ∷ [] } in
          ground (arith, record_sale_others p r l sent)
    ]
  ]

  sell_positions_others :
      (wanted : Position → Bool) (ps : List Position) (l : Ledger) (c : Coordinator Handle)
      → get (sell_positions submit wanted bot ps l c).2.ledgers j ≡ get c.ledgers j
  unfolding sell_positions
  sell_positions_others wanted [] l c = refl
  sell_positions_others wanted (p ∷ ps) l c = ground (
    arith,
    sell_position_others p l c,
    sell_positions_others wanted ps l c,
    sell_positions_others wanted ps (sell_position submit bot p l c).1
        (sell_position submit bot p l c).2,
  )

  sell_one_others :
      (wanted : Position → Bool) (o : Option Ledger) (c : Coordinator Handle)
      → get
          (sell_ledgers submit wanted (elim o [ none ↦ [] | some l ↦ (bot, l) ∷ [] ]) c).1.ledgers
          j
        ≡ get c.ledgers j
  unfolding sell_ledgers
  sell_one_others wanted none c = refl
  sell_one_others wanted (some l) c =
      ground (arith, sell_positions_others wanted l.open_positions l c)

  target_named :
      (c : Coordinator Handle)
      → bot == "" ≡ false
      → target_ledgers (some bot) c ≡ bot_ledgers c.ledgers bot
  unfolding target_ledgers named_bot
  target_named c n = ground arith

  sell_target_others :
      (wanted : Position → Bool) (c : Coordinator Handle)
      → bot == "" ≡ false
      → get (sell_ledgers submit wanted (target_ledgers (some bot) c) c).1.ledgers j
        ≡ get c.ledgers j
  unfolding bot_ledgers
  sell_target_others wanted c n =
      ap (λ ls. get (sell_ledgers submit wanted ls c).1.ledgers j) (target_named c n)
      ∙ sell_one_others wanted (get c.ledgers bot) c

  then_halt_ledgers :
      (o : Option KillError × Coordinator Handle) → (then_halt (some bot) o).1.ledgers ≡ o.1.ledgers
  unfolding then_halt halt
  then_halt_ledgers (none, c) = refl
  then_halt_ledgers (some e, c) = refl

  -- A verb for a bot changes no other bot's ledger, whatever the broker answers, exceptions, partial
  -- fills and refused sales included.
  pub execute_verb_others :
      (verb : KillSwitchVerb) (prices : Dict ℤ) (k : KillSwitch Handle)
      → bot == "" ≡ false
      → get (execute_verb submit verb (some bot) prices k).1.coordinator.ledgers j
        ≡ get k.coordinator.ledgers j
  unfolding execute_verb run_verb liquidate_and_halt sell_gains_and_halt halt
  execute_verb_others halt_and_stop prices k n = refl
  execute_verb_others halt_and_liquidate prices k n =
      let c = k.coordinator in
      ap (λ ls. get ls j)
        (then_halt_ledgers (sell_ledgers submit (λ _. true) (target_ledgers (some bot) c) c))
      ∙ sell_target_others (λ _. true) c n
  execute_verb_others halt_and_sell_gains prices k n =
      let c = k.coordinator in
      ap (λ ls. get ls j)
        (then_halt_ledgers (sell_ledgers submit (is_gain prices) (target_ledgers (some bot) c) c))
      ∙ sell_target_others (is_gain prices) c n
