-- ===== src/KillSwitch/Verbs.antt =====
-- What a verb of the kill switch leaves: for one bot when the broker fills its orders, and for the
-- halt on every path.
use mathlib.Core.Path.{subst}
use trading_strands.Prelude.{
  String, ◌≡◌, refl, ap, ◌∙◌, Bool, true, false, Option, none, some, List, [], ◌∷◌, ◌++◌, ◌==◌,
  arith, inl, inr, Option-cases, ◌||◌, ◌&&◌, not, or_else, contains, eq_iff,
}
use trading_strands.Prelude.Int.{ℤ}
use trading_strands.Prelude.Dict.{Dict, get}
use trading_strands.Decimal.{Decimals}
use trading_strands.Ledger.Model.{Position, Ledger, find_position}
use trading_strands.Ledger.Positions.{ArePositions}
use trading_strands.Coordinator.Types.{OrderRequest, OrderResult}
use trading_strands.Coordinator.Model.{Coordinator}
use trading_strands.Risk.Manager.{RiskManager, halt_bot, halt_desk}
use trading_strands.KillSwitch.{
  KillSwitch, KillSwitchVerb, halt_and_stop, halt_and_liquidate, halt_and_sell_gains, KillError,
  Submit, is_gain, named_bot, bot_ledgers, target_ledgers, halt_target, halt, sell_order,
  record_sale, sell_position, sell_positions, sell_ledgers, then_halt, liquidate_and_halt,
  sell_gains_and_halt, run_verb, execute_verb,
}
use trading_strands.KillSwitch.WholeSale.{unwanted, AreNew}
use trading_strands.KillSwitch.Liquidation.{FillsAll, sell_orders, sell_positions-Ends}

-- How a verb on one bot ends: the positions that stay, the orders that were sent, the bot halted,
-- and the ledgers of all other bots as they were.
pub record Flattens {Handle : Type 0} (bot : String) (rest : List Position)
    (sent : List (Handle × OrderRequest)) (k : KillSwitch Handle)
    (o : Option KillError × KillSwitch Handle) : Type 0 where
  pub no_error : o.0 ≡ none
  pub ledger : Ledger
  pub stored : get o.1.coordinator.ledgers bot ≡ some ledger
  pub left : ledger.open_positions ≡ rest
  pub ordered : o.1.coordinator.orders ≡ k.coordinator.orders ++ sent
  pub halted : o.1.coordinator.risk_manager ≡ halt_bot k.coordinator.risk_manager bot
  pub others :
      (j : String) → bot == j ≡ false → get o.1.coordinator.ledgers j ≡ get k.coordinator.ledgers j

nothing_kept : (ps : List Position) → AreNew [] ps
unfolding find_position
nothing_kept [] = tt
nothing_kept (p ∷ ps) = (refl, nothing_kept ps)

halt_target_one :
    (bot : String) (m : RiskManager) → bot == "" ≡ false → halt_target (some bot) m ≡ halt_bot m bot
unfolding halt_target named_bot
halt_target_one bot m n = ground arith

all_wanted : (ps : List Position) → unwanted (λ _. true) ps ≡ []
unfolding unwanted
all_wanted [] = refl
all_wanted (p ∷ ps) = all_wanted ps

-- The halts after a verb on the target: with no name or an empty one the desk is halted, and
-- otherwise the bot of that name; no other halt changes.
pub record Halts (bot : Option String) (m m' : RiskManager) : Type 0 where
  pub desk : m'.desk_halted ≡ (m.desk_halted || or_else bot "" == "")
  pub bots :
      (b : String)
      → contains m'.halted_bots b
        ≡ (contains m.halted_bots b || (not (b == "") && b == or_else bot ""))
  pub settings : (m'.config ≡ m.config) × (m'.daily_loss ≡ m.daily_loss)

halt_target-Halts : (bot : Option String) (m : RiskManager) → Halts bot m (halt_target bot m)
unfolding halt_target named_bot halt_bot halt_desk
halt_target-Halts none m = record {
  desk = ground arith;
  bots = λ b. ground arith;
  settings = (refl, refl);
}
halt_target-Halts (some o) m = record {
  desk = ground arith;
  bots = λ b. ground (arith, eq_iff o b, eq_iff b o, eq_iff o "", eq_iff b "");
  settings = (ground arith, ground arith);
}

-- The halts after a verb: those of the target's halt if nothing was raised, the old ones if not.
abbrev pub HaltsAfter : Option KillError → Option String → RiskManager → RiskManager → Type 0
HaltsAfter none bot m m' = Halts bot m m'
HaltsAfter (some e) bot m m' = m' ≡ m

halt_target-HaltsAfter :
    (e : Option KillError) (bot : Option String) (m m' : RiskManager)
    → m' ≡ elim e [ none ↦ halt_target bot m | some _ ↦ m ]
    → HaltsAfter e bot m m'
halt_target-HaltsAfter none bot m m' h = rw h (halt_target-Halts bot m)
halt_target-HaltsAfter (some e) bot m m' h = h

module _ {Handle : Type 0} ⦃D : Decimals⦄ (submit : Submit Handle) where
  sell_ledgers_one :
      (wanted : Position → Bool) (bot : String) (l : Ledger) (c : Coordinator Handle)
      → (sell_positions submit wanted bot l.open_positions l c).0 ≡ none
      → sell_ledgers submit wanted ((bot, l) ∷ []) c
        ≡ (none, (sell_positions submit wanted bot l.open_positions l c).2)
  unfolding sell_ledgers
  sell_ledgers_one wanted bot l c h = ground arith

  target_ledgers_one :
      (bot : String) (l : Ledger) (c : Coordinator Handle)
      → bot == "" ≡ false
      → get c.ledgers bot ≡ some l
      → target_ledgers (some bot) c ≡ (bot, l) ∷ []
  unfolding target_ledgers named_bot bot_ledgers
  target_ledgers_one bot l c n g = ground arith

  sale-Flattens :
      (wanted : Position → Bool) (broker : Handle) (bot : String) (l : Ledger)
      (k : KillSwitch Handle) (log : List (KillSwitchVerb × Option String))
      → FillsAll submit
      → bot == "" ≡ false
      → k.coordinator.default_broker ≡ some broker
      → get k.coordinator.ledgers bot ≡ some l
      → ArePositions l.open_positions
      → Flattens bot
          (unwanted wanted l.open_positions)
          (sell_orders broker wanted l.open_positions)
          k
          (let (e, c) = then_halt (some bot) (
              sell_ledgers submit wanted (target_ledgers (some bot) k.coordinator) k.coordinator) in
            (e, record { coordinator = c; log = log }))
  unfolding then_halt halt
  sale-Flattens wanted broker bot l k log fills n b g v =
      let ends =
        sell_positions-Ends submit broker bot fills wanted [] l.open_positions l k.coordinator b g
          refl (nothing_kept l.open_positions) v in
      rw
        (
          target_ledgers_one bot l k.coordinator n g,
          sell_ledgers_one wanted bot l k.coordinator ends.no_error,
        )
        (record {
          no_error = refl;
          ledger = (sell_positions submit wanted bot l.open_positions l k.coordinator).1;
          stored = ends.stored;
          left = ends.left;
          ordered = ends.ordered;
          halted = halt_target_one bot _ n ∙ ap (λ m. halt_bot m bot) ends.risk_kept;
          others = ends.others;
        })

  -- `halt-and-liquidate-positions` for a bot, with a broker that fills every order in full: no
  -- position is left open, one market sale of each was sent, in order, the bot is halted, and no
  -- other bot's ledger changes.
  pub liquidate-Flattens :
      (broker : Handle) (bot : String) (l : Ledger) (prices : Dict ℤ) (k : KillSwitch Handle)
      → FillsAll submit
      → bot == "" ≡ false
      → k.coordinator.default_broker ≡ some broker
      → get k.coordinator.ledgers bot ≡ some l
      → ArePositions l.open_positions
      → Flattens bot []
          (sell_orders broker (λ _. true) l.open_positions)
          k
          (execute_verb submit halt_and_liquidate (some bot) prices k)
  unfolding execute_verb run_verb liquidate_and_halt
  liquidate-Flattens broker bot l prices k fills n b g v =
      subst
        (λ rest.
          Flattens bot rest (sell_orders broker (λ _. true) l.open_positions) k
            (execute_verb submit halt_and_liquidate (some bot) prices k))
        (all_wanted l.open_positions)
        (sale-Flattens (λ _. true) broker bot l k (k.log ++ (halt_and_liquidate, some bot) ∷ [])
          fills n b g v)

  -- `halt-and-sell-gains` for a bot, with a broker that fills every order in full: the positions left
  -- open are those that have no price or a price not above their cost basis, the others were sold,
  -- the bot is halted, and no other bot's ledger changes.
  sell_gains_keeps_losers :
      (broker : Handle) (bot : String) (l : Ledger) (prices : Dict ℤ) (k : KillSwitch Handle)
      → FillsAll submit
      → bot == "" ≡ false
      → k.coordinator.default_broker ≡ some broker
      → get k.coordinator.ledgers bot ≡ some l
      → ArePositions l.open_positions
      → Flattens bot
          (unwanted (is_gain prices) l.open_positions)
          (sell_orders broker (is_gain prices) l.open_positions)
          k
          (execute_verb submit halt_and_sell_gains (some bot) prices k)
  unfolding execute_verb run_verb sell_gains_and_halt
  sell_gains_keeps_losers broker bot l prices k fills n b g v =
      sale-Flattens (is_gain prices) broker bot l k (k.log ++ (halt_and_sell_gains, some bot) ∷ [])
        fills n b g v

  record_sale_risk :
      (bot : String) (p : Position) (r : OrderResult) (l : Ledger) (c : Coordinator Handle)
      → (record_sale bot p r l c).2.risk_manager ≡ c.risk_manager
  unfolding record_sale
  record_sale_risk bot p r l c = ground arith

  sell_position_risk :
      (bot : String) (p : Position) (l : Ledger) (c : Coordinator Handle)
      → (sell_position submit bot p l c).2.risk_manager ≡ c.risk_manager
  unfolding sell_position
  sell_position_risk bot p l c = elim (Option-cases c.default_broker) [
    | inl missing ↦ ground arith
    | inr (broker, b) ↦ elim (Option-cases (submit c.orders broker (sell_order p))) [
      | inl failed ↦ ground arith
      | inr (r, a) ↦
          let sent = record c { orders = c.orders ++ (broker, sell_order p) ∷ [] } in
          ground (arith, record_sale_risk bot p r l sent)
    ]
  ]

  sell_positions_risk :
      (wanted : Position → Bool) (bot : String) (ps : List Position) (l : Ledger)
      (c : Coordinator Handle)
      → (sell_positions submit wanted bot ps l c).2.risk_manager ≡ c.risk_manager
  unfolding sell_positions
  sell_positions_risk wanted bot [] l c = refl
  sell_positions_risk wanted bot (p ∷ ps) l c = ground (
    arith,
    sell_position_risk bot p l c,
    sell_positions_risk wanted bot ps l c,
    sell_positions_risk wanted bot ps (sell_position submit bot p l c).1
        (sell_position submit bot p l c).2,
  )

  sell_ledgers_risk :
      (wanted : Position → Bool) (ls : Dict Ledger) (c : Coordinator Handle)
      → (sell_ledgers submit wanted ls c).1.risk_manager ≡ c.risk_manager
  unfolding sell_ledgers
  sell_ledgers_risk wanted [] c = refl
  sell_ledgers_risk wanted ((bot, l) ∷ ls) c =
      let o = sell_positions submit wanted bot l.open_positions l c in
      ground (
        arith,
        sell_positions_risk wanted bot l.open_positions l c,
        sell_ledgers_risk wanted ls o.2,
      )

  then_halt_risk :
      (bot : Option String) (m : RiskManager) (o : Option KillError × Coordinator Handle)
      → o.1.risk_manager ≡ m
      → (then_halt bot o).1.risk_manager
        ≡ elim (then_halt bot o).0 [ none ↦ halt_target bot m | some _ ↦ m ]
  unfolding then_halt halt
  then_halt_risk bot m (none, c) h = ap (halt_target bot) h
  then_halt_risk bot m (some e, c) h = h

  execute_verb_target :
      (verb : KillSwitchVerb) (bot : Option String) (prices : Dict ℤ) (k : KillSwitch Handle)
      → (execute_verb submit verb bot prices k).1.coordinator.risk_manager
        ≡ elim (execute_verb submit verb bot prices k).0 [
          | none ↦ halt_target bot k.coordinator.risk_manager
          | some _ ↦ k.coordinator.risk_manager
        ]
  unfolding execute_verb run_verb liquidate_and_halt sell_gains_and_halt halt
  execute_verb_target halt_and_stop bot prices k = refl
  execute_verb_target halt_and_liquidate bot prices k =
      let ls = target_ledgers bot k.coordinator in
      then_halt_risk bot k.coordinator.risk_manager
        (sell_ledgers submit (λ _. true) ls k.coordinator)
        (sell_ledgers_risk (λ _. true) ls k.coordinator)
  execute_verb_target halt_and_sell_gains bot prices k =
      let ls = target_ledgers bot k.coordinator in
      then_halt_risk bot k.coordinator.risk_manager
        (sell_ledgers submit (is_gain prices) ls k.coordinator)
        (sell_ledgers_risk (is_gain prices) ls k.coordinator)

  -- Every verb, with the name of a bot or for the desk: where no sale raises, it halts the bot of that
  -- name, or the desk where there is no name or an empty one, and lifts and adds no other halt; an
  -- exception of the broker or of a ledger leaves all halts as they were.
  pub execute_verb_halts :
      (verb : KillSwitchVerb) (bot : Option String) (prices : Dict ℤ) (k : KillSwitch Handle)
      → let (e, k') = execute_verb submit verb bot prices k in
        HaltsAfter e bot k.coordinator.risk_manager k'.coordinator.risk_manager
  execute_verb_halts verb bot prices k =
      halt_target-HaltsAfter (execute_verb submit verb bot prices k).0 bot
        k.coordinator.risk_manager _ (execute_verb_target verb bot prices k)
