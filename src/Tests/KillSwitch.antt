-- ===== src/Tests/KillSwitch.antt =====
-- Tests of the kill switch: risk/killswitch.py. The broker fills every order in full.
use trading_strands.Prelude.{
  if◌then◌else◌, String, ◌≡◌, refl, arith, true, none, some, List, [], ◌∷◌,
}
use trading_strands.Prelude.Int.{eqb_ℤ, ℤ, pos, ◌+ℤ◌, ◌-ℤ◌, ◌*ℤ◌}
use trading_strands.Prelude.Dict.{Dict, get}
use trading_strands.Decimal.{whole_units, quot_ℤ}
use trading_strands.Ledger.Model.{Ledger, Position, find_position, record_fill}
use trading_strands.Coordinator.Types.{filled}
use trading_strands.KillSwitch.{
  submit_error, sell_order, sell_fill, run_verb, liquidate_and_halt, sell_ledgers, target_ledgers,
  named_bot, sell_positions, sell_position, record_sale, KillSwitch, Submit, halt_and_liquidate,
  execute_verb,
}
use trading_strands.KillSwitch.Liquidation.{FillsAll, sell_orders}
use trading_strands.KillSwitch.Isolation.{execute_verb_others}
use trading_strands.KillSwitch.Verbs.{HaltsAfter, Flattens, liquidate-Flattens, execute_verb_halts}
use trading_strands.Tests.Ledger.{fresh, no_fees}
use trading_strands.Tests.Coordinator.{desk}

abbrev pair : List Position
pair =
    record { symbol = "SPY"; quantity = pos 4; burdened_cost_basis = pos 500 }
    ∷ record { symbol = "QQQ"; quantity = pos 2; burdened_cost_basis = pos 400 }
    ∷ []

abbrev holding : Ledger
holding = record fresh { open_positions = pair }

abbrev full : Submit String
full sent broker o = some (record {
  order_id = "1";
  status = filled;
  filled_quantity = o.quantity;
  filled_price = pos 450;
  fees = no_fees;
  reject_reason = none;
})

full-FillsAll : FillsAll full
unfolding FillsAll
full-FillsAll sent broker o = (_, refl, refl)

abbrev switch : KillSwitch String
switch = record {
  coordinator = record desk { ledgers = ("bot", holding) ∷ []; default_broker = some "platform" };
  log = [];
}

abbrev prices : Dict ℤ
prices = ("SPY", pos 510) ∷ ("QQQ", pos 390) ∷ []

liquidate-Flattens_example :
    Flattens "bot" []
      (sell_orders "platform" (λ _. true) pair)
      switch
      (execute_verb ⦃D = whole_units⦄ full halt_and_liquidate (some "bot") prices switch)
unfolding get find_position
liquidate-Flattens_example =
    liquidate-Flattens ⦃D = whole_units⦄ full "platform" "bot" holding prices switch full-FillsAll
      refl refl refl (omega arith, refl, (omega arith, refl, tt))

execute_verb_halts_example :
    let (e, k') =
      execute_verb ⦃D = whole_units⦄ full halt_and_liquidate (some "bot") prices switch in
    HaltsAfter e (some "bot") switch.coordinator.risk_manager k'.coordinator.risk_manager
execute_verb_halts_example =
    execute_verb_halts ⦃D = whole_units⦄ full halt_and_liquidate (some "bot") prices switch

-- A broker that fills half of an order of four, and raises at any other.
abbrev halting : Submit String
halting sent broker o =
    if eqb_ℤ o.quantity (pos 4) then full sent broker (record o { quantity = pos 2 }) else none

abbrev two_bots : KillSwitch String
two_bots = record switch {
  coordinator = record desk {
    ledgers = ("bot", holding) ∷ ("other", holding) ∷ [];
    default_broker = some "platform";
  };
}

-- The first sale is booked in part, the second raises, and the bot is not halted.
after_raise :
    let (e, k) =
      execute_verb ⦃D = whole_units⦄ halting halt_and_liquidate (some "bot") prices two_bots in
    (e ≡ some submit_error) × (k.coordinator.risk_manager ≡ two_bots.coordinator.risk_manager)
unfolding execute_verb run_verb liquidate_and_halt sell_ledgers target_ledgers named_bot get
    sell_positions sell_position sell_order record_sale sell_fill record_fill find_position ◌+ℤ◌
    ◌-ℤ◌ ◌*ℤ◌ quot_ℤ
after_raise = (refl, refl)

execute_verb_others_example :
    get
      (execute_verb ⦃D = whole_units⦄ halting halt_and_liquidate
        (some "bot")
        prices
        two_bots).1.coordinator.ledgers
      "other"
    ≡ get two_bots.coordinator.ledgers "other"
execute_verb_others_example =
    execute_verb_others ⦃D = whole_units⦄ halting "bot" "other" refl halt_and_liquidate prices
      two_bots refl
