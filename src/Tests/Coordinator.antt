-- ===== src/Tests/Coordinator.antt =====
-- Tests of the coordinator: coordinator/coordinator.py. A broker is named by its organisation.
use trading_strands.Prelude.{String, ◌≡◌, ◌⊎◌, false, none, some, [], ◌∷◌, arith}
use trading_strands.Prelude.Int.{pos}
use trading_strands.Prelude.Dict.{get}
use trading_strands.Decimal.{whole_units}
use trading_strands.Coordinator.Types.{buy, is_idle, OrderResult, filled}
use trading_strands.Coordinator.Model.{running, Services, Coordinator, execute, halt_answer, price}
use trading_strands.Coordinator.Isolation.{OwnsCache, HonestFactory, Sent}
use trading_strands.Coordinator.Routing.{is_stopped, execute_routes}
use trading_strands.Coordinator.Booking.{Answered, AreValid, execute_books}
use trading_strands.Tests.Ledger.{fresh, no_fees, fresh-IsValid}
use trading_strands.Tests.Risk.{manager, intent}

abbrev pub answer : OrderResult
answer = record {
  order_id = "1";
  status = filled;
  filled_quantity = pos 5;
  filled_price = pos 500;
  fees = no_fees;
  reject_reason = none;
}

abbrev pub services : Services String
services = record {
  factory = λ o. some o;
  quote = λ h s. price (pos 500);
  submit = λ h o. some answer;
  halt_store = some (λ o. running);
  faults = record { event_fails = false; snapshot_fails = false; ts = 7; suffix = "a1b2c3" };
}

abbrev pub desk : Coordinator String
desk = record {
  broker_cache = [];
  risk_manager = manager;
  ledgers = ("bot", fresh) ∷ ("other", fresh) ∷ [];
  default_broker = none;
  ledger_store = none;
  orders = [];
}

name : String → String
name s = s

honest : HonestFactory name services
unfolding name
honest o h e = ground arith

empty_cache : OwnsCache name desk
unfolding get
empty_cache o h e = cc

execute_routes_example :
    let c' = (execute ⦃D = whole_units⦄ services (intent buy (pos 5)) desk).1 in
    OwnsCache name c'
    × ((c'.orders ≡ [])
        ⊎ ((is_idle buy ≡ false)
            × (is_stopped (halt_answer services.halt_store "acme") ≡ false)
            × ((e : Sent ⦃D = whole_units⦄ services (intent buy (pos 5)) desk c') × (name e.broker
                  ≡ "acme"))))
execute_routes_example =
    execute_routes ⦃D = whole_units⦄ name services (intent buy (pos 5)) desk honest empty_cache

execute_books_example :
    let c' = (execute ⦃D = whole_units⦄ services (intent buy (pos 5)) desk).1 in
    ((c'.orders ≡ desk.orders) × (c'.ledgers ≡ desk.ledgers))
    ⊎ Answered ⦃D = whole_units⦄ services (intent buy (pos 5)) desk c'
execute_books_example = execute_books ⦃D = whole_units⦄ services (intent buy (pos 5)) desk

pub desk-AreValid : AreValid desk
unfolding get
desk-AreValid b l e = ground (arith, fresh-IsValid)
