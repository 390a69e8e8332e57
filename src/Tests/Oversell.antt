-- ===== src/Tests/Oversell.antt =====
-- A sale of more than a bot holds, from the intent to the refused fill.
use trading_strands.Prelude.{◌≡◌, refl, arith, some, [], ◌∷◌, ◌++◌}
use trading_strands.Prelude.Int.{pos}
use trading_strands.Prelude.Dict.{get, put}
use trading_strands.Decimal.{whole_units}
use trading_strands.Ledger.Model.{LedgerError, new_ledger, find_position}
use trading_strands.Ledger.Positions.{held}
use trading_strands.LedgerStore.{refused}
use trading_strands.Coordinator.Types.{sell}
use trading_strands.Coordinator.Model.{
  raised, persist_error, execute, intent_to_order, market_prices, broker_for,
}
use trading_strands.Coordinator.Booking.{reported}
use trading_strands.Ledger.Fills.{appended}
use trading_strands.Coordinator.Oversell.{oversell_unrecorded}
use trading_strands.Tests.Ledger.{fresh, fresh-IsValid}
use trading_strands.Tests.Risk.{intent, quotes}
use trading_strands.Tests.Coordinator.{desk, services, answer}

oversell_unrecorded_example :
    let (x, c') = execute ⦃D = whole_units⦄ services (intent sell (pos 5)) desk in
    ((e : LedgerError) × (x ≡ raised (persist_error (refused e))))
    × (c'.orders ≡ [] ++ ("acme", intent_to_order (intent sell (pos 5))) ∷ [])
    × (get c'.ledgers "bot" ≡ some (appended fresh (reported (intent sell (pos 5)) answer)))
unfolding get broker_for market_prices new_ledger find_position put held
oversell_unrecorded_example =
    oversell_unrecorded ⦃D = whole_units⦄ services (intent sell (pos 5)) desk "acme" fresh quotes
      answer refl refl refl refl fresh-IsValid refl refl refl (omega arith)

-- The refused sale is only in the history.
refused_state :
    get (execute ⦃D = whole_units⦄ services (intent sell (pos 5)) desk).1.ledgers "bot"
    ≡ some (appended fresh (reported (intent sell (pos 5)) answer))
unfolding get broker_for market_prices new_ledger find_position put held
refused_state =
    (oversell_unrecorded ⦃D = whole_units⦄ services (intent sell (pos 5)) desk "acme" fresh quotes
      answer refl refl refl refl fresh-IsValid refl refl refl (omega arith)).2
