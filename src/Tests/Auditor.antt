-- ===== src/Tests/Auditor.antt =====
-- Tests of the auditor: auditor/reconciler.py.
use trading_strands.Prelude.{String, ◌≡◌, refl, ◌↔◌, true, false, List, [], ◌∷◌}
use trading_strands.Prelude.Int.{pos, ◌+ℤ◌}
use trading_strands.Prelude.Dict.{Dict, get, put}
use trading_strands.Ledger.Model.{Ledger, new_ledger}
use trading_strands.Coordinator.Types.{BrokerPosition}
use trading_strands.Auditor.Reconciler.{
  is_pass, reconcile_positions, ledger_totals, broker_totals, mismatches, union, keys, sort_texts,
  insert_text,
}
use trading_strands.Auditor.Totals.{ledgers_hold, broker_holds, reconcile_positions_iff}
use trading_strands.Tests.Ledger.{fresh}

abbrev holding : Ledger
holding = record fresh {
  open_positions = record { symbol = "SPY"; quantity = pos 4; burdened_cost_basis = pos 500 } ∷ [];
}

abbrev ledgers : Dict Ledger
ledgers = ("one", holding) ∷ ("two", holding) ∷ []

abbrev at_broker : List BrokerPosition
at_broker =
    record { symbol = "SPY"; quantity = pos 8; market_value = pos 4000; current_price = pos 500 }
    ∷ []

-- Two bots of four each make the eight of the account; without the second they do not.
checked :
    (is_pass (reconcile_positions ledgers at_broker).status ≡ true)
    × (is_pass (reconcile_positions (("one", holding) ∷ []) at_broker).status ≡ false)
unfolding reconcile_positions ledger_totals broker_totals mismatches union keys sort_texts
    insert_text get put new_ledger ◌+ℤ◌
checked = (refl, refl)

reconcile_positions_iff_example :
    (is_pass (reconcile_positions ledgers at_broker).status ≡ true)
    ↔ ((s : String) → ledgers_hold ledgers s ≡ broker_holds at_broker s)
reconcile_positions_iff_example = reconcile_positions_iff ledgers at_broker
