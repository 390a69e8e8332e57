-- ===== src/Tests/WhatIf.antt =====
-- Tests of the trades that were passed on: whatif/tracker.py.
use trading_strands.Prelude.{◌≡◌, refl, [], ◌∷◌}
use trading_strands.Prelude.Int.{pos, ◌+ℤ◌, ◌-ℤ◌, ◌*ℤ◌}
use trading_strands.Prelude.Dict.{get}
use trading_strands.Decimal.{whole_units}
use trading_strands.WhatIf.{
  WhatIfTracker, new_tracker, record_passed, init_entry, mark_to_market, mark_entries, mark_entry,
  unrealized_pnl, sum_pnl, summarize, summary,
}

abbrev passed_on : WhatIfTracker
passed_on =
    record_passed (record_passed new_tracker "bot" "SPY" "buy" (pos 2) (pos 500) "") "bot" "QQQ"
      "buy" (pos 1) (pos 400) ""

abbrev marked : WhatIfTracker
marked = mark_to_market passed_on (("SPY", pos 510) ∷ ("QQQ", pos 380) ∷ [])

-- What was gained on one was lost on the other.
evens_out : (summary ⦃D = whole_units⦄ marked).total_unrealized_pnl ≡ pos 0
unfolding summary summarize sum_pnl unrealized_pnl mark_to_market mark_entries mark_entry
    record_passed init_entry get ◌+ℤ◌ ◌-ℤ◌ ◌*ℤ◌
evens_out = refl
