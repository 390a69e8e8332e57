-- ===== src/Tests/Quota.antt =====
-- Tests of the quotas: tool_quota/store.py.
use trading_strands.Prelude.{◌≡◌, ◌-◌, refl, true, false, List, [], ◌∷◌}
use trading_strands.Prelude.Int.{pos}
use trading_strands.Prelude.Dict.{get}
use trading_strands.Quota.{QuotaTable, consumed_today, get_row, count_of}
use trading_strands.Quota.Limits.{Call, asked, allowance, min, let_through, let_through-min}

-- Two of three calls are let through; the one from the cache and the one of another tool do not count.
abbrev calls : List Call
calls =
    record {
      strategy_id = "s";
      tool_name = "news";
      limit = pos 2;
      date = "2026-01-02";
      cached = false;
    }
    ∷ record {
      strategy_id = "s";
      tool_name = "news";
      limit = pos 2;
      date = "2026-01-02";
      cached = true;
    }
    ∷ record {
      strategy_id = "s";
      tool_name = "social";
      limit = pos 2;
      date = "2026-01-02";
      cached = false;
    }
    ∷ record {
      strategy_id = "s";
      tool_name = "news";
      limit = pos 2;
      date = "2026-01-02";
      cached = false;
    }
    ∷ record {
      strategy_id = "s";
      tool_name = "news";
      limit = pos 2;
      date = "2026-01-02";
      cached = false;
    }
    ∷ []

abbrev no_rows : QuotaTable
no_rows = []

two_pass : let_through "s" "news" "2026-01-02" no_rows calls ≡ 2
unfolding asked consumed_today get_row count_of get
two_pass =
    let_through-min "s" "news" "2026-01-02" (pos 2) no_rows calls
      ((λ h. refl), ((λ h. refl), ((λ h. refl), ((λ h. refl), ((λ h. refl), tt)))))

let_through-min_example :
    let_through "s" "news" "2026-01-02" no_rows calls
    ≡ min
        (asked "s" "news" "2026-01-02" calls)
        (allowance (pos 2) - consumed_today no_rows "s" "news" "2026-01-02")
let_through-min_example =
    let_through-min "s" "news" "2026-01-02" (pos 2) no_rows calls
      ((λ h. refl), ((λ h. refl), ((λ h. refl), ((λ h. refl), ((λ h. refl), tt)))))
