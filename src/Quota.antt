-- ===== src/Quota.antt =====
-- The daily quotas of the tools: tool_quota/store.py. A row is kept under the strategy and the day that
-- its key is made of, and a counter under its tool; times are left out.
pub mod Limits
use trading_strands.Prelude.{
  ℕ, zero, suc, String, Bool, true, false, Option, none, some, [], if◌then◌else◌, or_else,
}
use trading_strands.Prelude.Int.{ℤ, pos, ltb_ℤ}
use trading_strands.Prelude.Dict.{Dict, get, put}
use trading_strands.Decimal.{zero_ℤ}

pub record QuotaRow : Type 0 where
  pub consumed : Dict ℕ
  pub cache_hits : Dict ℕ

-- by strategy, then by day
abbrev pub QuotaTable : Type 0
QuotaTable = Dict (Dict QuotaRow)

pub record QuotaExceeded : Type 0 where
  pub consumed : ℕ
  pub limit : ℤ

abbrev pub empty_row : QuotaRow
empty_row = record { consumed = []; cache_hits = [] }

-- `get_item(...).get("Item") or {}`
unfoldable pub get_row : QuotaTable → String → String → QuotaRow
get_row t strategy_id date = or_else (get (or_else (get t strategy_id) []) date) empty_row

unfoldable pub put_row : QuotaTable → String → String → QuotaRow → QuotaTable
put_row t strategy_id date row = put t strategy_id (put (or_else (get t strategy_id) []) date row)

-- `item.get(attribute, 0)`
unfoldable pub count_of : Dict ℕ → String → ℕ
count_of counts tool_name = or_else (get counts tool_name) 0

-- `ADD attribute 1`
unfoldable pub add_one : Dict ℕ → String → Dict ℕ
unfolding count_of
add_one counts tool_name = put counts tool_name (suc (count_of counts tool_name))

unfoldable pub consumed_today : QuotaTable → String → String → String → ℕ
unfolding get_row count_of
consumed_today t strategy_id tool_name date =
    count_of (get_row t strategy_id date).consumed tool_name

unfoldable pub cache_hits_today : QuotaTable → String → String → String → ℕ
unfolding get_row count_of
cache_hits_today t strategy_id tool_name date =
    count_of (get_row t strategy_id date).cache_hits tool_name

-- the update that counts a call
unfoldable pub consume : QuotaTable → String → String → String → QuotaTable
unfolding get_row put_row add_one
consume t strategy_id tool_name date =
    let row = get_row t strategy_id date in
    put_row t strategy_id date (record row { consumed = add_one row.consumed tool_name })

unfoldable pub reserve :
    QuotaTable → String → String → ℤ → String → Option QuotaExceeded × QuotaTable
unfolding consume consumed_today
reserve t strategy_id tool_name limit date =
    let t' = consume t strategy_id tool_name date in
    let new_consumed = consumed_today t' strategy_id tool_name date in
    if ltb_ℤ zero_ℤ limit
    then (if ltb_ℤ limit (pos new_consumed)
        then (some (record { consumed = new_consumed; limit = limit }), t')
        else (none, t'))
    else (some (record { consumed = 0; limit = limit }), t)

unfoldable pub record_cache_hit : QuotaTable → String → String → String → QuotaTable
unfolding get_row put_row add_one
record_cache_hit t strategy_id tool_name date =
    let row = get_row t strategy_id date in
    put_row t strategy_id date (record row { cache_hits = add_one row.cache_hits tool_name })
