-- ===== src/Quota/Limits.antt =====
-- How many calls a quota lets through.
use trading_strands.Prelude.{
  ℕ, suc, ◌-◌, ◌==◌, ◌&&◌, String, ◌≡◌, ap, Bool, true, not, Option, none, List, [], ◌∷◌, All,
  arith, if◌then◌else◌, or_else, leb, Bool-cases, inl, inr, eq_iff, eq_refl, is_some, ltb,
}
use trading_strands.Prelude.Int.{ℤ, pos, negsuc, ltb_ℤ}
use trading_strands.Prelude.Dict.{Dict, get, put, get-put}
use trading_strands.Decimal.{zero_ℤ}
use trading_strands.Quota.{
  QuotaRow, QuotaTable, QuotaExceeded, get_row, put_row, count_of, add_one, consumed_today, consume,
  reserve, record_cache_hit,
}

get_row-put_row :
    (t : QuotaTable) (s d s' d' : String) (row : QuotaRow)
    → get_row (put_row t s d row) s' d' ≡ (if s == s' && d == d' then row else get_row t s' d')
unfolding get_row put_row
get_row-put_row t s d s' d' row = ground (
  arith,
  get-put t s s' (put (or_else (get t s) []) d row),
  get-put (or_else (get t s) []) d d' row,
  eq_iff s s',
)

count_of-add_one :
    (c : Dict ℕ) (k j : String)
    → count_of (add_one c k) j ≡ (if k == j then suc (count_of c j) else count_of c j)
unfolding count_of add_one
count_of-add_one c k j = ground (arith, get-put c k j (suc (count_of c k)), eq_iff k j)

-- A call of a tool, answered from the cache or not.
pub record Call : Type 0 where
  pub strategy_id : String
  pub tool_name : String
  pub limit : ℤ
  pub date : String
  pub cached : Bool

-- a call of the tool that no cache answers, by the strategy on the day
abbrev pub asks : String → String → String → Call → Bool
asks s k d c = not c.cached && (c.strategy_id == s && (c.tool_name == k && c.date == d))

unfoldable pub perform : QuotaTable → Call → Option QuotaExceeded × QuotaTable
perform t c =
    if c.cached
    then (none, record_cache_hit t c.strategy_id c.tool_name c.date)
    else reserve t c.strategy_id c.tool_name c.limit c.date

consumed_today-consume :
    (t : QuotaTable) (s k d s' k' d' : String)
    → consumed_today (consume t s k d) s' k' d' ≡ (
        if s == s' && (k == k' && d == d')
        then suc (consumed_today t s' k' d')
        else consumed_today t s' k' d')
unfolding consumed_today consume
consumed_today-consume t s k d s' k' d' = ground (
  arith,
  get_row-put_row t s d s' d'
      (record (get_row t s d) { consumed = add_one (get_row t s d).consumed k }),
  count_of-add_one (get_row t s d).consumed k k',
  eq_iff s s',
  eq_iff d d',
  eq_iff k k',
)

consumed_today-record_cache_hit :
    (t : QuotaTable) (s k d s' k' d' : String)
    → consumed_today (record_cache_hit t s k d) s' k' d' ≡ consumed_today t s' k' d'
unfolding consumed_today record_cache_hit
consumed_today-record_cache_hit t s k d s' k' d' = ground (
  arith,
  get_row-put_row t s d s' d'
      (record (get_row t s d) { cache_hits = add_one (get_row t s d).cache_hits k }),
  eq_iff s s',
  eq_iff d d',
)

-- the calls that a limit allows
abbrev pub allowance : ℤ → ℕ
allowance (pos n) = n
allowance (negsuc n) = 0

consumed_today-perform :
    (t : QuotaTable) (c : Call) (s k d : String)
    → consumed_today (perform t c).1 s k d ≡ (
        if asks s k d c && ltb_ℤ zero_ℤ c.limit
        then suc (consumed_today t s k d)
        else consumed_today t s k d)
unfolding perform reserve
consumed_today-perform t c s k d = ground (
  arith,
  consumed_today-record_cache_hit t c.strategy_id c.tool_name c.date s k d,
  consumed_today-consume t c.strategy_id c.tool_name c.date s k d,
)

perform-asks :
    (t : QuotaTable) (c : Call) (s k d : String)
    → asks s k d c ≡ true
    → is_some (perform t c).0 ≡ not (ltb (consumed_today t s k d) (allowance c.limit))
unfolding perform reserve
perform-asks t c s k d h =
    let same : consumed_today t c.strategy_id c.tool_name c.date ≡ consumed_today t s k d =
      ground (arith, h, eq_iff c.strategy_id s, eq_iff c.tool_name k, eq_iff c.date d) in
    ground (
      arith,
      h,
      same,
      consumed_today-consume t c.strategy_id c.tool_name c.date c.strategy_id c.tool_name c.date,
      eq_refl c.strategy_id,
      eq_refl c.tool_name,
      eq_refl c.date,
    )

-- The calls that the tool's strategy asks for on the day, and those of them that are let through.
unfoldable pub asked : String → String → String → List Call → ℕ
asked s k d [] = 0
asked s k d (c ∷ cs) = let rest = asked s k d cs in if asks s k d c then suc rest else rest

unfoldable pub let_through : String → String → String → QuotaTable → List Call → ℕ
let_through s k d t [] = 0
let_through s k d t (c ∷ cs) =
    let rest = let_through s k d (perform t c).1 cs in
    if asks s k d c && not (is_some (perform t c).0) then suc rest else rest

abbrev pub min : ℕ → ℕ → ℕ
min a b = if leb a b then a else b

-- However the calls of all strategies, tools and days come in between, cached ones included: if every call
-- that a strategy asks of a tool on a day has the same limit, then the number of those that are let
-- through is the smaller of the number asked for and of what the limit leaves beyond the count
-- at the start.
pub let_through-min :
    (s k d : String) (limit : ℤ) (t : QuotaTable) (cs : List Call)
    → All (λ c. asks s k d c ≡ true → c.limit ≡ limit) cs
    → let_through s k d t cs ≡ min (asked s k d cs) (allowance limit - consumed_today t s k d)
unfolding let_through asked
let_through-min s k d limit t [] h = ground arith
let_through-min s k d limit t (c ∷ cs) (h, hs) =
    let rest = let_through-min s k d limit (perform t c).1 cs hs in
    let n = consumed_today-perform t c s k d in
    elim (Bool-cases (asks s k d c)) [
      | inr other ↦ ground (arith, rest, n)
      | inl mine ↦ ground (
        arith,
        rest,
        n,
        perform-asks t c s k d mine,
        ap allowance (h mine),
        ap (ltb_ℤ zero_ℤ) (h mine),
      )
    ]
