-- ===== src/MarketData/Provider.antt =====
-- marketdata/provider.py and marketdata/store_provider.py. What the broker answers for a symbol is an
-- argument; a store that has no price for a symbol, or none that is fresh, is passed over, and an exception of its read
-- is not caught.
use trading_strands.Prelude.{
  ℕ, ◌-◌, String, Bool, Option, none, some, List, [], ◌∷◌, ◌++◌, ltb, if◌then◌else◌,
}
use trading_strands.Prelude.Int.{ℤ}
use trading_strands.Prelude.Dict.{Dict, put}
use trading_strands.MarketData.Store.{MinuteBar, MarketDataStore, hour_bucket, get_hour}

-- `get_prices` of the provider on a broker alone; `None` is an exception or a quote without a price
unfoldable pub prices_from : (String → Option ℤ) → Dict ℤ → List String → Dict ℤ
prices_from quote prices [] = prices
prices_from quote prices (s ∷ ss) = elim (quote s) [
  | none ↦ prices_from quote prices ss
  | some p ↦ prices_from quote (put prices s p) ss
]

-- the bar with the newest time above the one so far
unfoldable pub newest : ℕ → Option MinuteBar → List MinuteBar → Option MinuteBar
newest best_ts best [] = best
newest best_ts best (b ∷ bars) =
    let kept = newest best_ts best bars in
    let taken = newest b.last_ts (some b) bars in if ltb best_ts b.last_ts then taken else kept

-- What the code outside does for the store: `fails` says for a symbol and an hour that the read of the
-- table raises, and `unreadable` that `Decimal` raises on the close of a bar.
pub record Reads : Type 0 where
  pub fails : String → ℕ → Bool
  pub unreadable : MinuteBar → Bool

-- the bars of this hour, or of the one before; `None` is an exception
unfoldable pub recent_bars : Reads → MarketDataStore → ℕ → String → Option (List MinuteBar)
unfolding get_hour hour_bucket
recent_bars reads s now symbol =
    let previous = hour_bucket (now - 3600) in
    if reads.fails symbol (hour_bucket now)
    then none
    else elim (get_hour s symbol (hour_bucket now)) [
      | [] ↦ if reads.fails symbol previous then none else some (get_hour s symbol previous)
      | b ∷ bars ↦ some (b ∷ bars)
    ]

-- `_read_fresh_from_store`, on the bars: an exception, no fresh price, or a price
unfoldable pub fresh_close : Reads → ℕ → ℕ → Option MinuteBar → Option (Option ℤ)
fresh_close reads staleness now none = some none
fresh_close reads staleness now (some b) =
    if ltb staleness (now - b.last_ts)
    then some none
    else if reads.unreadable b
    then none
    else some (some b.close)

-- `_read_fresh_from_store`; `None` is an exception
unfoldable pub read_fresh : Reads → MarketDataStore → ℕ → ℕ → String → Option (Option ℤ)
unfolding newest recent_bars fresh_close
read_fresh reads s staleness now symbol = elim (recent_bars reads s now symbol) [
  | none ↦ none
  | some bars ↦ fresh_close reads staleness now (newest 0 none bars)
]

-- `get_price`; `None` is an exception
unfoldable pub get_price : Reads → MarketDataStore → ℕ → ℕ → (String → Option ℤ) → String → Option ℤ
unfolding read_fresh
get_price reads s staleness now quote symbol = elim (read_fresh reads s staleness now symbol) [
  | none ↦ none
  | some cached ↦ elim cached [ none ↦ quote symbol | some p ↦ some p ]
]

-- the first loop of `get_prices`: the prices of the store, and the symbols without one; an exception
-- of a read leaves it
unfoldable pub from_store :
    Reads
    → MarketDataStore
    → ℕ
    → ℕ
    → Dict ℤ
    → List String
    → List String
    → Option (Dict ℤ × List String)
unfolding read_fresh
from_store reads s staleness now prices misses [] = some (prices, misses)
from_store reads s staleness now prices misses (sym ∷ syms) =
    elim (read_fresh reads s staleness now sym) [
      | none ↦ none
      | some cached ↦ elim cached [
        | none ↦ from_store reads s staleness now prices (misses ++ sym ∷ []) syms
        | some p ↦ from_store reads s staleness now (put prices sym p) misses syms
      ]
    ]

-- `None` is an exception
unfoldable pub get_prices :
    Reads → MarketDataStore → ℕ → ℕ → (String → Option ℤ) → List String → Option (Dict ℤ)
unfolding from_store prices_from
get_prices reads s staleness now quote symbols =
    elim (from_store reads s staleness now [] [] symbols) [
      | none ↦ none
      | some found ↦ some (prices_from quote found.0 found.1)
    ]
