-- ===== src/Tests/MarketData.antt =====
-- Tests of the market data: marketdata_store/store.py and marketdata/store_provider.py.
use trading_strands.Prelude.{
  false, ℕ, String, ◌≡◌, ◌==◌, refl, Option, none, some, [], ◌∷◌, if◌then◌else◌,
}
use trading_strands.Prelude.Int.{ℤ, pos, ◌+ℤ◌}
use trading_strands.MarketData.Store.{
  MarketBar, MarketDataStore, record_tick, key_of, hour_bucket, append_bar, completed, remaining,
  flush_all, flush_completed, write_minute, set_bar, bar_of, highest, lowest, total_volume, last_of,
  get_hour, in_hour,
}
use trading_strands.MarketData.Provider.{
  fresh_close, Reads, newest, recent_bars, read_fresh, get_prices,
}
use trading_strands.MarketData.Batch.{IsBatch, get-get_prices}

abbrev observed : ℕ → ℤ → MarketBar
observed t p = record { timestamp = t; symbol = "SPY"; price = p; volume = pos 1 }

abbrev no_data : MarketDataStore
no_data = record { buffer = []; minute_bars = [] }

-- The minute is written when the next one begins.
abbrev store : MarketDataStore
store =
    record_tick
      (record_tick (record_tick no_data (observed 7205 (pos 500))) (observed 7230 (pos 510)))
      (observed 7261 (pos 505))

abbrev sound : Reads
sound = record { fails = λ s h. s == "DOWN"; unreadable = λ b. false }

fresh_price : read_fresh sound store 120 7270 "SPY" ≡ some (some (pos 510))
unfolding fresh_close read_fresh recent_bars newest get_hour in_hour record_tick key_of hour_bucket
    append_bar completed remaining flush_all flush_completed write_minute set_bar bar_of highest
    lowest total_volume last_of ◌+ℤ◌
fresh_price = refl

abbrev at_broker : String → Option ℤ
at_broker s = if s == "QQQ" then some (pos 400) else none

get-get_prices_example :
    IsBatch sound store 120 7270 at_broker
      ("SPY" ∷ "XSP" ∷ "QQQ" ∷ [])
      "QQQ"
      (get_prices sound store 120 7270 at_broker ("SPY" ∷ "XSP" ∷ "QQQ" ∷ []))
get-get_prices_example =
    get-get_prices sound store 120 7270 at_broker ("SPY" ∷ "XSP" ∷ "QQQ" ∷ []) "QQQ"
