-- ===== src/MarketData/Store.antt =====
-- marketdata_store/store.py. Times are whole seconds; an hour and a minute of it are numbers where the
-- program has texts of digits. The expiry of rows is left out.
use trading_strands.Prelude.{
  ℕ, zero, suc, ◌+◌, ◌*◌, ◌/◌, ◌%◌, String, Bool, List, [], ◌∷◌, ◌++◌, ◌==◌, ◌&&◌, not, leb, eqb,
  length, if◌then◌else◌,
}
use trading_strands.Prelude.Int.{ℤ, pos, ◌+ℤ◌, ltb_ℤ}

pub record MarketBar : Type 0 where
  pub timestamp : ℕ
  pub symbol : String
  pub price : ℤ
  pub volume : ℤ

-- `(symbol, yyyymmddhh, mm)`
pub record MinuteKey : Type 0 where
  pub symbol : String
  pub bucket : ℕ
  pub minute : ℕ

-- a bar as it is written
pub record MinuteBar : Type 0 where
  pub open_price : ℤ
  pub high : ℤ
  pub low : ℤ
  pub close : ℤ
  pub volume : ℤ
  pub samples : ℕ
  pub first_ts : ℕ
  pub last_ts : ℕ

-- observations that are not written yet, and the bars of the table
pub record MarketDataStore : Type 0 where
  pub buffer : List (MinuteKey × List MarketBar)
  pub minute_bars : List (MinuteKey × MinuteBar)

unfoldable pub hour_bucket : ℕ → ℕ
hour_bucket t = t / 3600

unfoldable pub key_of : MarketBar → MinuteKey
unfolding hour_bucket
key_of b = record {
  symbol = b.symbol;
  bucket = hour_bucket b.timestamp;
  minute = b.timestamp % 3600 / 60;
}

abbrev pub same_key : MinuteKey → MinuteKey → Bool
same_key j k = j.symbol == k.symbol && (eqb j.bucket k.bucket && eqb j.minute k.minute)

-- `setdefault(key, []).append(bar)`
unfoldable pub append_bar :
    List (MinuteKey × List MarketBar) → MinuteKey → MarketBar → List (MinuteKey × List MarketBar)
append_bar [] k b = (k, b ∷ []) ∷ []
append_bar ((j, bs) ∷ buffer) k b =
    let rest = append_bar buffer k b in
    if same_key j k then (j, bs ++ b ∷ []) ∷ buffer else (j, bs) ∷ rest

-- `max` and `min` of the prices, from one on
unfoldable pub highest : ℤ → List MarketBar → ℤ
highest p [] = p
highest p (b ∷ bs) = highest (if ltb_ℤ p b.price then b.price else p) bs

unfoldable pub lowest : ℤ → List MarketBar → ℤ
lowest p [] = p
lowest p (b ∷ bs) = lowest (if ltb_ℤ b.price p then b.price else p) bs

unfoldable pub total_volume : ℤ → List MarketBar → ℤ
total_volume v [] = v
total_volume v (b ∷ bs) = total_volume (v +ℤ b.volume) bs

unfoldable pub last_of : MarketBar → List MarketBar → MarketBar
last_of b [] = b
last_of b (c ∷ cs) = last_of c cs

-- the bar of a first observation and those after it
unfoldable pub bar_of : MarketBar → List MarketBar → MinuteBar
unfolding highest lowest total_volume last_of
bar_of b bs = record {
  open_price = b.price;
  high = highest b.price bs;
  low = lowest b.price bs;
  close = (last_of b bs).price;
  volume = total_volume (pos 0) (b ∷ bs);
  samples = suc (length bs);
  first_ts = b.timestamp;
  last_ts = (last_of b bs).timestamp;
}

-- `SET minute_bars.#m = :bar`
unfoldable pub set_bar :
    List (MinuteKey × MinuteBar) → MinuteKey → MinuteBar → List (MinuteKey × MinuteBar)
set_bar [] k b = (k, b) ∷ []
set_bar ((j, a) ∷ bars) k b =
    let rest = set_bar bars k b in if same_key j k then (j, b) ∷ bars else (j, a) ∷ rest

-- `_flush_one`, once the observations have left the buffer
unfoldable pub write_minute :
    MinuteKey → List MarketBar → List (MinuteKey × MinuteBar) → List (MinuteKey × MinuteBar)
unfolding bar_of set_bar
write_minute k [] bars = bars
write_minute k (b ∷ bs) bars = set_bar bars k (bar_of b bs)

-- the minutes of the symbol other than the current one
abbrev pub is_completed : MinuteKey → MinuteKey → Bool
is_completed k j = j.symbol == k.symbol && not (same_key j k)

unfoldable pub completed :
    MinuteKey → List (MinuteKey × List MarketBar) → List (MinuteKey × List MarketBar)
completed k [] = []
completed k ((j, bs) ∷ buffer) =
    let rest = completed k buffer in if is_completed k j then (j, bs) ∷ rest else rest

unfoldable pub remaining :
    MinuteKey → List (MinuteKey × List MarketBar) → List (MinuteKey × List MarketBar)
remaining k [] = []
remaining k ((j, bs) ∷ buffer) =
    let rest = remaining k buffer in if is_completed k j then rest else (j, bs) ∷ rest

unfoldable pub flush_all :
    List (MinuteKey × List MarketBar) → List (MinuteKey × MinuteBar) → List (MinuteKey × MinuteBar)
unfolding write_minute
flush_all [] bars = bars
flush_all ((k, bs) ∷ buffer) bars = flush_all buffer (write_minute k bs bars)

-- `_flush_completed_minutes`
unfoldable pub flush_completed : MinuteKey → MarketDataStore → MarketDataStore
unfolding flush_all completed remaining
flush_completed k s = record {
  buffer = remaining k s.buffer;
  minute_bars = flush_all (completed k s.buffer) s.minute_bars;
}

unfoldable pub record_tick : MarketDataStore → MarketBar → MarketDataStore
unfolding key_of append_bar flush_completed
record_tick s b =
    flush_completed (key_of b) (record s { buffer = append_bar s.buffer (key_of b) b })

unfoldable pub flush : MarketDataStore → MarketDataStore
unfolding flush_all
flush s = record { buffer = []; minute_bars = flush_all s.buffer s.minute_bars }

-- the bars of an hour of a symbol
unfoldable pub in_hour : String → ℕ → List (MinuteKey × MinuteBar) → List MinuteBar
in_hour symbol bucket [] = []
in_hour symbol bucket ((k, b) ∷ bars) =
    let rest = in_hour symbol bucket bars in
    if k.symbol == symbol && eqb k.bucket bucket then b ∷ rest else rest

unfoldable pub get_hour : MarketDataStore → String → ℕ → List MinuteBar
unfolding in_hour
get_hour s symbol bucket = in_hour symbol bucket s.minute_bars

unfoldable pub within : ℕ → ℕ → List MinuteBar → List (ℕ × MinuteBar)
within start_ts end_ts [] = []
within start_ts end_ts (b ∷ bars) =
    let rest = within start_ts end_ts bars in
    if leb start_ts b.last_ts && leb b.last_ts end_ts then (b.last_ts, b) ∷ rest else rest

-- the loop over the hours, as many as are given
unfoldable pub hours_from : MarketDataStore → String → ℕ → ℕ → ℕ → ℕ → List (ℕ × MinuteBar)
unfolding get_hour within hour_bucket
hours_from s symbol start_ts end_ts h zero = []
hours_from s symbol start_ts end_ts h (suc hours) =
    let rest = hours_from s symbol start_ts end_ts (h + 3600) hours in
    if leb h end_ts then within start_ts end_ts (get_hour s symbol (hour_bucket h)) ++ rest else []

-- `out.sort(key=...)`, stable
unfoldable pub insert_bar : ℕ × MinuteBar → List (ℕ × MinuteBar) → List (ℕ × MinuteBar)
insert_bar x [] = x ∷ []
insert_bar x (y ∷ ys) = let rest = insert_bar x ys in if leb x.0 y.0 then x ∷ y ∷ ys else y ∷ rest

unfoldable pub sort_bars : List (ℕ × MinuteBar) → List (ℕ × MinuteBar)
unfolding insert_bar
sort_bars [] = []
sort_bars (x ∷ xs) = insert_bar x (sort_bars xs)

-- the loop runs over the hours from that of the start to that of the end, if there are any
unfoldable pub get_range : MarketDataStore → String → ℕ → ℕ → List (ℕ × MinuteBar)
unfolding hours_from sort_bars
get_range s symbol start_ts end_ts =
    sort_bars (hours_from s symbol start_ts end_ts (start_ts / 3600 * 3600) (suc (end_ts / 3600)))
