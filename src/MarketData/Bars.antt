-- ===== src/MarketData/Bars.antt =====
-- What the bars of the table say of the observations.
use trading_strands.Prelude.{
  ℕ, zero, suc, ◌+◌, ◌*◌, ◌/◌, ◌≤◌, ◌<◌, String, ◌≡◌, refl, ◌∙◌, ap, false, List, [], ◌∷◌, ◌++◌,
  All, arith, if◌then◌else◌, leb, Bool-cases, inl, inr,
}
use trading_strands.Prelude.Int.{ℤ, ◌≤ℤ◌, ltb_ℤ, ltb_ℤ→lt, ltb_ℤ→le}
use trading_strands.MarketData.Store.{
  MarketBar, MinuteKey, MinuteBar, MarketDataStore, key_of, same_key, append_bar, highest, lowest,
  last_of, bar_of, set_bar, write_minute, completed, flush_all, flush_completed, record_tick, flush,
  hour_bucket, get_hour, within, hours_from,
}

-- A bar that is possible: its prices lie between its low and its high, and it has an observation.
abbrev pub IsBar : MinuteBar → Type 0
IsBar b =
    (b.low ≤ℤ b.open_price)
    × (b.open_price ≤ℤ b.high)
    × (b.low ≤ℤ b.close)
    × (b.close ≤ℤ b.high)
    × (1 ≤ b.samples)

abbrev pub AreBars : List (MinuteKey × MinuteBar) → Type 0
AreBars bars = All (λ x. IsBar x.1) bars

highest-last_of :
    (b : MarketBar) (bs : List MarketBar) (p : ℤ)
    → b.price ≤ℤ p
    → (p ≤ℤ highest p bs) × ((last_of b bs).price ≤ℤ highest p bs)
unfolding highest last_of
highest-last_of b [] p h = (omega arith, h)
highest-last_of b (c ∷ cs) p h = elim (Bool-cases (ltb_ℤ p c.price)) [
  | inl y ↦
      let (x, z) = highest-last_of c cs c.price (omega arith) in
      rw y (omega (arith, x, ltb_ℤ→lt p c.price y), z)
  | inr n ↦ let (x, z) = highest-last_of c cs p (ltb_ℤ→le p c.price n) in rw n (x, z)
]

lowest-last_of :
    (b : MarketBar) (bs : List MarketBar) (p : ℤ)
    → p ≤ℤ b.price
    → (lowest p bs ≤ℤ p) × (lowest p bs ≤ℤ (last_of b bs).price)
unfolding lowest last_of
lowest-last_of b [] p h = (omega arith, h)
lowest-last_of b (c ∷ cs) p h = elim (Bool-cases (ltb_ℤ c.price p)) [
  | inl y ↦
      let (x, z) = lowest-last_of c cs c.price (omega arith) in
      rw y (omega (arith, x, ltb_ℤ→lt c.price p y), z)
  | inr n ↦ let (x, z) = lowest-last_of c cs p (ltb_ℤ→le c.price p n) in rw n (x, z)
]

bar_of-IsBar : (b : MarketBar) (bs : List MarketBar) → IsBar (bar_of b bs)
unfolding bar_of
bar_of-IsBar b bs =
    let (h, hl) = highest-last_of b bs b.price (omega arith) in
    let (l, ll) = lowest-last_of b bs b.price (omega arith) in (l, h, ll, hl, omega arith)

set_bar-AreBars :
    (bars : List (MinuteKey × MinuteBar)) (k : MinuteKey) (b : MinuteBar)
    → AreBars bars
    → IsBar b
    → AreBars (set_bar bars k b)
unfolding set_bar
set_bar-AreBars [] k b h v = (v, tt)
set_bar-AreBars ((j, a) ∷ bars) k b (h, hs) v = elim (Bool-cases (same_key j k)) [
  | inl y ↦ rw y (v, hs)
  | inr n ↦ rw n (h, set_bar-AreBars bars k b hs v)
]

write_minute-AreBars :
    (k : MinuteKey) (bs : List MarketBar) (bars : List (MinuteKey × MinuteBar))
    → AreBars bars
    → AreBars (write_minute k bs bars)
unfolding write_minute
write_minute-AreBars k [] bars h = h
write_minute-AreBars k (b ∷ bs) bars h = set_bar-AreBars bars k (bar_of b bs) h (bar_of-IsBar b bs)

flush_all-AreBars :
    (buffer : List (MinuteKey × List MarketBar)) (bars : List (MinuteKey × MinuteBar))
    → AreBars bars
    → AreBars (flush_all buffer bars)
unfolding flush_all
flush_all-AreBars [] bars h = h
flush_all-AreBars ((k, bs) ∷ buffer) bars h =
    flush_all-AreBars buffer (write_minute k bs bars) (write_minute-AreBars k bs bars h)

-- A call that changes the store.
pub data Feed : Type 0 where
  tick : MarketBar → Feed
  flush_now : Feed

pub feed : MarketDataStore → Feed → MarketDataStore
feed s (tick b) = record_tick s b
feed s flush_now = flush s

unfoldable pub feed_all : MarketDataStore → List Feed → MarketDataStore
feed_all s [] = s
feed_all s (x ∷ xs) = feed_all (feed s x) xs

feed-AreBars :
    (s : MarketDataStore) (x : Feed) → AreBars s.minute_bars → AreBars (feed s x).minute_bars
unfolding feed record_tick flush_completed flush
feed-AreBars s (tick b) h =
    flush_all-AreBars (completed (key_of b) (append_bar s.buffer (key_of b) b)) s.minute_bars h
feed-AreBars s flush_now h = flush_all-AreBars s.buffer s.minute_bars h

-- Whatever is observed, and whenever it is written: every bar of the table has its first and its last price
-- between its low and its high, and counts one observation at least.
feed_all-AreBars :
    (s : MarketDataStore) (xs : List Feed)
    → AreBars s.minute_bars
    → AreBars (feed_all s xs).minute_bars
unfolding feed_all
feed_all-AreBars s [] h = h
feed_all-AreBars s (x ∷ xs) h = feed_all-AreBars (feed s x) xs (feed-AreBars s x h)

hours_from_past :
    (s : MarketDataStore) (symbol : String) (start_ts end_ts h n : ℕ)
    → end_ts < h
    → hours_from s symbol start_ts end_ts h n ≡ []
unfolding hours_from
hours_from_past s symbol start_ts end_ts h zero e = refl
hours_from_past s symbol start_ts end_ts h (suc n) e =
    let past : leb h end_ts ≡ false = ground (arith, e) in rw past refl

-- The loop of `get_range` reads nothing more when it is given more hours than reach the end.
hours_from_enough :
    (s : MarketDataStore) (symbol : String) (start_ts end_ts h n more : ℕ)
    → end_ts < h + n * 3600
    → hours_from s symbol start_ts end_ts h (n + more) ≡ hours_from s symbol start_ts end_ts h n
unfolding hours_from
hours_from_enough s symbol start_ts end_ts h zero more e =
    hours_from_past s symbol start_ts end_ts h (0 + more) (omega (arith, e))
hours_from_enough s symbol start_ts end_ts h (suc n) more e =
    let shift : suc n + more ≡ suc (n + more) = omega arith in
    let later = hours_from_enough s symbol start_ts end_ts (h + 3600) n more (omega (arith, e)) in
    ap (hours_from s symbol start_ts end_ts h) shift
    ∙ ap
        (λ rest.
          if leb h end_ts
          then within start_ts end_ts (get_hour s symbol (hour_bucket h)) ++ rest
          else [])
        later

-- The hours that `get_range` looks at are enough.
get_range-hours :
    (start_ts end_ts : ℕ) → end_ts < start_ts / 3600 * 3600 + suc (end_ts / 3600) * 3600
get_range-hours start_ts end_ts = omega arith
