-- ===== src/LedgerStore/Recovery.antt =====
-- What survives a crash: the effect of each write, and that the event log replays to the ledger.
use trading_strands.Prelude.{
  String, ◌≡◌, refl, ◌∙◌, false, not, ◌&&◌, Option, none, some, List, [], ◌∷◌, ◌++◌, ◌==◌, eq_iff,
  arith, inl, inr, Option-cases, if◌then◌else◌, is_some,
}
use trading_strands.Prelude.Int.{ℤ, eqb_ℤ}
use trading_strands.Prelude.Dict.{get-put}
use trading_strands.Decimal.{Decimals, zero_ℤ}
use trading_strands.Ledger.Model.{
  Side, buy, sell, Fill, Position, Ledger, LedgerError, post_init, log_fill, finish, handle_side,
  record_fill, record_fills,
}
use trading_strands.Ledger.Fills.{record_fill_error}
use trading_strands.LedgerStore.{
  LedgerEvent, event_of, LedgerStore, Writing, load_snapshot, record_and_persist,
}

-- What a ledger says of money and holdings; the rest is history.
pub record Balances : Type 0 where
  pub starting_capital : ℤ
  pub realized_pnl : ℤ
  pub high_water_mark : ℤ
  pub open_positions : List Position

abbrev pub balances : Ledger → Balances
balances l = record {
  starting_capital = l.starting_capital;
  realized_pnl = l.realized_pnl;
  high_water_mark = l.high_water_mark;
  open_positions = l.open_positions;
}

-- The fills of one bot in the log.
unfoldable pub fills_of : String → List LedgerEvent → List Fill
fills_of b [] = []
fills_of b (e ∷ es) = let rest = fills_of b es in if e.bot_id == b then e.fill ∷ rest else rest

fills_of-append :
    (w : Writing) (b : String) (es : List LedgerEvent) (f : Fill)
    → fills_of b (es ++ event_of w b f ∷ []) ≡ fills_of b es ++ f ∷ []
unfolding fills_of
fills_of-append w b [] f = ground (arith, eq_iff b b)
fills_of-append w b (e ∷ es) f = ground (arith, fills_of-append w b es f)

-- A ledger as it is read back: a high water mark of zero becomes the starting capital.
abbrev pub reloaded : Ledger → Ledger
reloaded l = record l {
  high_water_mark =
      if eqb_ℤ l.high_water_mark zero_ℤ then l.starting_capital else l.high_water_mark;
}

post_init-reloaded : (l : Ledger) → post_init l ≡ reloaded l
unfolding post_init
post_init-reloaded l = ground arith

module _ ⦃D : Decimals⦄ where
  -- What one call writes on every path, a snapshot being read back with the starting capital for a mark
  -- of zero: a failed event write still saves the snapshot, a failed
  -- snapshot write keeps the old snapshot beside the event, and a refused fill writes nothing.
  pub record_and_persist_effect :
      (w : Writing) (s : LedgerStore) (b j : String) (l : Ledger) (f : Fill)
      → let (l', s', e) = record_and_persist w s b l f in
        let kept = not (is_some (record_fill l f).1) in
        (l' ≡ (record_fill l f).0)
        × (load_snapshot s' j ≡ (
            if kept && (not w.snapshot_fails && b == j)
            then some (reloaded l')
            else load_snapshot s j))
        × (s'.events
            ≡ (if kept && not w.event_fails then s.events ++ event_of w b f ∷ [] else s.events))
        × (is_some e ≡ not (kept && (not w.event_fails && not w.snapshot_fails)))
  unfolding record_and_persist load_snapshot
  record_and_persist_effect w s b j l f = elim (Option-cases (record_fill l f).1) [
    | inl ok ↦
        ground (
          arith,
          get-put s.snapshots b j (record_fill l f).0,
          post_init-reloaded (record_fill l f).0,
        )
    | inr (x, e) ↦ ground arith
  ]

  -- A fill moves the balances by the balances alone.
  balances-handle_side :
      (s : Side) (l m : Ledger) (f : Fill)
      → balances l ≡ balances m
      → (balances (handle_side s l f).0 ≡ balances (handle_side s m f).0)
        × ((handle_side s l f).1 ≡ (handle_side s m f).1)
  unfolding handle_side
  balances-handle_side buy l m f h = ground arith
  balances-handle_side sell l m f h = ground arith

  balances-finish :
      (o p : Ledger × Option LedgerError)
      → balances o.0 ≡ balances p.0
      → o.1 ≡ p.1
      → (balances (finish o).0 ≡ balances (finish p).0) × ((finish o).1 ≡ (finish p).1)
  unfolding finish
  balances-finish (l, none) (m, none) h e = ground arith
  balances-finish (l, none) (m, some y) h e = cc
  balances-finish (l, some x) (m, none) h e = cc
  balances-finish (l, some x) (m, some y) h e = (h, e)

  balances-record_fill :
      (l m : Ledger) (f : Fill)
      → balances l ≡ balances m
      → (balances (record_fill l f).0 ≡ balances (record_fill m f).0)
        × ((record_fill l f).1 ≡ (record_fill m f).1)
  unfolding record_fill
  balances-record_fill l m f h =
      let (same, ends) = balances-handle_side f.side (log_fill l f) (log_fill m f) f h in
      balances-finish (handle_side f.side (log_fill l f) f) (handle_side f.side (log_fill m f) f)
        same ends

  record_fills-append :
      (l : Ledger) (fs : List Fill) (f : Fill)
      → record_fills l (fs ++ f ∷ []) ≡ (record_fill (record_fills l fs) f).0
  unfolding record_fills
  record_fills-append l [] f = refl
  record_fills-append l (g ∷ fs) f = record_fills-append (record_fill l g).0 fs f

  -- A run of one bot: each fill with the faults of its two writes.
  unfoldable pub persist_all :
      LedgerStore → String → Ledger → List (Writing × Fill) → Ledger × LedgerStore
  persist_all s b l [] = (l, s)
  persist_all s b l ((w, f) ∷ rest) =
      let (l', s', e) = record_and_persist w s b l f in persist_all s' b l' rest

  abbrev pub EventsKept : List (Writing × Fill) → Type 0
  EventsKept [] = Unit {0}
  EventsKept ((w, f) ∷ rest) = (w.event_fails ≡ false) × EventsKept rest

  -- The log of the bot, replayed on the ledger that it started with, has the balances of memory.
  abbrev pub IsReplayed : String → Ledger → LedgerStore → Ledger → Type 0
  IsReplayed b start s l = balances (record_fills start (fills_of b s.events)) ≡ balances l

  replay_logged :
      (w : Writing) (b : String) (start l l' : Ledger) (es es' : List LedgerEvent) (f : Fill)
      → l' ≡ (record_fill l f).0
      → es' ≡ es ++ event_of w b f ∷ []
      → balances (record_fills start (fills_of b es)) ≡ balances l
      → balances (record_fills start (fills_of b es')) ≡ balances l'
  replay_logged w b start l l' es es' f at logged h =
      rw (logged, at, fills_of-append w b es f, record_fills-append start (fills_of b es) f)
        (balances-record_fill (record_fills start (fills_of b es)) l f h).0

  replay_refused :
      (b : String) (start l l' : Ledger) (es es' : List LedgerEvent) (f : Fill)
      → l' ≡ log_fill l f
      → es' ≡ es
      → balances (record_fills start (fills_of b es)) ≡ balances l
      → balances (record_fills start (fills_of b es')) ≡ balances l'
  unfolding log_fill
  replay_refused b start l l' es es' f at logged h = rw (logged, at) h

  IsReplayed-step :
      (w : Writing) (s : LedgerStore) (b : String) (start l : Ledger) (f : Fill)
      → w.event_fails ≡ false
      → IsReplayed b start s l
      → let (l', s', e) = record_and_persist w s b l f in IsReplayed b start s' l'
  unfolding log_fill
  IsReplayed-step w s b start l f kept h =
      let (at, _, logged, _) = record_and_persist_effect w s b b l f in
      elim (Option-cases (record_fill l f).1) [
        | inl ok ↦
            replay_logged w b start l (record_and_persist w s b l f).0 s.events
              (record_and_persist w s b l f).1.events f at (ground (arith, logged)) h
        | inr (x, e) ↦
            replay_refused b start l (record_and_persist w s b l f).0 s.events
              (record_and_persist w s b l f).1.events f (at ∙ record_fill_error l f x e)
              (ground (arith, logged)) h
      ]

  -- If no event write fails, then after any run of a bot, with snapshot writes that fail and fills
  -- that are refused, replaying the bot's events, in the order in which they were written, on the
  -- ledger it started with gives its capital, profit, mark and positions in memory.
  pub replay_recovers :
      (s : LedgerStore) (b : String) (start l : Ledger) (run : List (Writing × Fill))
      → EventsKept run
      → IsReplayed b start s l
      → let (l', s') = persist_all s b l run in IsReplayed b start s' l'
  unfolding persist_all
  replay_recovers s b start l [] k h = h
  replay_recovers s b start l ((w, f) ∷ rest) k h =
      let (l', s', e) = record_and_persist w s b l f in
      replay_recovers s' b start l' rest k.1 (IsReplayed-step w s b start l f k.0 h)
