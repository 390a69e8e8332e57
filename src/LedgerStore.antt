-- ===== src/LedgerStore.antt =====
-- Durable ledgers: ledger_store/store.py. The table keeps one snapshot for each bot and the log of
-- fills, here in the order in which they were written, while the keys of the table keep only the
-- second and a random suffix; what pydantic writes and reads back is the ledger itself, after `model_post_init`. A write to the
-- table can fail, so each has a flag that says whether it does. The expiry of events is left out.
pub mod Recovery
use trading_strands.Prelude.{
  ℕ, zero, suc, String, Bool, Option, none, some, List, [], ◌∷◌, ◌++◌, ◌==◌, ◌&&◌, if◌then◌else◌,
  ◌||◌, ltb, eqb, text_lt,
}
use trading_strands.Prelude.Dict.{Dict, get, put}
use trading_strands.Decimal.{Decimals}
use trading_strands.Ledger.Model.{Fill, Ledger, LedgerError, Outcome, post_init, record_fill}

-- a row of the log; its key is made of the bot, the time and the suffix
pub record LedgerEvent : Type 0 where
  pub bot_id : String
  pub event_type : String
  pub ts : ℕ
  pub suffix : String
  pub fill : Fill

pub record LedgerStore : Type 0 where
  pub snapshots : Dict Ledger
  pub events : List LedgerEvent

unfoldable pub save_snapshot : LedgerStore → String → Ledger → LedgerStore
save_snapshot s bot_id l = record s { snapshots = put s.snapshots bot_id l }

unfoldable pub load_snapshot : LedgerStore → String → Option Ledger
unfolding post_init
load_snapshot s bot_id = elim (get s.snapshots bot_id) [ none ↦ none | some l ↦ some (post_init l) ]

-- what `time.time()` and `uuid4()` give to the event is in `Writing`
unfoldable pub append_event : LedgerStore → LedgerEvent → LedgerStore
append_event s e = record s { events = s.events ++ e ∷ [] }

-- the rows whose key starts with the bot, for bots whose name has no `#`
unfoldable pub events_of : String → List LedgerEvent → List LedgerEvent
events_of bot_id [] = []
events_of bot_id (e ∷ es) =
    let rest = events_of bot_id es in if e.bot_id == bot_id then e ∷ rest else rest

-- the order of `(ts, pk)`, for events of one bot
abbrev pub event_lt : LedgerEvent → LedgerEvent → Bool
event_lt a b = ltb a.ts b.ts || (eqb a.ts b.ts && text_lt a.suffix b.suffix)

-- `items.sort(..., reverse=True)`: stable, the newest first
unfoldable pub insert_event : LedgerEvent → List LedgerEvent → List LedgerEvent
insert_event e [] = e ∷ []
insert_event e (x ∷ xs) =
    let rest = insert_event e xs in if event_lt e x then x ∷ rest else e ∷ x ∷ xs

unfoldable pub sort_events : List LedgerEvent → List LedgerEvent
unfolding insert_event
sort_events [] = []
sort_events (e ∷ es) = insert_event e (sort_events es)

unfoldable pub take_events : ℕ → List LedgerEvent → List LedgerEvent
take_events zero es = []
take_events (suc n) [] = []
take_events (suc n) (e ∷ es) = e ∷ take_events n es

unfoldable pub events_for_bot : LedgerStore → String → ℕ → List LedgerEvent
unfolding events_of sort_events take_events
events_for_bot s bot_id limit = take_events limit (sort_events (events_of bot_id s.events))

pub data PersistError : Type 0 where
  refused : LedgerError → PersistError
  write_failed : PersistError

-- whether the write of the event and the write of the snapshot fail, and the time and the suffix of
-- the event
pub record Writing : Type 0 where
  pub event_fails : Bool
  pub snapshot_fails : Bool
  pub ts : ℕ
  pub suffix : String

-- the event of a fill
abbrev pub event_of : Writing → String → Fill → LedgerEvent
event_of w bot_id f = record {
  bot_id = bot_id;
  event_type = "fill";
  ts = w.ts;
  suffix = w.suffix;
  fill = f;
}

-- `try: append_event finally: save_snapshot`
unfoldable pub persist :
    Writing → LedgerStore → String → Ledger → Fill → LedgerStore × Option PersistError
unfolding append_event save_snapshot
persist w s bot_id l f =
    let logged = if w.event_fails then s else append_event s (event_of w bot_id f) in
    (
      if w.snapshot_fails then logged else save_snapshot logged bot_id l,
      if w.event_fails || w.snapshot_fails then some write_failed else none,
    )

module _ ⦃D : Decimals⦄ where
  -- an exception of `record_fill` leaves before the first write
  persist_outcome :
      Writing → LedgerStore → String → Fill → Outcome → Ledger × LedgerStore × Option PersistError
  unfolding persist
  persist_outcome w s bot_id f (l, none) = let (s', e) = persist w s bot_id l f in (l, s', e)
  persist_outcome w s bot_id f (l, some e) = (l, s, some (refused e))

  unfoldable pub record_and_persist :
      Writing → LedgerStore → String → Ledger → Fill → Ledger × LedgerStore × Option PersistError
  unfolding persist_outcome
  record_and_persist w s bot_id l f = persist_outcome w s bot_id f (record_fill l f)
