-- ===== src/Tests/LedgerStore.antt =====
-- Tests of the durable ledgers: ledger_store/store.py.
use trading_strands.Prelude.{
  ◌≡◌, refl, true, false, not, ◌&&◌, none, some, List, [], ◌∷◌, ◌++◌, ◌==◌, is_some, if◌then◌else◌,
}
use trading_strands.Prelude.Dict.{get}
use trading_strands.Decimal.{whole_units}
use trading_strands.Ledger.Model.{Fill, record_fill, record_fills}
use trading_strands.LedgerStore.{event_of, LedgerStore, Writing, load_snapshot, record_and_persist}
use trading_strands.LedgerStore.Recovery.{
  reloaded, fills_of, persist_all, record_and_persist_effect, IsReplayed, replay_recovers,
}
use trading_strands.Tests.Ledger.{fresh, bought, sold}

abbrev empty_store : LedgerStore
empty_store = record { snapshots = []; events = [] }

abbrev no_faults : Writing
no_faults = record { event_fails = false; snapshot_fails = false; ts = 7; suffix = "a1b2c3" }

abbrev lost_snapshot : Writing
lost_snapshot = record { event_fails = false; snapshot_fails = true; ts = 8; suffix = "d4e5f6" }

-- The second fill is refused and the third loses its snapshot.
abbrev run : List (Writing × Fill)
run = (no_faults, bought) ∷ (no_faults, sold) ∷ (lost_snapshot, bought) ∷ []

record_and_persist_effect_example :
    let (l', s', e) =
      record_and_persist ⦃D = whole_units⦄ lost_snapshot empty_store "bot" fresh bought in
    let kept = not (is_some (record_fill ⦃D = whole_units⦄ fresh bought).1) in
    (l' ≡ (record_fill ⦃D = whole_units⦄ fresh bought).0)
    × (load_snapshot s' "bot"
        ≡ (if kept && (false && "bot" == "bot") then some (reloaded l') else none))
    × (s'.events ≡ (if kept && true then [] ++ event_of lost_snapshot "bot" bought ∷ [] else []))
    × (is_some e ≡ not (kept && (true && false)))
unfolding load_snapshot get
record_and_persist_effect_example =
    record_and_persist_effect ⦃D = whole_units⦄ lost_snapshot empty_store "bot" "bot" fresh bought

replay_recovers_example :
    let (l', s') = persist_all ⦃D = whole_units⦄ empty_store "bot" fresh run in
    IsReplayed ⦃D = whole_units⦄ "bot" fresh s' l'
unfolding fills_of record_fills
replay_recovers_example =
    replay_recovers ⦃D = whole_units⦄ empty_store "bot" fresh fresh run (refl, (refl, (refl, tt)))
      refl
