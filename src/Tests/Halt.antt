-- ===== src/Tests/Halt.antt =====
-- Tests of the halt store: halt/store.py.
use trading_strands.Prelude.{◌≡◌, refl, true, false, some, List, [], ◌∷◌}
use trading_strands.Prelude.Dict.{get, put}
use trading_strands.Halt.Store.{
  Write, org_halt, system_halt, HaltTable, new_table, apply, apply_all, set_org_halt,
  set_system_halt, is_effective_halted, get_effective_reason, get_system_state, get_org_state,
  list_events,
}
use trading_strands.Halt.Effective.{org_writes_keep_system_halt}
use trading_strands.Halt.Events.{Recent, list_events-Recent}
use trading_strands.Halt.Audit.{IsAudited}
use trading_strands.Halt.Log.{transitions, log_agrees}

abbrev writes : List Write
writes =
    org_halt "acme" true "drawdown" 1
    ∷ org_halt "acme" true "again" 2
    ∷ system_halt true "outage" 3
    ∷ org_halt "acme" false "" 4
    ∷ []

abbrev halted_table : HaltTable
halted_table = set_system_halt true "outage" 3 new_table

-- The second write changes no flag and is not logged; the system's halt outlives the last.
after_writes :
    (is_effective_halted (apply_all writes new_table) "acme" ≡ true)
    × (get_effective_reason (apply_all writes new_table) "acme" ≡ some "outage")
unfolding apply_all apply set_org_halt set_system_halt get_org_state get_system_state get put
    is_effective_halted get_effective_reason
after_writes = (refl, refl)

org_writes_keep_system_halt_example :
    (is_effective_halted (apply_all (org_halt "acme" false "" 4 ∷ []) halted_table) "acme" ≡ true)
    × (get_effective_reason (apply_all (org_halt "acme" false "" 4 ∷ []) halted_table) "acme"
        ≡ (get_system_state halted_table).reason)
unfolding set_system_halt get_system_state
org_writes_keep_system_halt_example =
    org_writes_keep_system_halt (org_halt "acme" false "" 4 ∷ []) halted_table "acme" (tt, tt) refl

log_agrees_example :
    ((apply_all writes new_table).events ≡ transitions (λ _. false) false writes)
    × IsAudited (apply_all writes new_table)
log_agrees_example = log_agrees writes

list_events-Recent_example :
    Recent 2 (apply_all writes new_table).events (list_events 2 (apply_all writes new_table))
list_events-Recent_example = list_events-Recent 2 (apply_all writes new_table)
