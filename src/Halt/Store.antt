-- ===== src/Halt/Store.antt =====
-- src/trading_strands/halt/store.py: the system row, a row for each organisation, and the audit
-- rows in the order in which they were written. Every write carries the time of its call, and
-- the random keys of audit rows are taken to differ; writes that fail, the metric and the expiry of
-- audit rows are not modelled.
use trading_strands.Prelude.{
  ℕ, zero, suc, String, Bool, true, false, Option, none, some, List, [], ◌∷◌, ◌++◌, ◌==◌, ◌||◌, leb,
  if◌then◌else◌,
}
use trading_strands.Prelude.Dict.{Dict, get, put}

pub record HaltState : Type 0 where
  pub halted : Bool
  pub reason : Option String
  pub updated_at : ℕ

pub data Scope : Type 0 where
  system org : Scope

pub record HaltEvent : Type 0 where
  pub ts : ℕ
  pub scope : Scope
  pub halted : Bool
  pub reason : Option String
  pub org_id : Option String

-- a row as `put_item` writes it
pub record HaltRow : Type 0 where
  pub desk_halted : Bool
  pub halt_reason : String
  pub updated_at : ℕ

pub record HaltTable : Type 0 where
  pub system_row : Option HaltRow
  pub org_rows : Dict HaltRow
  pub events : List HaltEvent

abbrev pub new_table : HaltTable
new_table = record { system_row = none; org_rows = []; events = [] }

-- `_empty()`
unfoldable pub empty_state : HaltState
empty_state = record { halted = false; reason = none; updated_at = zero }

-- `s or None`
unfoldable pub or_none : String → Option String
or_none s = if s == "" then none else some s

unfoldable pub state_of : Option HaltRow → HaltState
unfolding empty_state or_none
state_of none = empty_state
state_of (some r) = record {
  halted = r.desk_halted;
  reason = or_none r.halt_reason;
  updated_at = r.updated_at;
}

unfoldable pub get_org_state : HaltTable → String → HaltState
unfolding state_of
get_org_state t org_id = state_of (get t.org_rows org_id)

unfoldable pub get_system_state : HaltTable → HaltState
unfolding state_of
get_system_state t = state_of t.system_row

abbrev pub is_org_halted : HaltTable → String → Bool
is_org_halted t org_id = (get_org_state t org_id).halted

abbrev pub is_system_halted : HaltTable → Bool
is_system_halted t = (get_system_state t).halted

abbrev pub same_flag : Bool → Bool → Bool
same_flag true true = true
same_flag false false = true
same_flag _ _ = false

-- `_record_transition`; an empty organisation id is not written
unfoldable pub record_transition : Scope → Bool → Option String → String → ℕ → HaltTable → HaltTable
unfolding or_none
record_transition scope halted org_id reason now t = record t {
  events =
      t.events
      ++ record {
        ts = now;
        scope = scope;
        halted = halted;
        reason = or_none reason;
        org_id = org_id;
      }
        ∷ [];
}

unfoldable pub set_org_halt : String → Bool → String → ℕ → HaltTable → HaltTable
unfolding record_transition or_none
set_org_halt org_id halted reason now t =
    let row : HaltRow = record { desk_halted = halted; halt_reason = reason; updated_at = now } in
    let t' = record t { org_rows = put t.org_rows org_id row } in
    if same_flag (get_org_state t org_id).halted halted
    then t'
    else record_transition org halted (or_none org_id) reason now t'

unfoldable pub set_system_halt : Bool → String → ℕ → HaltTable → HaltTable
unfolding record_transition
set_system_halt halted reason now t =
    let row : HaltRow = record { desk_halted = halted; halt_reason = reason; updated_at = now } in
    let t' = record t { system_row = some row } in
    if same_flag (get_system_state t).halted halted
    then t'
    else record_transition system halted none reason now t'

unfoldable pub is_effective_halted : HaltTable → String → Bool
is_effective_halted t org_id = is_system_halted t || is_org_halted t org_id

unfoldable pub get_effective_reason : HaltTable → String → Option String
get_effective_reason t org_id =
    if is_system_halted t
    then (get_system_state t).reason
    else if is_org_halted t org_id
    then (get_org_state t org_id).reason
    else none

-- `items.sort(key=ts, reverse=True)`: stable, the latest first
unfoldable pub insert_event : HaltEvent → List HaltEvent → List HaltEvent
insert_event e [] = e ∷ []
insert_event e (x ∷ xs) = if leb x.ts e.ts then e ∷ x ∷ xs else x ∷ insert_event e xs

unfoldable pub sort_events : List HaltEvent → List HaltEvent
unfolding insert_event
sort_events [] = []
sort_events (e ∷ es) = insert_event e (sort_events es)

unfoldable pub take_events : ℕ → List HaltEvent → List HaltEvent
take_events zero es = []
take_events (suc n) [] = []
take_events (suc n) (e ∷ es) = e ∷ take_events n es

unfoldable pub list_events : ℕ → HaltTable → List HaltEvent
unfolding sort_events take_events
list_events limit t = take_events limit (sort_events t.events)

-- the writes that reach the table, in their order
pub data Write : Type 0 where
  org_halt : String → Bool → String → ℕ → Write
  system_halt : Bool → String → ℕ → Write

unfoldable pub apply : Write → HaltTable → HaltTable
unfolding set_org_halt set_system_halt
apply (org_halt o h r n) t = set_org_halt o h r n t
apply (system_halt h r n) t = set_system_halt h r n t

unfoldable pub apply_all : List Write → HaltTable → HaltTable
apply_all [] t = t
apply_all (w ∷ ws) t = apply_all ws (apply w t)
