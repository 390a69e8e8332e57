-- ===== src/Supervisor/Transitions.antt =====
-- Which stream records start, pause and stop a service.
use trading_strands.Prelude.{
  String, ◌≡◌, refl, Bool, true, false, not, ◌==◌, if◌then◌else◌, arith, eq_iff, ◌&&◌, ◌||◌,
}
use trading_strands.Supervisor.Names.{is_strategy}
use trading_strands.Supervisor.Records.{
  Action, noop, ensure_running, pause, stop, StreamRecord, unwrap, is_empty, image_of,
  modify_action, row_action, classify_record,
}

-- The row's status has changed to `status` in an update.
abbrev pub changed_to : String → StreamRecord → Bool
changed_to status r =
    r.event_name == "MODIFY"
    && (not (is_empty r.old_image)
        && (unwrap r.new_image "status" == status && not (unwrap r.old_image "status" == status)))

-- The row has come in with `status`.
abbrev pub born : String → StreamRecord → Bool
born status r = r.event_name == "INSERT" && unwrap r.new_image "status" == status

abbrev pub removed : StreamRecord → Bool
removed r = r.event_name == "REMOVE"

-- The record is about the row of a strategy: its new image says so, or its old one if it has no new
-- one, as after a removal.
abbrev pub is_row : StreamRecord → Bool
is_row r = is_strategy (unwrap (if is_empty r.new_image then r.old_image else r.new_image) "pk")

distinct : (a b s : String) → a == b ≡ false → s == a ≡ true → s == b ≡ false
distinct a b s d h = ground (arith, eq_iff s a, eq_iff s b, eq_iff a b)

-- The action for a row is what its event and its change of status say.
abbrev pub expected : StreamRecord → Action
expected r =
    if removed r || changed_to "stopped" r
    then stop
    else if born "active" r || changed_to "active" r
    then ensure_running
    else if changed_to "paused" r
    then pause
    else noop

modify_action-expected :
    (old new : String)
    → modify_action old new ≡ (
        if new == "stopped" && not (old == "stopped")
        then stop
        else if new == "active" && not (old == "active")
        then ensure_running
        else if new == "paused" && not (old == "paused")
        then pause
        else noop)
unfolding modify_action
modify_action-expected old new = ground (
  arith,
  eq_iff old new,
  eq_iff new "active",
  eq_iff new "paused",
  eq_iff new "stopped",
  eq_iff old "active",
  eq_iff old "paused",
  eq_iff old "stopped",
  distinct "active" "paused" new refl,
  distinct "active" "stopped" new refl,
  distinct "paused" "stopped" new refl,
)

-- For the row of a strategy, told by the new image or, where that is empty, by the old one: a record
-- starts a service when an active strategy comes in or a strategy becomes active, pauses
-- it when the strategy becomes paused, stops it when the strategy becomes stopped or is removed,
-- and does nothing otherwise, in particular for rows of other kinds and updates without a change.
pub classify_record-expected :
    (r : StreamRecord) → (classify_record r).action ≡ (if is_row r then expected r else noop)
unfolding classify_record row_action image_of
classify_record-expected r = ground (
  arith,
  modify_action-expected (unwrap r.old_image "status") (unwrap r.new_image "status"),
  distinct "REMOVE" "INSERT" r.event_name refl,
  distinct "REMOVE" "MODIFY" r.event_name refl,
  distinct "INSERT" "MODIFY" r.event_name refl,
)
