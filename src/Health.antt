-- ===== src/Health.antt =====
-- The heartbeats and the platform supervisor: heartbeat/store.py and
-- platform_supervisor/supervisor.py. Times are whole seconds, and the clock is an argument; metrics,
-- logs, the expiry of rows and the extras of a heartbeat are left out.
pub mod Report
use trading_strands.Prelude.{
  ℕ, zero, suc, ◌+◌, ◌-◌, String, Bool, true, false, Option, none, some, List, [], ◌∷◌, ◌==◌, ◌&&◌,
  ◌||◌, contains, eqb, text_lt, leb, length, or_else, if◌then◌else◌,
}
use trading_strands.Prelude.Int.{ℤ, pos, ◌-ℤ◌, leb_ℤ}
use Prim.Native.Nat.{Ordering}

pub record Heartbeat : Type 0 where
  pub agent_type : String
  pub agent_id : String
  pub last_beat_ts : ℤ
  pub status : String
  pub current_activity : String
  pub last_decision_at : ℤ
  pub memory_file_cursor : ℤ
  pub queue_depth : ℤ
  pub errors_last_hour : ℤ

-- the rows of the table, in the order of a scan
abbrev pub HeartbeatTable : Type 0
HeartbeatTable = List Heartbeat

abbrev pub valid_statuses : List String
valid_statuses = "healthy" ∷ "degraded" ∷ "error" ∷ []

abbrev pub same_agent : Heartbeat → Heartbeat → Bool
same_agent a b = a.agent_type == b.agent_type && a.agent_id == b.agent_id

-- `put_item`
unfoldable pub put_beat : HeartbeatTable → Heartbeat → HeartbeatTable
put_beat [] b = b ∷ []
put_beat (a ∷ t) b = let rest = put_beat t b in if same_agent b a then b ∷ t else a ∷ rest

unfoldable pub beat :
    HeartbeatTable → ℤ → String → String → String → String → Option ℤ → ℤ → ℤ → ℤ → HeartbeatTable
unfolding put_beat
beat t now agent_type agent_id status current_activity last_decision_at memory_file_cursor
      queue_depth errors_last_hour =
    put_beat t (record {
      agent_type = agent_type;
      agent_id = agent_id;
      last_beat_ts = now;
      status = if contains valid_statuses status then status else "healthy";
      current_activity = current_activity;
      last_decision_at = or_else last_decision_at (pos 0);
      memory_file_cursor = memory_file_cursor;
      queue_depth = queue_depth;
      errors_last_hour = errors_last_hour;
    })

abbrev pub list_all : HeartbeatTable → List Heartbeat
list_all t = t

pub data AgentHealthStatus : Type 0 where
  healthy stale missing untracked : AgentHealthStatus

pub record AgentHealth : Type 0 where
  pub agent_type : String
  pub agent_id : String
  pub last_beat_ts : ℤ
  pub status : AgentHealthStatus
  pub reported_status : String
  pub current_activity : String
  pub last_decision_at : ℤ
  pub memory_file_cursor : ℤ
  pub queue_depth : ℤ
  pub errors_last_hour : ℤ

pub record HealthReport : Type 0 where
  pub total : ℕ
  pub healthy : ℕ
  pub stale : ℕ
  pub missing : ℕ
  pub agents : List AgentHealth

-- the property `ok`
unfoldable pub is_ok : HealthReport → Bool
is_ok r = eqb r.stale 0 && eqb r.missing 0

unfoldable pub classify_beat : ℤ → ℤ → ℤ → ℤ → AgentHealthStatus
classify_beat now last_beat_ts stale_after_seconds missing_after_seconds =
    if leb_ℤ last_beat_ts (pos 0)
    then missing
    else if leb_ℤ missing_after_seconds (now -ℤ last_beat_ts)
    then missing
    else if leb_ℤ stale_after_seconds (now -ℤ last_beat_ts)
    then stale
    else healthy

abbrev pub fast_cadence_agent_types : List String
fast_cadence_agent_types = "strategy" ∷ "subscriber" ∷ []

-- the body of the loop of `check_health`
unfoldable pub classify : ℤ → ℤ → ℤ → Heartbeat → AgentHealth
unfolding classify_beat
classify now stale_after missing_after b = record {
  agent_type = b.agent_type;
  agent_id = b.agent_id;
  last_beat_ts = b.last_beat_ts;
  status =
      if contains fast_cadence_agent_types b.agent_type
      then classify_beat now b.last_beat_ts stale_after missing_after
      else untracked;
  reported_status = b.status;
  current_activity = b.current_activity;
  last_decision_at = b.last_decision_at;
  memory_file_cursor = b.memory_file_cursor;
  queue_depth = b.queue_depth;
  errors_last_hour = b.errors_last_hour;
}

unfoldable pub classify_all : ℤ → ℤ → ℤ → List Heartbeat → List AgentHealth
unfolding classify
classify_all now stale_after missing_after [] = []
classify_all now stale_after missing_after (b ∷ bs) =
    classify now stale_after missing_after b ∷ classify_all now stale_after missing_after bs

-- the order of the pairs of type and id
abbrev pub agent_lt : AgentHealth → AgentHealth → Bool
agent_lt a b =
    text_lt a.agent_type b.agent_type
    || (a.agent_type == b.agent_type && text_lt a.agent_id b.agent_id)

-- `agents.sort(...)`, stable
unfoldable pub insert_agent : AgentHealth → List AgentHealth → List AgentHealth
insert_agent a [] = a ∷ []
insert_agent a (b ∷ bs) =
    let rest = insert_agent a bs in if agent_lt b a then b ∷ rest else a ∷ b ∷ bs

unfoldable pub sort_agents : List AgentHealth → List AgentHealth
unfolding insert_agent
sort_agents [] = []
sort_agents (a ∷ more) = insert_agent a (sort_agents more)

-- `is` on the enumeration
abbrev pub same_status : AgentHealthStatus → AgentHealthStatus → Bool
same_status healthy healthy = true
same_status stale stale = true
same_status missing missing = true
same_status untracked untracked = true
same_status _ _ = false

-- `sum(1 for a in agents if a.status is status)`
unfoldable pub count_status : AgentHealthStatus → List AgentHealth → ℕ
count_status s [] = 0
count_status s (a ∷ more) =
    let rest = count_status s more in if same_status a.status s then suc rest else rest

unfoldable pub check_health : ℤ → HeartbeatTable → ℤ → ℤ → HealthReport
unfolding classify_all sort_agents count_status
check_health now t stale_after_seconds missing_after_seconds =
    let agents =
      sort_agents (classify_all now stale_after_seconds missing_after_seconds (list_all t)) in
    record {
      total = length agents;
      healthy = count_status healthy agents;
      stale = count_status stale agents;
      missing = count_status missing agents;
      agents = agents;
    }
