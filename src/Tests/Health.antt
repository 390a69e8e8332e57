-- ===== src/Tests/Health.antt =====
-- Tests of the heartbeats: heartbeat/store.py and platform_supervisor/supervisor.py.
use trading_strands.Prelude.{◌≡◌, ◌↔◌, true, none, [], All}
use trading_strands.Prelude.Int.{pos}
use trading_strands.Health.{HeartbeatTable, beat, check_health, is_ok}
use trading_strands.Health.Report.{IsQuiet, is_ok_iff}

-- One beat of 50 seconds ago, one of an hour ago that no alarm is about.
abbrev beats : HeartbeatTable
beats =
    beat (beat [] (pos 9950) "strategy" "s1" "asleep" "" none (pos 0) (pos 0) (pos 0)) (pos 6400)
      "cost_review" "run" "healthy" "" none (pos 0) (pos 0) (pos 0)

is_ok_iff_example :
    (is_ok (check_health (pos 10000) beats (pos 60) (pos 300)) ≡ true)
    ↔ All (IsQuiet (pos 10000) (pos 60) (pos 300)) beats
is_ok_iff_example = is_ok_iff (pos 10000) beats (pos 60) (pos 300)
