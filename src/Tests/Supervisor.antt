-- ===== src/Tests/Supervisor.antt =====
-- Tests of the strategy supervisor: supervisor/strategy_supervisor.py. The container service is a
-- dictionary from the names of services to their descriptions.
use trading_strands.Prelude.{
  String, Bool, inr, ◌==◌, eq_refl, ◌≡◌, refl, false, arith, Option, none, some, List, [], ◌∷◌,
  if◌then◌else◌,
}
use trading_strands.Prelude.Dict.{Dict, get, put, get-put}
use trading_strands.Strategies.Store.{Strategy, active, stopped, StrategyTable, list_all, all_rows}
use trading_strands.Supervisor.Sweep.{
  decisions_of, decisions_from_store, count_result, apply_all, reconcile_all,
}
use trading_strands.Supervisor.Coverage.{sweep_runs}
use trading_strands.Supervisor.Names.{service_name_for}
use trading_strands.Supervisor.Records.{
  ensure_running, pause, Decision, text, Image, StreamRecord, classify_record, noop,
}
use trading_strands.Supervisor.Reconcile.{Service, Config, Ecs, service_state, reconcile}
use trading_strands.Supervisor.Transitions.{is_row, expected, classify_record-expected}
use trading_strands.Supervisor.Calls.{described_in, running_at, Works, Wanted}
use trading_strands.Supervisor.Services.{reconcile-Wanted}

abbrev infos_of : Option Service → List Service
infos_of none = []
infos_of (some svc) = svc ∷ []

-- whether a service can be updated
abbrev is_open : Option Service → Bool
is_open none = false
is_open (some svc) = elim svc.status [ none ↦ false | some s ↦ s == "ACTIVE" ]

abbrev drained : Service
drained = record { status = some "DRAINING"; desired_count = 0 }

-- a deleted service drains, and no call on it returns
abbrev services : Ecs (Dict Service)
services = record {
  describe_services = λ n c. some (infos_of (get c n));
  register_task_definition = λ t c. some ("arn", c);
  create_service = λ n arn k c. some (put c n (running_at k));
  update_service = λ n k c. if is_open (get c n) then some (put c n (running_at k)) else none;
  delete_service = λ n c. if is_open (get c n) then some (put c n drained) else none;
}

described_one :
    (o : Option Service) (infos : List Service)
    → some (infos_of o) ≡ some infos
    → described_in infos ≡ o
described_one none infos e = ground arith
described_one (some svc) infos e = ground arith

put_closes :
    (n : String) (c c' : Dict Service)
    → services.delete_service n c ≡ some c'
    → get c' n ≡ some drained
put_closes n c c' e = ground (arith, get-put c n n drained, eq_refl n)

services-Works : Works services
services-Works = record {
  seen = λ c n. get c n;
  describes = λ n c infos e. described_one (get c n) infos e;
  registers = λ t c c' arn n e. ground arith;
  creates = λ n m arn k c c' e. ground (arith, get-put c n m (running_at k));
  updates = λ n m k c c' e. ground (arith, get-put c n m (running_at k));
  deletes = λ n c c' e. inr (drained, put_closes n c c' e, refl);
  deletes_one = λ n m c c' e d. ground (arith, get-put c n m drained);
}

abbrev config : Config
config = record { base_task_definition_family = "bot"; container_image = "image"; extra_env = [] }

abbrev row : String → Image
row status = ("pk", text "STRATEGY#abc") ∷ ("org_id", text "acme") ∷ ("status", text status) ∷ []

abbrev paused_row : StreamRecord
paused_row = record { event_name = "MODIFY"; new_image = row "paused"; old_image = row "active" }

abbrev paused : Decision
paused = record { action = pause; strategy_id = some "abc"; org_id = some "acme" }

abbrev cloud : Dict Service
cloud = ("ts-strategy-abc", running_at 1) ∷ ("ts-strategy-xyz", running_at 1) ∷ []

classify_record-expected_example :
    (classify_record paused_row).action ≡ (if is_row paused_row then expected paused_row else noop)
classify_record-expected_example = classify_record-expected paused_row

reconcile-Wanted_example :
    Wanted pause
      (services-Works.seen (reconcile services config paused cloud).0 (service_name_for "abc"))
unfolding reconcile get put service_state service_name_for
reconcile-Wanted_example =
    reconcile-Wanted services services-Works config paused "abc" cloud refl refl

abbrev plan : Strategy
plan = record {
  strategy_id = "new";
  org_id = "acme";
  author_user_id = "ann";
  name = "";
  markdown = "";
  symbols = [];
  capital = "1000";
  status = active;
  created_at = 5;
  updated_at = 5;
  tools = [];
  skills = [];
  model_id = "";
}

abbrev table : StrategyTable
table = record {
  strategies = ("new", plan) ∷ ("old", record plan { strategy_id = "old"; status = stopped }) ∷ [];
  acls = [];
}

all_done : (reconcile_all services config false table cloud).0.errors ≡ 0
unfolding reconcile_all decisions_from_store decisions_of list_all all_rows apply_all count_result
    reconcile get put service_state service_name_for
all_done = refl

sweep_runs_example : Wanted ensure_running (
    services-Works.seen
      (reconcile_all services config false table cloud).1
      (service_name_for "new"))
unfolding get
sweep_runs_example =
    sweep_runs services services-Works config table cloud "new" plan all_done refl refl refl
