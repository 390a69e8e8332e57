-- ===== src/Supervisor/Reconcile.antt =====
-- What a decision does, of supervisor/strategy_supervisor.py. The container service is not code of the
-- program: its calls are the fields of `Ecs`, on a state that is left open, and `None` is an exception
-- of a call, which then changes nothing. Cluster, network and sizes are the same in every call, and
-- are left out.
use trading_strands.Prelude.{
  ℕ, String, Bool, true, false, Option, none, some, List, [], ◌∷◌, ◌==◌, if◌then◌else◌, ltb, ◌+◌,
}
use trading_strands.Prelude.Dict.{Dict, put}
use trading_strands.Supervisor.Names.{service_name_for, task_family_for}
use trading_strands.Supervisor.Records.{
  Action, noop, ensure_running, pause, stop, Decision, StreamRecord, classify_record,
}

-- an entry of the answer of `describe_services`
pub record Service : Type 0 where
  pub status : Option String
  pub desired_count : ℕ

pub record TaskDefinition : Type 0 where
  pub family : String
  pub container_image : String
  pub environment : Dict String
  pub stream_prefix : String

pub record Config : Type 0 where
  pub base_task_definition_family : String
  pub container_image : String
  pub extra_env : Dict String

pub record Ecs (Cloud : Type 0) : Type 0 where
  pub describe_services : String → Cloud → Option (List Service)
  pub register_task_definition : TaskDefinition → Cloud → Option (String × Cloud)
  pub create_service : String → String → ℕ → Cloud → Option Cloud
  pub update_service : String → ℕ → Cloud → Option Cloud
  pub delete_service : String → Cloud → Option Cloud

-- `status in ("MISSING", "INACTIVE", None)`
unfoldable pub is_gone : Option String → Bool
is_gone none = true
is_gone (some s) = if s == "MISSING" then true else s == "INACTIVE"

-- `_service_state`, on the answer of the call
unfoldable pub service_state : List Service → Option Service
unfolding is_gone
service_state [] = none
service_state (svc ∷ rest) = if is_gone svc.status then none else some svc

unfoldable pub task_definition : Config → String → String → TaskDefinition
task_definition config strategy_id org_id = record {
  family = task_family_for config.base_task_definition_family strategy_id;
  container_image = config.container_image;
  environment = put (put config.extra_env "STRATEGY_ID" strategy_id) "ORG_ID" org_id;
  stream_prefix = strategy_id;
}

module _ {Cloud : Type 0} (ecs : Ecs Cloud) where
  -- the state after a call, and whether it returned
  after : Option Cloud → Cloud → Cloud × Bool
  after none c = (c, false)
  after (some c') c = (c', true)

  -- `_register_task_def`, then `create_service`
  unfoldable pub create_new : Config → String → String → Cloud → Cloud × Bool
  unfolding after
  create_new config strategy_id org_id c =
      elim (ecs.register_task_definition (task_definition config strategy_id org_id) c) [
        | none ↦ (c, false)
        | some (arn, c') ↦ after (ecs.create_service (service_name_for strategy_id) arn 1 c') c'
      ]

  -- `_ensure_running`, once the service has been described
  unfoldable pub run_service : Config → String → String → Option Service → Cloud → Cloud × Bool
  unfolding create_new
  run_service config strategy_id org_id none c = create_new config strategy_id org_id c
  run_service config strategy_id org_id (some svc) c =
      if ltb svc.desired_count 1
      then after (ecs.update_service (service_name_for strategy_id) 1 c) c
      else (c, true)

  -- `_pause`, once the service has been described
  unfoldable pub pause_service : String → Option Service → Cloud → Cloud × Bool
  unfolding after
  pause_service strategy_id none c = (c, true)
  pause_service strategy_id (some svc) c =
      after (ecs.update_service (service_name_for strategy_id) 0 c) c

  -- `_stop`, once the service has been described
  unfoldable pub stop_service : String → Option Service → Cloud → Cloud × Bool
  unfolding after
  stop_service strategy_id none c = (c, true)
  stop_service strategy_id (some svc) c =
      elim (ecs.update_service (service_name_for strategy_id) 0 c) [
        | none ↦ (c, false)
        | some c' ↦ after (ecs.delete_service (service_name_for strategy_id) c') c'
      ]

  -- `assert decision.org_id is not None` comes before any call
  unfoldable pub act :
      Config → Action → String → Option String → List Service → Cloud → Cloud × Bool
  unfolding run_service pause_service stop_service
  act config noop strategy_id org_id infos c = (c, true)
  act config ensure_running strategy_id none infos c = (c, false)
  act config ensure_running strategy_id (some org) infos c =
      run_service config strategy_id org (service_state infos) c
  act config pause strategy_id org_id infos c = pause_service strategy_id (service_state infos) c
  act config stop strategy_id org_id infos c = stop_service strategy_id (service_state infos) c

  -- the calls of an action other than NOOP begin with `describe_services`
  unfoldable pub describe_and_act : Config → Action → String → Option String → Cloud → Cloud × Bool
  unfolding act
  describe_and_act config action strategy_id org_id c =
      elim (ecs.describe_services (service_name_for strategy_id) c) [
        | none ↦ (c, false)
        | some infos ↦ act config action strategy_id org_id infos c
      ]

  unfoldable pub reconcile : Config → Decision → Cloud → Cloud × Bool
  unfolding describe_and_act
  reconcile config d c = elim d.action [
    | noop ↦ (c, true)
    | action ↦ elim d.strategy_id [
      | none ↦ (c, true)
      | some strategy_id ↦ describe_and_act config action strategy_id d.org_id c
    ]
  ]

  -- `_run`: the state after a batch, and the count of errors
  unfoldable pub run_batch : Config → List StreamRecord → Cloud → Cloud × ℕ
  unfolding reconcile
  run_batch config [] c = (c, 0)
  run_batch config (r ∷ rs) c =
      let (c', ok) = reconcile config (classify_record r) c in
      let (last, errors) = run_batch config rs c' in (last, if ok then errors else 1 + errors)
