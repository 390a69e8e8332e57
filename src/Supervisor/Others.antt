-- ===== src/Supervisor/Others.antt =====
-- Decisions on the services of other strategies.
use trading_strands.Prelude.{
  String, ◌≡◌, refl, false, Option, none, some, List, ◌==◌, inl, inr, arith, Option-cases,
}
use trading_strands.Supervisor.Names.{service_name_for}
use trading_strands.Supervisor.Records.{Action, noop, ensure_running, pause, stop}
use trading_strands.Supervisor.Reconcile.{
  Service, Config, Ecs, service_state, task_definition, create_new, run_service, pause_service,
  stop_service, act,
}
use trading_strands.Supervisor.Calls.{Works}

module _ {Cloud : Type 0} (ecs : Ecs Cloud) (w : Works ecs) (config : Config) (id m : String)
    (apart : service_name_for id == m ≡ false) where
  abbrev name : String
  name = service_name_for id

  create_new_others :
      (org : String) (c : Cloud) → w.seen (create_new ecs config id org c).0 m ≡ w.seen c m
  unfolding create_new
  create_new_others org c =
      elim (Option-cases (ecs.register_task_definition (task_definition config id org) c)) [
        | inl failed ↦ ground arith
        | inr ((arn, c'), e) ↦ elim (Option-cases (ecs.create_service name arn 1 c')) [
          | inl failed ↦ ground (arith, w.registers (task_definition config id org) c c' arn m e)
          | inr (c'', f) ↦ ground (
            arith,
            w.registers (task_definition config id org) c c' arn m e,
            w.creates name m arn 1 c' c'' f,
          )
        ]
      ]

  pub act_others :
      (a : Action) (org : Option String) (infos : List Service) (c : Cloud)
      → w.seen (act ecs config a id org infos c).0 m ≡ w.seen c m
  unfolding act run_service pause_service stop_service
  act_others noop org infos c = refl
  act_others ensure_running none infos c = refl
  act_others ensure_running (some org) infos c = elim (Option-cases (service_state infos)) [
    | inl gone ↦ ground (arith, create_new_others org c)
    | inr (svc, e) ↦ elim (Option-cases (ecs.update_service name 1 c)) [
      | inl failed ↦ ground arith
      | inr (c', f) ↦ ground (arith, w.updates name m 1 c c' f)
    ]
  ]
  act_others pause org infos c = elim (Option-cases (ecs.update_service name 0 c)) [
    | inl failed ↦ ground arith
    | inr (c', f) ↦ ground (arith, w.updates name m 0 c c' f)
  ]
  act_others stop org infos c = elim (Option-cases (ecs.update_service name 0 c)) [
    | inl failed ↦ ground arith
    | inr (c', f) ↦ elim (Option-cases (ecs.delete_service name c')) [
      | inl failed ↦ ground (arith, w.updates name m 0 c c' f)
      | inr (c'', g) ↦
          ground (arith, w.updates name m 0 c c' f, w.deletes_one name m c' c'' g apart)
    ]
  ]
