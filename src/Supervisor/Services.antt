-- ===== src/Supervisor/Services.antt =====
-- The services after a decision has been carried out without an exception.
use mathlib.Core.Path.{subst}
use trading_strands.Prelude.{
  ℕ, suc, refl, [], ◌∷◌, eq_iff, String, ◌≡◌, sym, ap, ◌∙◌, true, false, Option, none, some, List,
  ◌==◌, ◌⊎◌, inl, inr, arith, eq_refl, ltb, Option-cases, Bool-cases, false≢true,
}
use trading_strands.Supervisor.Names.{service_name_for}
use trading_strands.Supervisor.Records.{Action, noop, ensure_running, pause, stop, Decision}
use trading_strands.Supervisor.Reconcile.{
  Service, Config, Ecs, is_gone, service_state, task_definition, create_new, run_service,
  pause_service, stop_service, act, describe_and_act, reconcile,
}
use trading_strands.Supervisor.Calls.{described_in, running_at, Gone, Closing, Works, Wanted}
use trading_strands.Supervisor.Others.{act_others}

-- What the code keeps of a description.
abbrev Described : Option Service → Option Service → Type 0
Described none o = Gone o
Described (some svc) o = (o ≡ some svc) × (¬ Gone o)

is_gone-Gone : (svc : Service) → is_gone svc.status ≡ true → Gone (some svc)
unfolding is_gone
is_gone-Gone svc h = elim (Option-cases svc.status) [
  | inl n ↦ inl n
  | inr (s, e) ↦ elim (Bool-cases (s == "MISSING")) [
    | inl y ↦ inr (inl (e ∙ ap some ((eq_iff s "MISSING").0 y)))
    | inr n ↦ inr (inr (e ∙ ap some ((eq_iff s "INACTIVE").0 (ground (arith, e, n, h)))))
  ]
]

is_gone-Live : (svc : Service) → is_gone svc.status ≡ false → ¬ Gone (some svc)
unfolding is_gone
is_gone-Live svc h g = elim g [
  | inl n ↦ false≢true (sym h ∙ ap is_gone n)
  | inr (inl e) ↦ false≢true (sym h ∙ ap is_gone e)
  | inr (inr e) ↦ false≢true (sym h ∙ ap is_gone e)
]

running_Live : (k : ℕ) (o : Option Service) → o ≡ some (running_at k) → ¬ Gone o
running_Live k o e = rw e (is_gone-Live (running_at k) (unfold is_gone in refl))

service_state-Described :
    (infos : List Service) → Described (service_state infos) (described_in infos)
unfolding service_state
service_state-Described [] = tt
service_state-Described (svc ∷ rest) = elim (Bool-cases (is_gone svc.status)) [
  | inl y ↦ rw y (is_gone-Gone svc y)
  | inr n ↦ rw n (refl, is_gone-Live svc n)
]

module _ {Cloud : Type 0} (ecs : Ecs Cloud) (w : Works ecs) (config : Config) (id : String) where
  state_Described :
      (infos : List Service) (c : Cloud)
      → ecs.describe_services (service_name_for id) c ≡ some infos
      → Described (service_state infos) (w.seen c (service_name_for id))
  state_Described infos c e =
      subst (Described (service_state infos)) (w.describes (service_name_for id) c infos e)
        (service_state-Described infos)

  started : (o : Option Service) (k : ℕ) → o ≡ some (running_at (suc k)) → Wanted ensure_running o
  started o k e = (running_at (suc k), e, running_Live (suc k) o e, omega arith)

  abbrev name : String
  name = service_name_for id

  create_new-Wanted :
      (org : String) (c : Cloud)
      → (create_new ecs config id org c).1 ≡ true
      → Wanted ensure_running (w.seen (create_new ecs config id org c).0 name)
  unfolding create_new
  create_new-Wanted org c ok =
      elim (Option-cases (ecs.register_task_definition (task_definition config id org) c)) [
        | inl failed ↦ ground arith
        | inr ((arn, c'), e) ↦ elim (Option-cases (ecs.create_service name arn 1 c')) [
          | inl failed ↦ ground arith
          | inr (c'', f) ↦
              started _ 0 (ground (arith, w.creates name name arn 1 c' c'' f, eq_refl name))
        ]
      ]

  run_service-Wanted :
      (org : String) (now : Option Service) (c : Cloud)
      → Described now (w.seen c name)
      → (run_service ecs config id org now c).1 ≡ true
      → Wanted ensure_running (w.seen (run_service ecs config id org now c).0 name)
  unfolding run_service
  run_service-Wanted org none c e ok = create_new-Wanted org c ok
  run_service-Wanted org (some svc) c e ok = elim (Bool-cases (ltb svc.desired_count 1)) [
    | inl low ↦ elim (Option-cases (ecs.update_service name 1 c)) [
      | inl failed ↦ ground arith
      | inr (c', f) ↦ started _ 0 (ground (arith, low, w.updates name name 1 c c' f, eq_refl name))
    ]
    | inr high ↦ rw high (svc, e.0, e.1, ground (arith, high))
  ]

  pause_service-Wanted :
      (now : Option Service) (c : Cloud)
      → Described now (w.seen c name)
      → (pause_service ecs id now c).1 ≡ true
      → Wanted pause (w.seen (pause_service ecs id now c).0 name)
  unfolding pause_service
  pause_service-Wanted none c e ok = inl e
  pause_service-Wanted (some svc) c e ok = elim (Option-cases (ecs.update_service name 0 c)) [
    | inl failed ↦ ground arith
    | inr (c', f) ↦
        inr (running_at 0, ground (arith, w.updates name name 0 c c' f, eq_refl name), refl)
  ]

  stop_service-Wanted :
      (now : Option Service) (c : Cloud)
      → Described now (w.seen c name)
      → (stop_service ecs id now c).1 ≡ true
      → Wanted stop (w.seen (stop_service ecs id now c).0 name)
  unfolding stop_service
  stop_service-Wanted none c e ok = inl e
  stop_service-Wanted (some svc) c e ok = elim (Option-cases (ecs.update_service name 0 c)) [
    | inl failed ↦ ground arith
    | inr (c', f) ↦ elim (Option-cases (ecs.delete_service name c')) [
      | inl failed ↦ ground arith
      | inr (c'', g) ↦
          let end : (stop_service ecs id (some svc) c).0 ≡ c'' = ground (arith, f, g) in
          subst (λ x. Closing (w.seen x name)) (sym end) (w.deletes name c' c'' g)
    ]
  ]

  act-Wanted :
      (a : Action) (org : Option String) (infos : List Service) (c : Cloud)
      → ecs.describe_services name c ≡ some infos
      → (act ecs config a id org infos c).1 ≡ true
      → Wanted a (w.seen (act ecs config a id org infos c).0 name)
  unfolding act
  act-Wanted noop org infos c e ok = tt
  act-Wanted ensure_running none infos c e ok = ground arith
  act-Wanted ensure_running (some org) infos c e ok =
      run_service-Wanted org (service_state infos) c (state_Described infos c e) ok
  act-Wanted pause org infos c e ok =
      pause_service-Wanted (service_state infos) c (state_Described infos c e) ok
  act-Wanted stop org infos c e ok =
      stop_service-Wanted (service_state infos) c (state_Described infos c e) ok

  described :
      (a : Action) (org : Option String) (infos : List Service) (c : Cloud)
      → ecs.describe_services name c ≡ some infos
      → describe_and_act ecs config a id org c ≡ act ecs config a id org infos c
  unfolding describe_and_act
  described a org infos c e = ground arith

  undescribed :
      (a : Action) (org : Option String) (c : Cloud)
      → ecs.describe_services name c ≡ none
      → describe_and_act ecs config a id org c ≡ (c, false)
  unfolding describe_and_act
  undescribed a org c e = ground arith

  describe_and_act-Wanted :
      (a : Action) (org : Option String) (c : Cloud)
      → (describe_and_act ecs config a id org c).1 ≡ true
      → Wanted a (w.seen (describe_and_act ecs config a id org c).0 name)
  describe_and_act-Wanted a org c ok = elim (Option-cases (ecs.describe_services name c)) [
    | inl failed ↦ absurd (false≢true (sym (ap (λ x. x.1) (undescribed a org c failed)) ∙ ok))
    | inr (infos, e) ↦
        let same = described a org infos c e in
        rw same (act-Wanted a org infos c e (sym (ap (λ x. x.1) same) ∙ ok))
  ]

  module _ (m : String) (apart : service_name_for id == m ≡ false) where
    describe_and_act_others :
        (a : Action) (org : Option String) (c : Cloud)
        → w.seen (describe_and_act ecs config a id org c).0 m ≡ w.seen c m
    describe_and_act_others a org c = elim (Option-cases (ecs.describe_services name c)) [
      | inl failed ↦ ap (λ x. w.seen x.0 m) (undescribed a org c failed)
      | inr (infos, e) ↦
          ap (λ x. w.seen x.0 m) (described a org infos c e)
          ∙ act_others ecs w config id m apart a org infos c
    ]

module _ {Cloud : Type 0} (ecs : Ecs Cloud) (w : Works ecs) (config : Config) where
  reconcile_act :
      (d : Decision) (id : String) (c : Cloud)
      → d.strategy_id ≡ some id
      → (d.action ≡ noop)
        ⊎ (reconcile ecs config d c ≡ describe_and_act ecs config d.action id d.org_id c)
  unfolding reconcile
  reconcile_act d id c s = ground arith

  reconcile_noop :
      (d : Decision) (c : Cloud) → d.action ≡ noop → reconcile ecs config d c ≡ (c, true)
  unfolding reconcile
  reconcile_noop d c e = ground arith

  -- A decision on a strategy that is carried out without an exception leaves what it wants: a service
  -- that is described as neither missing nor inactive, with a count of at least one; a count of zero
  -- or no service; or no service but one that drains.
  pub reconcile-Wanted :
      (d : Decision) (id : String) (c : Cloud)
      → d.strategy_id ≡ some id
      → (reconcile ecs config d c).1 ≡ true
      → Wanted d.action (w.seen (reconcile ecs config d c).0 (service_name_for id))
  reconcile-Wanted d id c s ok = elim (reconcile_act d id c s) [
    | inl e ↦ rw e tt
    | inr same ↦ rw same (
        describe_and_act-Wanted ecs w config id d.action d.org_id c (sym (ap (λ x. x.1) same) ∙ ok))
  ]

  -- A decision touches no service but the one of its strategy, exceptions at any call included.
  pub reconcile_others :
      (d : Decision) (id m : String) (c : Cloud)
      → d.strategy_id ≡ some id
      → service_name_for id == m ≡ false
      → w.seen (reconcile ecs config d c).0 m ≡ w.seen c m
  reconcile_others d id m c s apart = elim (reconcile_act d id c s) [
    | inl e ↦ ap (λ x. w.seen x.0 m) (reconcile_noop d c e)
    | inr same ↦
        ap (λ x. w.seen x.0 m) same
        ∙ describe_and_act_others ecs w config id m apart d.action d.org_id c
  ]
