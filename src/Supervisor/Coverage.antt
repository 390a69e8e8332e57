-- ===== src/Supervisor/Coverage.antt =====
-- A sweep without an error leaves every active strategy with a running service.
use trading_strands.Prelude.{
  suc, ◌≤◌, ◌≡◌, refl, sym, ◌∙◌, ap, String, Bool, true, false, some, List, [], ◌∷◌, ◌==◌, ◌⊎◌,
  arith, All, Bool-cases, inl, inr, eq_iff,
}
use mathlib.Core.Path.{subst}
use trading_strands.Prelude.Dict.{Dict, get}
use trading_strands.Strategies.Store.{Strategy, active, StrategyTable, all_rows, list_all}
use trading_strands.Supervisor.Names.{service_name_for}
use trading_strands.Supervisor.Records.{ensure_running, Decision}
use trading_strands.Supervisor.Reconcile.{Config, Ecs, reconcile}
use trading_strands.Supervisor.Calls.{Works, Wanted}
use trading_strands.Supervisor.Services.{reconcile-Wanted, reconcile_others}
use trading_strands.Supervisor.Sweep.{
  ReconcileAllSummary, decisions_of, decisions_from_store, is_active, count_result, apply_all,
  reconcile_all,
}

-- the decision to run the service of the strategy
abbrev pub Runs : String → Decision → Type 0
Runs id d = (d.action ≡ ensure_running) × (d.strategy_id ≡ some id)

-- one of the decisions is to run the service of that name
abbrev pub Asked : String → List Decision → Type 0
Asked m [] = ⊥
Asked m (d ∷ ds) = ((id : String) × Runs id d × (service_name_for id ≡ m)) ⊎ Asked m ds

-- every decision is to run a service
abbrev pub AllRun : List Decision → Type 0
AllRun ds = All (λ d. (id : String) × Runs id d) ds

decisions_of-AllRun : (ss : List Strategy) → AllRun (decisions_of ss)
unfolding decisions_of
decisions_of-AllRun [] = tt
decisions_of-AllRun (s ∷ ss) = elim (Bool-cases (is_active s.status)) [
  | inr n ↦ rw n (decisions_of-AllRun ss)
  | inl y ↦ elim (Bool-cases (s.org_id == "")) [
    | inl e ↦ rw (y, e) (decisions_of-AllRun ss)
    | inr n ↦ rw (y, n) ((s.strategy_id, (refl, refl)), decisions_of-AllRun ss)
  ]
]

decisions_of-Asked :
    (d : Dict Strategy) (k : String) (s : Strategy)
    → get d k ≡ some s
    → s.status ≡ active
    → s.org_id == "" ≡ false
    → Asked (service_name_for s.strategy_id) (decisions_of (all_rows d))
unfolding decisions_of all_rows get
decisions_of-Asked [] k s e a o = absurd (ground (arith, e))
decisions_of-Asked ((j, x) ∷ d) k s e a o = elim (Bool-cases (j == k)) [
  | inl y ↦
      let same : s ≡ x = ground (arith, e, y) in
      let up : is_active x.status ≡ true =
        ap (λ z. is_active z.status) (sym same) ∙ ap is_active a in
      let org : x.org_id == "" ≡ false = ap (λ z. z.org_id == "") (sym same) ∙ o in
      rw (same, up, org) (inl (x.strategy_id, (refl, refl), refl))
  | inr n ↦
      let rest = decisions_of-Asked d k s (rw n at e) a o in
      elim (Bool-cases (is_active x.status)) [
        | inr f ↦ rw f rest
        | inl t ↦ elim (Bool-cases (x.org_id == "")) [
          | inl b ↦ rw (t, b) rest
          | inr b ↦ rw (t, b) (inr rest)
        ]
      ]
]

count_result-done :
    (ok : Bool) (s : ReconcileAllSummary) → ok ≡ true → (count_result ok s).errors ≡ s.errors
unfolding count_result
count_result-done ok s y = rw y refl

count_result-failed :
    (ok : Bool) (s : ReconcileAllSummary) → ok ≡ false → (count_result ok s).errors ≡ suc s.errors
unfolding count_result
count_result-failed ok s n = rw n refl

module _ {Cloud : Type 0} (ecs : Ecs Cloud) (w : Works ecs) (config : Config) where
  done_Wanted :
      (d : Decision) (id : String) (c : Cloud)
      → Runs id d
      → (reconcile ecs config d c).1 ≡ true
      → Wanted ensure_running (w.seen (reconcile ecs config d c).0 (service_name_for id))
  done_Wanted d id c (a, s) ok =
      subst (λ x. Wanted x (w.seen (reconcile ecs config d c).0 (service_name_for id))) a
        (reconcile-Wanted ecs w config d id c s ok)

  -- a decision to run a service, carried out, leaves every running service running
  reconcile_keeps :
      (d : Decision) (id m : String) (c : Cloud)
      → Runs id d
      → (reconcile ecs config d c).1 ≡ true
      → Wanted ensure_running (w.seen c m)
      → Wanted ensure_running (w.seen (reconcile ecs config d c).0 m)
  reconcile_keeps d id m c (a, s) ok h = elim (Bool-cases (service_name_for id == m)) [
    | inl y ↦ rw (sym ((eq_iff (service_name_for id) m).0 y)) (done_Wanted d id c (a, s) ok)
    | inr n ↦ rw (reconcile_others ecs w config d id m c s n) h
  ]

  errors_grow :
      (ds : List Decision) (s : ReconcileAllSummary) (c : Cloud)
      → s.errors ≤ (apply_all ecs config ds s c).0.errors
  unfolding apply_all count_result
  errors_grow [] s c = omega arith
  errors_grow (d ∷ ds) s c =
      let (c', ok) = reconcile ecs config d c in
      let rest = errors_grow ds (count_result ok s) c' in
      elim (Bool-cases ok) [ inl y ↦ ground (arith, rest, y) | inr n ↦ ground (arith, rest, n) ]

  apply_all-runs :
      (ds : List Decision) (s : ReconcileAllSummary) (c : Cloud) (m : String)
      → AllRun ds
      → (apply_all ecs config ds s c).0.errors ≡ s.errors
      → Wanted ensure_running (w.seen c m) ⊎ Asked m ds
      → Wanted ensure_running (w.seen (apply_all ecs config ds s c).1 m)
  unfolding apply_all
  apply_all-runs [] s c m h e (inl r) = r
  apply_all-runs [] s c m h e (inr r) = absurd r
  apply_all-runs (d ∷ ds) s c m ((id, r), h) e q =
      let c' = (reconcile ecs config d c).0 in
      let ok = (reconcile ecs config d c).1 in
      let grows = errors_grow ds (count_result ok s) c' in
      elim (Bool-cases ok) [
        | inr n ↦ absurd (omega (arith, grows, count_result-failed ok s n, e))
        | inl y ↦
            apply_all-runs ds (count_result ok s) c' m h (e ∙ sym (count_result-done ok s y))
              (elim q [
                | inl up ↦ inl (reconcile_keeps d id m c r y up)
                | inr (inl (j, r', same)) ↦
                    inl (
                      subst (λ x. Wanted ensure_running (w.seen c' x)) same
                        (done_Wanted d j c r' y))
                | inr (inr later) ↦ inr later
              ])
      ]

  -- With container-service calls that do what they say when they return: after a sweep without an
  -- error, every active strategy of the table that has an organisation has a service that is described
  -- as neither missing nor inactive, with a count of at least one.
  pub sweep_runs :
      (t : StrategyTable) (c : Cloud) (k : String) (s : Strategy)
      → (reconcile_all ecs config false t c).0.errors ≡ 0
      → get t.strategies k ≡ some s
      → s.status ≡ active
      → s.org_id == "" ≡ false
      → Wanted ensure_running
          (w.seen (reconcile_all ecs config false t c).1 (service_name_for s.strategy_id))
  unfolding reconcile_all decisions_from_store list_all
  sweep_runs t c k s none_failed e a o =
      apply_all-runs (decisions_from_store t) _ c (service_name_for s.strategy_id)
        (decisions_of-AllRun (all_rows t.strategies)) none_failed
        (inr (decisions_of-Asked t.strategies k s e a o))
