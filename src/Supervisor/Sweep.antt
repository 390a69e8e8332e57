-- ===== src/Supervisor/Sweep.antt =====
-- supervisor/reconcile_all.py: the services of all strategies brought up to the table. The state of the
-- container service is left open, as in `Reconcile`.
use trading_strands.Prelude.{
  ℕ, suc, ◌+◌, ◌≡◌, refl, ◌∙◌, Bool, true, false, some, List, [], ◌∷◌, ◌==◌, arith, if◌then◌else◌,
  length,
}
use trading_strands.Strategies.Store.{Strategy, StrategyStatus, active, StrategyTable, list_all}
use trading_strands.Supervisor.Records.{Action, ensure_running, Decision}
use trading_strands.Supervisor.Reconcile.{Config, Ecs, reconcile}

pub record ReconcileAllSummary : Type 0 where
  pub total : ℕ
  pub reconciled : ℕ
  pub errors : ℕ
  pub dry_run_actions : List Action

abbrev pub is_active : StrategyStatus → Bool
is_active active = true
is_active _ = false

-- the body of the loop of `decisions_from_store`
unfoldable pub decisions_of : List Strategy → List Decision
decisions_of [] = []
decisions_of (s ∷ ss) =
    let rest = decisions_of ss in
    if is_active s.status
    then (if s.org_id == ""
        then rest
        else record {
          action = ensure_running;
          strategy_id = some s.strategy_id;
          org_id = some s.org_id;
        }
          ∷ rest)
    else rest

unfoldable pub decisions_from_store : StrategyTable → List Decision
unfolding decisions_of list_all
decisions_from_store t = decisions_of (list_all t)

unfoldable pub actions_of : List Decision → List Action
actions_of [] = []
actions_of (d ∷ ds) = d.action ∷ actions_of ds

-- one more decision, reconciled or not
unfoldable pub count_result : Bool → ReconcileAllSummary → ReconcileAllSummary
count_result true s = record s { reconciled = suc s.reconciled }
count_result false s = record s { errors = suc s.errors }

count_result-counts :
    (b : Bool) (s : ReconcileAllSummary)
    → ((count_result b s).total ≡ s.total)
      × ((count_result b s).reconciled + (count_result b s).errors ≡ 1 + s.reconciled + s.errors)
      × ((count_result b s).dry_run_actions ≡ s.dry_run_actions)
unfolding count_result
count_result-counts true s = (refl, omega arith, refl)
count_result-counts false s = (refl, omega arith, refl)

module _ {Cloud : Type 0} (ecs : Ecs Cloud) where
  -- the loop over the decisions, with the counts so far
  unfoldable pub apply_all :
      Config → List Decision → ReconcileAllSummary → Cloud → ReconcileAllSummary × Cloud
  unfolding count_result
  apply_all config [] summary c = (summary, c)
  apply_all config (d ∷ ds) summary c =
      let (c', ok) = reconcile ecs config d c in apply_all config ds (count_result ok summary) c'

  unfoldable pub reconcile_all : Config → Bool → StrategyTable → Cloud → ReconcileAllSummary × Cloud
  unfolding apply_all decisions_from_store actions_of
  reconcile_all config dry_run t c =
      let decisions = decisions_from_store t in
      let summary : ReconcileAllSummary = record {
        total = length decisions;
        reconciled = 0;
        errors = 0;
        dry_run_actions = [];
      } in
      if dry_run
      then (record summary { dry_run_actions = actions_of decisions }, c)
      else apply_all config decisions summary c

  apply_all-counts :
      (config : Config) (ds : List Decision) (s : ReconcileAllSummary) (c : Cloud)
      → let s' = (apply_all config ds s c).0 in
        (s'.total ≡ s.total)
        × (s'.reconciled + s'.errors ≡ length ds + s.reconciled + s.errors)
        × (s'.dry_run_actions ≡ s.dry_run_actions)
  unfolding apply_all
  apply_all-counts config [] s c = (refl, omega arith, refl)
  apply_all-counts config (d ∷ ds) s c =
      let (c', ok) = reconcile ecs config d c in
      let (a, b, k) = apply_all-counts config ds (count_result ok s) c' in
      let (x, y, z) = count_result-counts ok s in (a ∙ x, omega (arith, b, y), k ∙ z)

  -- A sweep accounts for every decision once, as reconciled or as an error; a dry run counts the same
  -- total, does neither, and leaves the container service as it is.
  reconcile_all_counts :
      (config : Config) (dry_run : Bool) (t : StrategyTable) (c : Cloud)
      → let (s, c') = reconcile_all config dry_run t c in
        (s.total ≡ length (decisions_from_store t))
        × (s.reconciled + s.errors ≡ (if dry_run then 0 else s.total))
        × ((if dry_run then c' else c) ≡ c)
  unfolding reconcile_all
  reconcile_all_counts config true t c = (refl, refl, refl)
  reconcile_all_counts config false t c =
      let (a, b, k) =
        apply_all-counts config (decisions_from_store t)
          (record {
            total = length (decisions_from_store t);
            reconciled = 0;
            errors = 0;
            dry_run_actions = [];
          })
          c in
      (a, omega (arith, a, b), refl)
