-- ===== src/Supervisor/Calls.antt =====
-- What the supervisor relies on of the container service, and what its decisions want. A service that
-- is deleted goes on to be described while it drains, and after that as inactive or not at all.
use trading_strands.Prelude.{
  ℕ, String, ◌≡◌, Option, none, some, List, [], ◌∷◌, false, ◌==◌, if◌then◌else◌, ◌⊎◌, ◌≤◌,
}
use trading_strands.Supervisor.Records.{Action, noop, ensure_running, pause, stop}
use trading_strands.Supervisor.Reconcile.{Service, TaskDefinition, Ecs}

-- The service in the answer of a description.
abbrev pub described_in : List Service → Option Service
described_in [] = none
described_in (svc ∷ rest) = some svc

abbrev pub running_at : ℕ → Service
running_at k = record { status = some "ACTIVE"; desired_count = k }

-- There is no service: none is described, or one without a status, missing or inactive.
abbrev pub Gone : Option Service → Type 0
Gone none = Unit {0}
Gone (some svc) =
    (svc.status ≡ none) ⊎ ((svc.status ≡ some "MISSING") ⊎ (svc.status ≡ some "INACTIVE"))

-- There is no service, or one that drains.
abbrev pub Closing : Option Service → Type 0
Closing o = Gone o ⊎ ((svc : Service) × (o ≡ some svc) × (svc.status ≡ some "DRAINING"))

-- What the calls of the container service do when they return: `seen` is the service of a name as it
-- is described. An update returns only for an active service, and a deleted one drains or is gone.
pub record Works {Cloud : Type 0} (ecs : Ecs Cloud) : Type 0 where
  pub seen : Cloud → String → Option Service
  pub describes :
      (n : String) (c : Cloud) (infos : List Service)
      → ecs.describe_services n c ≡ some infos
      → described_in infos ≡ seen c n
  pub registers :
      (t : TaskDefinition) (c c' : Cloud) (arn n : String)
      → ecs.register_task_definition t c ≡ some (arn, c')
      → seen c' n ≡ seen c n
  pub creates :
      (n m arn : String) (k : ℕ) (c c' : Cloud)
      → ecs.create_service n arn k c ≡ some c'
      → seen c' m ≡ (if n == m then some (running_at k) else seen c m)
  pub updates :
      (n m : String) (k : ℕ) (c c' : Cloud)
      → ecs.update_service n k c ≡ some c'
      → seen c' m ≡ (if n == m then some (running_at k) else seen c m)
  pub deletes : (n : String) (c c' : Cloud) → ecs.delete_service n c ≡ some c' → Closing (seen c' n)
  pub deletes_one :
      (n m : String) (c c' : Cloud)
      → ecs.delete_service n c ≡ some c'
      → n == m ≡ false
      → seen c' m ≡ seen c m

-- The service of a strategy is as the action wants it.
abbrev pub Wanted : Action → Option Service → Type 0
Wanted noop o = Unit {0}
Wanted ensure_running o = (svc : Service) × (o ≡ some svc) × (¬ Gone o) × (1 ≤ svc.desired_count)
Wanted pause o = Gone o ⊎ ((svc : Service) × (o ≡ some svc) × (svc.desired_count ≡ 0))
Wanted stop o = Closing o
