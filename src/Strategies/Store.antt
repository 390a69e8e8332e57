-- ===== src/Strategies/Store.antt =====
-- strategies_store/store.py. A row is kept under the ids that its key is made of; new ids and the
-- times of the calls are arguments. An update of `updated_at` itself, and the columns that no field reads,
-- are left out, and so are values that the fields do not admit.
use trading_strands.Prelude.{
  ℕ, String, Bool, true, false, Option, none, some, List, [], ◌∷◌, ◌==◌, ◌&&◌, if◌then◌else◌,
}
use trading_strands.Prelude.Int.{ℤ}
use trading_strands.Prelude.Dict.{Dict, get, put, remove, has}
use trading_strands.Authz.Model.{Principal, Action, Resource, strategy}
use trading_strands.Authz.Policy.{can}
use trading_strands.Strategies.Models.{validate_model_id}

pub data StrategyStatus : Type 0 where
  active paused stopped : StrategyStatus

-- tools/base.py
pub record StrategyToolConfig : Type 0 where
  pub enabled : Bool
  pub daily_quota : ℤ

pub record Strategy : Type 0 where
  pub strategy_id : String
  pub org_id : String
  pub author_user_id : String
  pub name : String
  pub markdown : String
  pub symbols : List String
  pub capital : String
  pub status : StrategyStatus
  pub created_at : ℕ
  pub updated_at : ℕ
  pub tools : Dict StrategyToolConfig
  pub skills : List String
  pub model_id : String

pub record StrategyAcl : Type 0 where
  pub strategy_id : String
  pub user_id : String
  pub granted_by : String
  pub created_at : ℕ

-- the rows under `STRATEGY#` and under `STRATEGYACL#`
pub record StrategyTable : Type 0 where
  pub strategies : Dict Strategy
  pub acls : List StrategyAcl

-- `model_refused` is an `UnknownModelError`, `condition_failed` the error of a conditional write
pub data Stored : Type 0 where
  stored : Strategy → Stored
  model_refused condition_failed : Stored

unfoldable pub create :
    String
    → ℕ
    → String
    → String
    → String
    → String
    → List String
    → String
    → Dict StrategyToolConfig
    → List String
    → String
    → StrategyTable
    → Stored × StrategyTable
create new_id now org_id author_user_id name markdown symbols capital tools skills model_id t =
    let s : Strategy = record {
      strategy_id = new_id;
      org_id = org_id;
      author_user_id = author_user_id;
      name = name;
      markdown = markdown;
      symbols = symbols;
      capital = capital;
      status = active;
      created_at = now;
      updated_at = now;
      tools = tools;
      skills = skills;
      model_id = model_id;
    } in
    if validate_model_id model_id
    then (if has t.strategies new_id
        then (condition_failed, t)
        else (stored s, record t { strategies = put t.strategies new_id s }))
    else (model_refused, t)

-- `None` stands for `StrategyNotFoundError`
unfoldable pub get_strategy : String → StrategyTable → Option Strategy
get_strategy strategy_id t = get t.strategies strategy_id

unfoldable pub owned_by : String → Dict Strategy → List Strategy
owned_by org_id [] = []
owned_by org_id ((k, s) ∷ d) =
    let rest = owned_by org_id d in if s.org_id == org_id then s ∷ rest else rest

unfoldable pub list_for_org : String → StrategyTable → List Strategy
unfolding owned_by
list_for_org org_id t = owned_by org_id t.strategies

unfoldable pub all_rows : Dict Strategy → List Strategy
all_rows [] = []
all_rows ((k, s) ∷ d) = s ∷ all_rows d

unfoldable pub list_all : StrategyTable → List Strategy
unfolding all_rows
list_all t = all_rows t.strategies

-- an entry of the argument `fields`; the first five are protected
pub data FieldUpdate : Type 0 where
  pk strategy_id org_id author_user_id : String → FieldUpdate
  created_at : ℕ → FieldUpdate
  name markdown capital model_id : String → FieldUpdate
  symbols skills : List String → FieldUpdate
  status : StrategyStatus → FieldUpdate
  tools : Dict StrategyToolConfig → FieldUpdate

abbrev pub is_protected : FieldUpdate → Bool
is_protected (pk v) = true
is_protected (strategy_id v) = true
is_protected (org_id v) = true
is_protected (author_user_id v) = true
is_protected (created_at v) = true
is_protected _ = false

-- what the entry makes of a row
unfoldable pub set_field : FieldUpdate → Strategy → Strategy
set_field (pk v) s = s
set_field (strategy_id v) s = record s { strategy_id = v }
set_field (org_id v) s = record s { org_id = v }
set_field (author_user_id v) s = record s { author_user_id = v }
set_field (created_at v) s = record s { created_at = v }
set_field (name v) s = record s { name = v }
set_field (markdown v) s = record s { markdown = v }
set_field (capital v) s = record s { capital = v }
set_field (model_id v) s = record s { model_id = v }
set_field (symbols v) s = record s { symbols = v }
set_field (skills v) s = record s { skills = v }
set_field (status v) s = record s { status = v }
set_field (tools v) s = record s { tools = v }

unfoldable pub unprotected : List FieldUpdate → List FieldUpdate
unprotected [] = []
unprotected (f ∷ fs) = let rest = unprotected fs in if is_protected f then rest else f ∷ rest

-- the check of the model, if one is given
unfoldable pub models_listed : List FieldUpdate → Bool
models_listed [] = true
models_listed (model_id v ∷ fs) = validate_model_id v && models_listed fs
models_listed (f ∷ fs) = models_listed fs

unfoldable pub set_fields : List FieldUpdate → Strategy → Strategy
unfolding set_field
set_fields [] s = s
set_fields (f ∷ fs) s = set_fields fs (set_field f s)

unfoldable pub update : ℕ → String → List FieldUpdate → StrategyTable → Stored × StrategyTable
unfolding unprotected models_listed set_fields
update now id fields t =
    if models_listed (unprotected fields)
    then elim (get t.strategies id) [
      | none ↦ (condition_failed, t)
      | some s ↦
          let s' = set_fields (unprotected fields) (record s { updated_at = now }) in
          (stored s', record t { strategies = put t.strategies id s' })
    ]
    else (model_refused, t)

-- the rows of the strategy removed
unfoldable pub clear_acls : String → List StrategyAcl → List StrategyAcl
clear_acls id [] = []
clear_acls id (a ∷ acls) =
    let rest = clear_acls id acls in if a.strategy_id == id then rest else a ∷ rest

unfoldable pub delete : String → StrategyTable → StrategyTable
unfolding clear_acls
delete id t = record { strategies = remove t.strategies id; acls = clear_acls id t.acls }

abbrev pub grants : String → String → StrategyAcl → Bool
grants id user a = a.strategy_id == id && a.user_id == user

unfoldable pub put_acl : List StrategyAcl → StrategyAcl → List StrategyAcl
put_acl [] a = a ∷ []
put_acl (b ∷ acls) a =
    let rest = put_acl acls a in if grants a.strategy_id a.user_id b then a ∷ acls else b ∷ rest

unfoldable pub add_acl : ℕ → String → String → String → StrategyTable → StrategyAcl × StrategyTable
unfolding put_acl
add_acl now id user granted_by t =
    let a : StrategyAcl = record {
      strategy_id = id;
      user_id = user;
      granted_by = granted_by;
      created_at = now;
    } in
    (a, record t { acls = put_acl t.acls a })

unfoldable pub delete_acl : String → String → List StrategyAcl → List StrategyAcl
delete_acl id user [] = []
delete_acl id user (a ∷ acls) =
    let rest = delete_acl id user acls in if grants id user a then rest else a ∷ rest

unfoldable pub remove_acl : String → String → StrategyTable → StrategyTable
unfolding delete_acl
remove_acl id user t = record t { acls = delete_acl id user t.acls }

unfoldable pub users_of : String → List StrategyAcl → List String
users_of id [] = []
users_of id (a ∷ acls) =
    let rest = users_of id acls in if a.strategy_id == id then a.user_id ∷ rest else rest

unfoldable pub acl_users : String → StrategyTable → List String
unfolding users_of
acl_users id t = users_of id t.acls

unfoldable pub resource_for : Strategy → List String → Resource
resource_for s acl = record {
  type = strategy;
  org_id = some s.org_id;
  author_user_id = some s.author_user_id;
  delegated_user_ids = acl;
}

unfoldable pub resource_for_new : String → String → Resource
resource_for_new org author = record {
  type = strategy;
  org_id = some org;
  author_user_id = some author;
  delegated_user_ids = [];
}

-- `None` stands for the `ValueError`
unfoldable pub can_perform :
    Bool → Principal → Action → Option Strategy → Option String → List String → Option Bool
unfolding resource_for resource_for_new
can_perform flag p a (some s) org acl = some (can flag p a (resource_for s acl)).allowed
can_perform flag p a none none acl = none
can_perform flag p a none (some org) acl =
    some (can flag p a (resource_for_new org p.user_id)).allowed
