-- ===== src/Authz/Model.antt =====
-- src/trading_strands/authz/model.py: roles, resources, principals.
use trading_strands.Prelude.{String, Bool, true, false, Option, List}
use trading_strands.Prelude.Dict.{Dict}

pub data Role : Type 0 where
  viewer operator auditor orgadmin : Role

pub data ResourceType : Type 0 where
  strategy org user alpaca_secret cost_data infra_telemetry market_data system_config : ResourceType

pub data Action : Type 0 where
  read list create update delete : Action

pub record Resource : Type 0 where
  pub type : ResourceType
  pub org_id : Option String
  pub author_user_id : Option String
  pub delegated_user_ids : List String

pub record Principal : Type 0 where
  pub user_id : String
  pub email : String
  pub memberships : Dict Role
  pub sysadmin : Bool

pub record Permission : Type 0 where
  pub allowed : Bool
  pub reason : String

-- `==` on the enumerations
abbrev pub is_read : Action → Bool
is_read read = true
is_read list = true
is_read _ = false

abbrev pub is_edit : Action → Bool
is_edit update = true
is_edit delete = true
is_edit _ = false

abbrev pub is_create : Action → Bool
is_create create = true
is_create _ = false

abbrev pub eq_type : ResourceType → ResourceType → Bool
eq_type strategy strategy = true
eq_type org org = true
eq_type user user = true
eq_type alpaca_secret alpaca_secret = true
eq_type cost_data cost_data = true
eq_type infra_telemetry infra_telemetry = true
eq_type market_data market_data = true
eq_type system_config system_config = true
eq_type _ _ = false
