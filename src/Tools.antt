-- ===== src/Tools.antt =====
-- The tools of an organisation: org_tools/store.py, tools/base.py and org_fanout/fanout.py. A row is kept
-- under the ids of its key; a factory, what it makes, and what an invocation answers, are not code
-- of these files.
pub mod Binding
use trading_strands.Prelude.{
  ℕ, zero, suc, String, Bool, true, false, not, Option, none, some, List, [], ◌∷◌, ◌++◌, ◌==◌, ◌&&◌,
  is_some, text_lt, length, if◌then◌else◌,
}
use trading_strands.Prelude.Dict.{Dict, get, put, has}
use trading_strands.Strategies.Store.{StrategyToolConfig}
use trading_strands.Tenancy.Store.{Org, Tenants, list_orgs}

pub record OrgToolConfig : Type 0 where
  pub org_id : String
  pub tool_name : String
  pub enabled : Bool
  pub updated_by : String
  pub updated_at : ℕ

-- by organisation, then by tool
abbrev pub OrgToolTable : Type 0
OrgToolTable = Dict (Dict OrgToolConfig)

unfoldable pub rows_of : OrgToolTable → String → Dict OrgToolConfig
rows_of t org_id = elim (get t org_id) [ none ↦ [] | some rows ↦ rows ]

unfoldable pub set_enabled :
    OrgToolTable → ℕ → String → String → Bool → String → OrgToolConfig × OrgToolTable
unfolding rows_of
set_enabled t now org_id tool_name enabled updated_by =
    let row : OrgToolConfig = record {
      org_id = org_id;
      tool_name = tool_name;
      enabled = enabled;
      updated_by = updated_by;
      updated_at = now;
    } in
    (row, put t org_id (put (rows_of t org_id) tool_name row))

unfoldable pub is_enabled : OrgToolTable → String → String → Bool
unfolding rows_of
is_enabled t org_id tool_name = elim (get (rows_of t org_id) tool_name) [
  | none ↦ false
  | some row ↦ row.enabled
]

-- `items.sort(key=tool_name)`: stable
unfoldable pub insert_config : OrgToolConfig → List OrgToolConfig → List OrgToolConfig
insert_config c [] = c ∷ []
insert_config c (d ∷ ds) =
    let rest = insert_config c ds in
    if text_lt d.tool_name c.tool_name then d ∷ rest else c ∷ d ∷ ds

unfoldable pub sort_configs : Dict OrgToolConfig → List OrgToolConfig
unfolding insert_config
sort_configs [] = []
sort_configs ((k, c) ∷ rows) = insert_config c (sort_configs rows)

unfoldable pub list_for_org : OrgToolTable → String → List OrgToolConfig
unfolding rows_of sort_configs
list_for_org t org_id = sort_configs (rows_of t org_id)

-- `_factories`
abbrev pub ToolRegistry : Type 0 → Type 0
ToolRegistry Factory = Dict Factory

-- `None` stands for the `ValueError` of a name that is taken
unfoldable pub register :
    {Factory : Type 0} → ToolRegistry Factory → String → Factory → Option (ToolRegistry Factory)
register registry name factory =
    if has registry name then none else some (put registry name factory)

-- `sorted(...)`
unfoldable pub insert_name : String → List String → List String
insert_name n [] = n ∷ []
insert_name n (m ∷ ms) = let rest = insert_name n ms in if text_lt m n then m ∷ rest else n ∷ m ∷ ms

unfoldable pub names : {Factory : Type 0} → ToolRegistry Factory → List String
unfolding insert_name
names [] = []
names ((n, f) ∷ registry) = insert_name n (names registry)

-- `None` stands for a `KeyError`
unfoldable pub factory_for : {Factory : Type 0} → ToolRegistry Factory → String → Option Factory
factory_for registry name = get registry name

-- `factory(context)` is the argument `call`
unfoldable pub bind_tools_for_strategy :
    {Factory Tool : Type 0}
    → (Factory → Tool)
    → ToolRegistry Factory
    → Dict StrategyToolConfig
    → List Tool
bind_tools_for_strategy call registry [] = []
bind_tools_for_strategy call registry ((name, cfg) ∷ config) =
    let rest = bind_tools_for_strategy call registry config in
    if cfg.enabled
    then elim (get registry name) [ none ↦ rest | some factory ↦ call factory ∷ rest ]
    else rest

pub record InvocationResult : Type 0 where
  pub org_id : String
  pub ok : Bool
  pub error : Option String

unfoldable pub ids_of : List Org → List String
ids_of [] = []
ids_of (o ∷ orgs) = o.org_id ∷ ids_of orgs

unfoldable pub enumerate_orgs : Tenants → List String
unfolding ids_of list_orgs
enumerate_orgs t = ids_of (list_orgs t)

-- the result of one invocation, from the text of its exception if there is one
abbrev pub result_of : String → Option String → InvocationResult
result_of org_id error = record { org_id = org_id; ok = not (is_some error); error = error }

-- `invoke` gives the text of an exception, or nothing
unfoldable pub fan_out_review : (String → Option String) → List String → List InvocationResult
fan_out_review invoke [] = []
fan_out_review invoke (org_id ∷ org_ids) =
    result_of org_id (invoke org_id) ∷ fan_out_review invoke org_ids

unfoldable pub count_ok : Bool → List InvocationResult → ℕ
count_ok b [] = 0
count_ok b (r ∷ rs) =
    let rest = count_ok b rs in if (if b then r.ok else not r.ok) then suc rest else rest

pub record FanOutSummary : Type 0 where
  pub ok : Bool
  pub total : ℕ
  pub succeeded : ℕ
  pub failed : ℕ
  pub errors : List InvocationResult

unfoldable pub failures : List InvocationResult → List InvocationResult
failures [] = []
failures (r ∷ rs) = let rest = failures rs in if r.ok then rest else r ∷ rest

abbrev pub is_zero : ℕ → Bool
is_zero zero = true
is_zero (suc n) = false

-- `_run`; `None` stands for the answer to an event without a target
unfoldable pub run_fan_out :
    Tenants → Option String → (String → String → Option String) → Option FanOutSummary
unfolding enumerate_orgs fan_out_review count_ok failures
run_fan_out t none invoke = none
run_fan_out t (some target) invoke =
    if target == ""
    then none
    else let results = fan_out_review (invoke target) (enumerate_orgs t) in
      some (record {
        ok = is_zero (count_ok false results);
        total = length results;
        succeeded = count_ok true results;
        failed = count_ok false results;
        errors = failures results;
      })
