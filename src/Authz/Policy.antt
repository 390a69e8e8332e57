-- ===== src/Authz/Policy.antt =====
-- src/trading_strands/authz/policy.py: the predicates, the chain and `can`.
use trading_strands.Prelude.{
  String, Bool, true, false, not, ◌&&◌, ◌||◌, Option, none, some, List, [], ◌∷◌, ◌==◌, contains,
  if◌then◌else◌, is_some,
}
use trading_strands.Prelude.Dict.{get}
use trading_strands.Authz.Model.{
  Role, operator, orgadmin, ResourceType, strategy, org, user, alpaca_secret, market_data,
  system_config, Action, Resource, Principal, Permission, is_read, is_edit, is_create, eq_type,
}

abbrev pub Predicate : Type 0
Predicate = Principal → Action → Resource → Option Permission

abbrev pub allow : String → Option Permission
allow why = some (record { allowed = true; reason = why })

unfoldable pub role_in : Principal → Option String → Option Role
role_in p none = none
role_in p (some org_id) = get p.memberships org_id

abbrev pub is_org_member : Principal → Option String → Bool
is_org_member p org_id = is_some (role_in p org_id)

abbrev pub orgadmin_role : Option Role → Bool
orgadmin_role (some orgadmin) = true
orgadmin_role _ = false

abbrev pub is_orgadmin : Principal → Option String → Bool
is_orgadmin p org_id = orgadmin_role (role_in p org_id)

-- `role in (Role.OPERATOR, Role.ORGADMIN)`
abbrev pub editor_role : Option Role → Bool
editor_role (some operator) = true
editor_role (some orgadmin) = true
editor_role _ = false

unfoldable pub allow_sysadmin_read : Bool → Predicate
allow_sysadmin_read flag p a r =
    if not p.sysadmin
    then none
    else if not (is_read a)
    then none
    else if eq_type r.type alpaca_secret
    then none
    else if not (is_some r.org_id)
    then allow "sysadmin reads system resource"
    else if flag
    then allow "sysadmin reads org (deploy flag allows)"
    else none

unfoldable pub allow_sysadmin_system_config : Predicate
allow_sysadmin_system_config p a r =
    if not p.sysadmin
    then none
    else if eq_type r.type system_config && not (is_some r.org_id)
    then allow "sysadmin writes system config"
    else none

unfoldable pub allow_strategy_read : Predicate
allow_strategy_read p a r =
    if not (eq_type r.type strategy)
    then none
    else if not (is_read a)
    then none
    else if is_org_member p r.org_id
    then allow "org member reads strategy"
    else none

-- the last two tests of the author rule, once the author is known
author_or_delegate : Principal → Resource → Option String → Option Permission
author_or_delegate p r none = none
author_or_delegate p r (some author) =
    if not (editor_role (role_in p r.org_id))
    then none
    else if p.user_id == author
    then allow "author mutates own strategy"
    else if contains r.delegated_user_ids p.user_id
    then allow "co-author (ACL) mutates strategy"
    else none

unfoldable pub allow_strategy_author_mutate : Predicate
unfolding author_or_delegate
allow_strategy_author_mutate p a r =
    if not (eq_type r.type strategy)
    then none
    else if not (is_edit a)
    then none
    else author_or_delegate p r r.author_user_id

-- `f"{role.value} creates strategy in org"`
creator : Option Role → Option Permission
creator (some operator) = allow "operator creates strategy in org"
creator (some orgadmin) = allow "orgadmin creates strategy in org"
creator _ = none

unfoldable pub allow_operator_create_strategy : Predicate
unfolding creator
allow_operator_create_strategy p a r =
    if not (eq_type r.type strategy) || not (is_create a)
    then none
    else creator (role_in p r.org_id)

unfoldable pub allow_orgadmin_any_strategy : Predicate
allow_orgadmin_any_strategy p a r =
    if not (eq_type r.type strategy)
    then none
    else if not (is_edit a)
    then none
    else if is_orgadmin p r.org_id
    then allow "orgadmin mutates strategy in own org"
    else none

-- `f"orgadmin manages {r.type.value} in own org"`, for the two types that get there
managed : ResourceType → String
managed alpaca_secret = "orgadmin manages alpaca_secret in own org"
managed _ = "orgadmin manages user in own org"

unfoldable pub allow_orgadmin_user_mgmt : Predicate
unfolding managed
allow_orgadmin_user_mgmt p a r =
    if not (eq_type r.type user || eq_type r.type alpaca_secret)
    then none
    else if is_orgadmin p r.org_id
    then allow (managed r.type)
    else none

unfoldable pub allow_sysadmin_user_mgmt : Predicate
allow_sysadmin_user_mgmt p a r =
    if not p.sysadmin
    then none
    else if eq_type r.type user
    then allow "sysadmin manages user"
    else none

unfoldable pub allow_org_create_by_sysadmin : Predicate
allow_org_create_by_sysadmin p a r =
    if eq_type r.type org && (is_create a && p.sysadmin) then allow "sysadmin creates org" else none

unfoldable pub allow_org_mutate_by_orgadmin : Predicate
allow_org_mutate_by_orgadmin p a r =
    if not (eq_type r.type org)
    then none
    else if is_edit a && is_orgadmin p r.org_id
    then allow "orgadmin mutates own org"
    else none

unfoldable pub allow_org_read_by_member : Predicate
allow_org_read_by_member p a r =
    if not (eq_type r.type org)
    then none
    else if is_read a && is_org_member p r.org_id
    then allow "member reads own org"
    else none

unfoldable pub allow_market_data_read : Predicate
allow_market_data_read p a r =
    if not (eq_type r.type market_data)
    then none
    else if is_read a
    then allow "any authenticated user reads market data"
    else none

unfoldable pub allow_chain : Bool → List Predicate
unfolding allow_sysadmin_read allow_sysadmin_system_config allow_sysadmin_user_mgmt
    allow_strategy_author_mutate allow_orgadmin_any_strategy allow_operator_create_strategy
    allow_strategy_read allow_orgadmin_user_mgmt allow_org_create_by_sysadmin
    allow_org_mutate_by_orgadmin allow_org_read_by_member allow_market_data_read
allow_chain flag =
    allow_sysadmin_read flag
    ∷ allow_sysadmin_system_config
    ∷ allow_sysadmin_user_mgmt
    ∷ allow_strategy_author_mutate
    ∷ allow_orgadmin_any_strategy
    ∷ allow_operator_create_strategy
    ∷ allow_strategy_read
    ∷ allow_orgadmin_user_mgmt
    ∷ allow_org_create_by_sysadmin
    ∷ allow_org_mutate_by_orgadmin
    ∷ allow_org_read_by_member
    ∷ allow_market_data_read
    ∷ []

-- the `for` loop of `can`
first_allow : List Predicate → Principal → Action → Resource → Permission
first_allow [] p a r = record { allowed = false; reason = "no rule matched — denied by default" }
first_allow (rule ∷ rules) p a r =
    let rest = first_allow rules p a r in elim (rule p a r) [ none ↦ rest | some perm ↦ perm ]

unfoldable pub can : Bool → Principal → Action → Resource → Permission
unfolding allow_chain first_allow
can flag = first_allow (allow_chain flag)

-- `require` raises `Unauthorized`, which carries the reason.
unfoldable pub require : Bool → Principal → Action → Resource → Option String
require flag p a r =
    let perm = can flag p a r in if not perm.allowed then some perm.reason else none
