-- ===== src/Authz/Spec.antt =====
-- The policy as a table: for each type of resource, what a role, authorship or the sysadmin flag
-- allows. The theorems compare `can` with the table.
use trading_strands.Prelude.{
  String, ◌≡◌, ◌⊎◌, Bool, true, false, not, ◌&&◌, ◌||◌, Option, none, some, ◌==◌, contains, is_some,
  arith, if◌then◌else◌,
}
use trading_strands.Authz.Model.{
  Role, operator, orgadmin, ResourceType, strategy, org, user, alpaca_secret, cost_data,
  infra_telemetry, market_data, system_config, Action, read, list, create, update, delete, Resource,
  Principal, is_read, is_edit, eq_type,
}
use trading_strands.Authz.Policy.{role_in, can, require, orgadmin_role, editor_role}

-- What the sysadmin flag opens for reading: system-wide resources, and those of an organisation if
-- the deploy flag is set.
abbrev sysadmin_reads : Bool → Principal → Resource → Bool
sysadmin_reads flag p r = p.sysadmin && (not (is_some r.org_id) || flag)

-- Author or delegate of a strategy that has an author.
abbrev pub owns : Principal → Resource → Option String → Bool
owns p r none = false
owns p r (some author) = p.user_id == author || contains r.delegated_user_ids p.user_id

abbrev strategy_table : Bool → Principal → Resource → Option Role → Action → Bool
strategy_table flag p r role read = is_some role || sysadmin_reads flag p r
strategy_table flag p r role list = is_some role || sysadmin_reads flag p r
strategy_table flag p r role create = editor_role role
strategy_table flag p r role update =
    orgadmin_role role || (editor_role role && owns p r r.author_user_id)
strategy_table flag p r role delete =
    orgadmin_role role || (editor_role role && owns p r r.author_user_id)

abbrev org_table : Bool → Principal → Resource → Option Role → Action → Bool
org_table flag p r role read = is_some role || sysadmin_reads flag p r
org_table flag p r role list = is_some role || sysadmin_reads flag p r
org_table flag p r role create = p.sysadmin
org_table flag p r role update = orgadmin_role role
org_table flag p r role delete = orgadmin_role role

-- The whole table; `role` is the principal's role in the organisation that owns the resource.
pub allowed : Bool → Principal → Resource → Option Role → ResourceType → Action → Bool
allowed flag p r role strategy a = strategy_table flag p r role a
allowed flag p r role org a = org_table flag p r role a
allowed flag p r role user a = p.sysadmin || orgadmin_role role
allowed flag p r role alpaca_secret a = orgadmin_role role
allowed flag p r role market_data a = is_read a
allowed flag p r role system_config a =
    p.sysadmin && (not (is_some r.org_id) || (is_read a && flag))
allowed flag p r role cost_data a = is_read a && sysadmin_reads flag p r
allowed flag p r role infra_telemetry a = is_read a && sysadmin_reads flag p r

-- `can` allows exactly what the table does.
pub can-allowed :
    (flag : Bool) (p : Principal) (a : Action) (r : Resource)
    → (can flag p a r).allowed ≡ allowed flag p r (role_in p r.org_id) r.type a
unfolding can allowed
can-allowed flag p a r = ground arith

-- Whoever is allowed anything on an Alpaca secret is an orgadmin of the organisation that owns it:
-- neither the sysadmin flag nor the deploy flag opens one.
alpaca_needs_orgadmin :
    (flag : Bool) (p : Principal) (a : Action) (r : Resource)
    → r.type ≡ alpaca_secret
    → (can flag p a r).allowed ≡ true
    → role_in p r.org_id ≡ some orgadmin
unfolding allowed
alpaca_needs_orgadmin flag p a r t h = ground (arith, can-allowed flag p a r)

-- Someone who is no sysadmin and holds no role in the owning organisation is denied every action on
-- every resource except reading or listing market data.
pub outsider_denied :
    (flag : Bool) (p : Principal) (a : Action) (r : Resource)
    → p.sysadmin ≡ false
    → role_in p r.org_id ≡ none
    → (can flag p a r).allowed ≡ eq_type r.type market_data && is_read a
unfolding allowed
outsider_denied flag p a r s m = ground (arith, can-allowed flag p a r)

-- The decision and its reason depend on a principal only by the user id, the sysadmin flag and the
-- role in the organisation that owns the resource: roles elsewhere count for nothing.
other_roles_irrelevant :
    (flag : Bool) (p q : Principal) (a : Action) (r : Resource)
    → p.user_id ≡ q.user_id
    → p.sysadmin ≡ q.sysadmin
    → role_in p r.org_id ≡ role_in q r.org_id
    → can flag p a r ≡ can flag q a r
unfolding can
other_roles_irrelevant flag p q a r u s m = ground arith

-- Whoever may update or delete a strategy is an orgadmin of its organisation, or an operator there
-- who is its author or a delegate of the author.
pub strategy_edit_needs_role :
    (flag : Bool) (p : Principal) (a : Action) (r : Resource)
    → r.type ≡ strategy
    → is_edit a ≡ true
    → (can flag p a r).allowed ≡ true
    → (role_in p r.org_id ≡ some orgadmin)
      ⊎ ((role_in p r.org_id ≡ some operator) × (owns p r r.author_user_id ≡ true))
unfolding allowed
strategy_edit_needs_role flag p a r t e h = ground (arith, can-allowed flag p a r)

-- Setting the deploy flag takes no permission away.
flag_only_adds :
    (p : Principal) (a : Action) (r : Resource)
    → (can false p a r).allowed ≡ true
    → (can true p a r).allowed ≡ true
unfolding allowed
flag_only_adds p a r h = ground (arith, can-allowed false p a r, can-allowed true p a r)

-- `require` raises exactly when `can` denies, and then with the text of the default rule.
require_iff :
    (flag : Bool) (p : Principal) (a : Action) (r : Resource)
    → require flag p a r
      ≡ (if (can flag p a r).allowed then none else some "no rule matched — denied by default")
unfolding require can
require_iff flag p a r = ground arith
