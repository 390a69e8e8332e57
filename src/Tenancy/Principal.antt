-- ===== src/Tenancy/Principal.antt =====
-- dashboard/principal.py.
use trading_strands.Prelude.{String, Option, none, some, List, [], ◌∷◌, ◌==◌, if◌then◌else◌}
use trading_strands.Prelude.Dict.{Dict, get, put, has}
use trading_strands.Authz.Model.{Role, Principal}
use trading_strands.Tenancy.Store.{User, Membership, Tenants, memberships_for_user, is_sysadmin}

-- what the cookie carries
pub record Session : Type 0 where
  pub user_id : Option String
  pub active_org_id : Option String

-- `if not text`
abbrev pub given : Option String → Option String
given none = none
given (some s) = if s == "" then none else some s

-- `{m.org_id: m.role for m in memberships}`
unfoldable pub roles_of : Dict Role → List Membership → Dict Role
roles_of roles [] = roles
roles_of roles (m ∷ ms) = roles_of (put roles m.org_id m.role) ms

unfoldable pub principal_of : String → User → Tenants → Principal
unfolding roles_of memberships_for_user is_sysadmin
principal_of user_id user t = record {
  user_id = user.user_id;
  email = user.email;
  memberships = roles_of [] (memberships_for_user user_id t);
  sysadmin = is_sysadmin user_id t;
}

-- `principal_from_session`; `None` stands for `SessionInvalidError`
unfoldable pub principal_from_session : Session → Tenants → Option Principal
unfolding principal_of
principal_from_session session t = elim (given session.user_id) [
  | none ↦ none
  | some user_id ↦ elim (get t.users user_id) [
    | none ↦ none
    | some user ↦ some (principal_of user_id user t)
  ]
]

abbrev pub only_org : Dict Role → Option String
only_org ((org_id, r) ∷ []) = some org_id
only_org _ = none

unfoldable pub active_org_id : Session → Principal → Option String
active_org_id session principal = elim (given session.active_org_id) [
  | none ↦ only_org principal.memberships
  | some claimed ↦
      if has principal.memberships claimed then some claimed else only_org principal.memberships
]
