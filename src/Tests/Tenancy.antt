-- ===== src/Tests/Tenancy.antt =====
-- Tests of the tenants: tenancy/store.py and dashboard/principal.py. Addresses are taken as they are.
use trading_strands.Prelude.{
  String, ◌≡◌, refl, true, false, not, ◌&&◌, ◌||◌, ◌==◌, none, some, [], ◌∷◌, if◌then◌else◌,
}
use trading_strands.Prelude.Dict.{get, put, has}
use trading_strands.Authz.Model.{
  viewer, operator, Principal, Resource, read, strategy, market_data, is_read, eq_type,
}
use trading_strands.Authz.Policy.{can}
use trading_strands.Tenancy.Store.{
  User, Membership, Tenants, get_row, delete_row, ok, raised, email_already_in_use, write_failed,
  create_user, find_user_by_email, add_membership, remove_membership, memberships_for_user,
  rows_of_user, role_of, is_sysadmin,
}
use trading_strands.Tenancy.Principal.{
  Session, roles_of, principal_of, principal_from_session, active_org_id,
}
use trading_strands.Tenancy.Revocation.{
  IsUnique, add_membership_sides, principal_roles, revoked_denied,
}
use trading_strands.Tenancy.Emails.{new_user, create_user_outcome}

abbrev ann : User
ann = new_user "u1" 5 "ann@acme.io" "Ann" none

abbrev joined : Membership
joined = record { user_id = "u1"; org_id = "acme"; role = operator; created_at = 6 }

abbrev tenants : Tenants
tenants = record {
  orgs = [];
  users = ("u1", ann) ∷ [];
  emails = ("ann@acme.io", "u1") ∷ [];
  user_orgs = joined ∷ [];
  org_users = joined ∷ [];
  sysadmins = [];
}

abbrev session : Session
session = record { user_id = some "u1"; active_org_id = some "acme" }

add_membership_sides_example :
    let (answer, t') = add_membership 9 false true true "u1" "acme" viewer tenants in
    let m : Membership = record {
      user_id = "u1";
      org_id = "acme";
      role = viewer;
      created_at = 9;
    } in
    let same = "u1" == "u1" && "acme" == "acme" in
    (answer ≡ (if false || true then raised write_failed else ok m))
    × (get_row t'.user_orgs "u1" "acme" ≡ (
        if same && not false
        then (if true && not true then none else some m)
        else get_row tenants.user_orgs "u1" "acme"))
    × (get_row t'.org_users "u1" "acme"
        ≡ (if same && not (false || true) then some m else get_row tenants.org_users "u1" "acme"))
add_membership_sides_example =
    add_membership_sides 9 false true true "u1" "acme" viewer tenants "u1" "acme"

abbrev member : Principal
member = record {
  user_id = "u1";
  email = "ann@acme.io";
  memberships = ("acme", operator) ∷ [];
  sysadmin = false;
}

loads : principal_from_session session tenants ≡ some member
unfolding principal_from_session principal_of roles_of memberships_for_user rows_of_user is_sysadmin
    get put
loads = refl

unique : IsUnique tenants.user_orgs
unfolding IsUnique get_row
unique = (refl, tt)

principal_roles_example :
    (get member.memberships "acme" ≡ role_of "u1" "acme" tenants)
    × (member.sysadmin ≡ is_sysadmin "u1" tenants)
principal_roles_example = principal_roles session tenants "u1" member "acme" unique refl loads

abbrev outsider : Principal
outsider = record member { memberships = [] }

loads_after :
    principal_from_session session (remove_membership false true "u1" "acme" tenants).1
    ≡ some outsider
unfolding principal_from_session principal_of roles_of memberships_for_user rows_of_user is_sysadmin
    remove_membership delete_row get put
loads_after = refl

abbrev secret_plan : Resource
secret_plan = record {
  type = strategy;
  org_id = some "acme";
  author_user_id = some "u1";
  delegated_user_ids = [];
}

no_sysadmin : is_sysadmin "u1" tenants ≡ false
unfolding is_sysadmin get
no_sysadmin = refl

revoked_denied_example :
    (can false outsider read secret_plan).allowed
    ≡ eq_type secret_plan.type market_data && is_read read
revoked_denied_example =
    revoked_denied session tenants true "u1" "acme" outsider false read secret_plan refl loads_after
      no_sysadmin refl

works_in : active_org_id session member ≡ some "acme"
unfolding active_org_id get
works_in = refl

abbrev as_is : String → String
as_is email = email

create_user_outcome_example :
    let (r, t') = create_user as_is "u2" 7 false "bob@acme.io" none "Bob" tenants in
    let taken = has tenants.emails (as_is "bob@acme.io") in
    let user = new_user "u2" 7 "bob@acme.io" "Bob" none in
    (r ≡ (
      if taken
      then raised email_already_in_use
      else if false
      then raised write_failed
      else ok user))
    × (find_user_by_email as_is "ann@acme.io" (if taken || false then t' else tenants)
        ≡ find_user_by_email as_is "ann@acme.io" tenants)
    × (find_user_by_email as_is "bob@acme.io" t'
        ≡ (if taken || false then find_user_by_email as_is "bob@acme.io" tenants else some user))
create_user_outcome_example =
    create_user_outcome as_is "u2" 7 false "bob@acme.io" "Bob" none tenants "bob@acme.io"
      "ann@acme.io" refl
