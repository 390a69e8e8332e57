-- ===== src/Tenancy/Store.antt =====
-- tenancy/store.py. The rows of each kind are kept under the ids that their keys are made of; new ids
-- and the times of the calls are arguments, and so is what Python makes of an email address.
-- A write that fails is an argument of its operation. The texts of errors are left out.
use trading_strands.Prelude.{
  ℕ, String, Bool, true, false, Option, none, some, List, [], ◌∷◌, ◌==◌, ◌&&◌, if◌then◌else◌,
}
use trading_strands.Prelude.Dict.{Dict, get, put, remove, has}
use trading_strands.Authz.Model.{Role}

pub data OrgType : Type 0 where
  system customer : OrgType

-- settings are not modelled
pub record Org : Type 0 where
  pub org_id : String
  pub name : String
  pub org_type : OrgType
  pub created_at : ℕ
  pub updated_at : ℕ

pub record User : Type 0 where
  pub user_id : String
  pub email : String
  pub cognito_sub : Option String
  pub display_name : String
  pub display_timezone : String
  pub last_active_org_id : Option String
  pub created_at : ℕ
  pub updated_at : ℕ

pub record Membership : Type 0 where
  pub user_id : String
  pub org_id : String
  pub role : Role
  pub created_at : ℕ

-- `ORG#`, `USER#`, `USEREMAIL#`, `USERORG#`, `ORGUSER#` and `SYSADMIN#`
pub record Tenants : Type 0 where
  pub orgs : Dict Org
  pub users : Dict User
  pub emails : Dict String
  pub user_orgs : List Membership
  pub org_users : List Membership
  pub sysadmins : Dict ℕ

-- the row of a user in an organisation
abbrev pub joins : String → String → Membership → Bool
joins user_id org_id m = m.user_id == user_id && m.org_id == org_id

unfoldable pub get_row : List Membership → String → String → Option Membership
get_row [] user_id org_id = none
get_row (m ∷ ms) user_id org_id =
    if joins user_id org_id m then some m else get_row ms user_id org_id

unfoldable pub put_row : List Membership → Membership → List Membership
put_row [] n = n ∷ []
put_row (m ∷ ms) n =
    let rest = put_row ms n in if joins n.user_id n.org_id m then n ∷ ms else m ∷ rest

unfoldable pub delete_row : List Membership → String → String → List Membership
delete_row [] user_id org_id = []
delete_row (m ∷ ms) user_id org_id =
    let rest = delete_row ms user_id org_id in if joins user_id org_id m then rest else m ∷ rest

-- errors that the store raises; `write_failed` stands for any other exception of the table
pub data TenancyError : Type 0 where
  email_already_in_use not_found condition_failed write_failed : TenancyError

pub data Result (A : Type 0) : Type 0 where
  ok : A → Result A
  raised : TenancyError → Result A

unfoldable pub create_org : String → ℕ → String → OrgType → Tenants → Result Org × Tenants
create_org new_id now name org_type t =
    let org : Org = record {
      org_id = new_id;
      name = name;
      org_type = org_type;
      created_at = now;
      updated_at = now;
    } in
    if has t.orgs new_id
    then (raised condition_failed, t)
    else (ok org, record t { orgs = put t.orgs new_id org })

unfoldable pub get_org : String → Tenants → Result Org
get_org org_id t = elim (get t.orgs org_id) [ none ↦ raised not_found | some org ↦ ok org ]

unfoldable pub values {ℓ} : {V : Type ℓ} → Dict V → List V
values [] = []
values ((k, v) ∷ d) = v ∷ values d

unfoldable pub list_orgs : Tenants → List Org
unfolding values
list_orgs t = values t.orgs

abbrev pub is_system : OrgType → Bool
is_system system = true
is_system customer = false

unfoldable pub first_system : List Org → Option Org
first_system [] = none
first_system (org ∷ orgs) = if is_system org.org_type then some org else first_system orgs

unfoldable pub find_system_org : Tenants → Option Org
unfolding first_system list_orgs
find_system_org t = first_system (list_orgs t)

unfoldable pub get_user : String → Tenants → Result User
get_user user_id t = elim (get t.users user_id) [ none ↦ raised not_found | some user ↦ ok user ]

unfoldable pub list_users : Tenants → List User
unfolding values
list_users t = values t.users

-- `user_put_fails` says that the second write raises; the index row is then deleted
module _ (lower_strip : String → String) where
  unfoldable pub create_user :
      String → ℕ → Bool → String → Option String → String → Tenants → Result User × Tenants
  create_user new_id now user_put_fails email cognito_sub display_name t =
      let email_lower = lower_strip email in
      let user : User = record {
        user_id = new_id;
        email = email;
        cognito_sub = cognito_sub;
        display_name = display_name;
        display_timezone = "UTC";
        last_active_org_id = none;
        created_at = now;
        updated_at = now;
      } in
      let indexed = record t { emails = put t.emails email_lower new_id } in
      if has t.emails email_lower
      then (raised email_already_in_use, t)
      else if user_put_fails
      then (raised write_failed, record indexed { emails = remove indexed.emails email_lower })
      else (ok user, record indexed { users = put t.users new_id user })

  unfoldable pub find_user_by_email : String → Tenants → Option User
  find_user_by_email email t = elim (get t.emails (lower_strip email)) [
    | none ↦ none
    | some user_id ↦ get t.users user_id
  ]

unfoldable pub set_last_active_org : ℕ → String → Option String → Tenants → Result Unit × Tenants
set_last_active_org now user_id org_id t = elim (get t.users user_id) [
  | none ↦ (raised condition_failed, t)
  | some user ↦ (
    ok tt,
    record t {
      users = put t.users user_id (record user { last_active_org_id = org_id; updated_at = now });
    },
  )
]

-- `first_put_fails` and `second_put_fails` say which of the two writes raises, and `rollback_fails`
-- whether the deletion that follows the second does
unfoldable pub add_membership :
    ℕ → Bool → Bool → Bool → String → String → Role → Tenants → Result Membership × Tenants
unfolding put_row delete_row
add_membership now first_put_fails second_put_fails rollback_fails user_id org_id role t =
    let m : Membership = record {
      user_id = user_id;
      org_id = org_id;
      role = role;
      created_at = now;
    } in
    let t' = record t { user_orgs = put_row t.user_orgs m } in
    if first_put_fails
    then (raised write_failed, t)
    else if second_put_fails
    then (
      raised write_failed,
      if rollback_fails
          then t'
          else record t' { user_orgs = delete_row t'.user_orgs user_id org_id },
    )
    else (ok m, record t' { org_users = put_row t.org_users m })

-- `first_fails` and `second_fails` say which of the two deletions raises
unfoldable pub remove_membership : Bool → Bool → String → String → Tenants → Result Unit × Tenants
unfolding delete_row
remove_membership first_fails second_fails user_id org_id t =
    let t' = record t { user_orgs = delete_row t.user_orgs user_id org_id } in
    if first_fails
    then (raised write_failed, t)
    else if second_fails
    then (raised write_failed, t')
    else (ok tt, record t' { org_users = delete_row t.org_users user_id org_id })

unfoldable pub rows_of_user : String → List Membership → List Membership
rows_of_user user_id [] = []
rows_of_user user_id (m ∷ ms) =
    let rest = rows_of_user user_id ms in if m.user_id == user_id then m ∷ rest else rest

unfoldable pub memberships_for_user : String → Tenants → List Membership
unfolding rows_of_user
memberships_for_user user_id t = rows_of_user user_id t.user_orgs

unfoldable pub rows_of_org : String → List Membership → List Membership
rows_of_org org_id [] = []
rows_of_org org_id (m ∷ ms) =
    let rest = rows_of_org org_id ms in if m.org_id == org_id then m ∷ rest else rest

unfoldable pub memberships_for_org : String → Tenants → List Membership
unfolding rows_of_org
memberships_for_org org_id t = rows_of_org org_id t.org_users

unfoldable pub role_of : String → String → Tenants → Option Role
unfolding get_row
role_of user_id org_id t = elim (get_row t.user_orgs user_id org_id) [
  | none ↦ none
  | some m ↦ some m.role
]

unfoldable pub grant_sysadmin : ℕ → String → Tenants → Tenants
grant_sysadmin now user_id t = record t { sysadmins = put t.sysadmins user_id now }

unfoldable pub revoke_sysadmin : String → Tenants → Tenants
revoke_sysadmin user_id t = record t { sysadmins = remove t.sysadmins user_id }

unfoldable pub is_sysadmin : String → Tenants → Bool
is_sysadmin user_id t = has t.sysadmins user_id
