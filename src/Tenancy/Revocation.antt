-- ===== src/Tenancy/Revocation.antt =====
-- The roles that a request is decided by are those of the table at its time.
use trading_strands.Prelude.{
  ap, ℕ, String, ◌≡◌, refl, ◌∙◌, Bool, true, false, not, ◌&&◌, ◌||◌, ◌==◌, Option, none, some, List,
  [], ◌∷◌, arith, if◌then◌else◌, Bool-cases, Option-cases, inl, inr, eq_iff, eq_refl,
}
use trading_strands.Prelude.Dict.{Dict, get, put, has, get-put}
use trading_strands.Authz.Model.{Role, Principal, Resource, Action, market_data, is_read, eq_type}
use trading_strands.Authz.Policy.{role_in, can}
use trading_strands.Authz.Spec.{outsider_denied}
use trading_strands.Tenancy.Store.{
  User, Membership, Tenants, joins, get_row, put_row, delete_row, ok, raised, write_failed,
  add_membership, remove_membership, rows_of_user, memberships_for_user, role_of, is_sysadmin,
}
use trading_strands.Tenancy.Principal.{
  Session, given, roles_of, principal_of, principal_from_session, active_org_id, only_org,
}

get_row-put_row :
    (ms : List Membership) (n : Membership) (u o : String)
    → get_row (put_row ms n) u o
      ≡ (if n.user_id == u && n.org_id == o then some n else get_row ms u o)
unfolding get_row put_row
get_row-put_row [] n u o = refl
get_row-put_row (m ∷ ms) n u o = ground (
  arith,
  get_row-put_row ms n u o,
  eq_iff m.user_id n.user_id,
  eq_iff m.org_id n.org_id,
  eq_iff n.user_id u,
  eq_iff n.org_id o,
  eq_iff m.user_id u,
  eq_iff m.org_id o,
)

get_row-delete_row :
    (ms : List Membership) (u o u' o' : String)
    → get_row (delete_row ms u o) u' o' ≡ (if u == u' && o == o' then none else get_row ms u' o')
unfolding get_row delete_row
get_row-delete_row [] u o u' o' = ground arith
get_row-delete_row (m ∷ ms) u o u' o' = ground (
  arith,
  get_row-delete_row ms u o u' o',
  eq_iff m.user_id u,
  eq_iff m.org_id o,
  eq_iff m.user_id u',
  eq_iff m.org_id o',
  eq_iff u u',
  eq_iff o o',
)

-- Every call of `add_membership`, the failures of its two writes and of the rollback included: the
-- user's side has the new role if the first write succeeds, and either the second or neither it nor
-- the rollback does; no role if the second fails and is rolled back; and what it had if the first
-- fails. The organisation's side has the new role if both succeed and what it had otherwise. No other
-- pair of user and organisation changes, and the call raises exactly if one of the two writes fails.
pub add_membership_sides :
    (now : ℕ) (first_fails second_fails rollback_fails : Bool) (u o : String) (role : Role)
    (t : Tenants) (u' o' : String)
    → let (answer, t') = add_membership now first_fails second_fails rollback_fails u o role t in
      let m : Membership = record { user_id = u; org_id = o; role = role; created_at = now } in
      let same = u == u' && o == o' in
      (answer ≡ (if first_fails || second_fails then raised write_failed else ok m))
      × (get_row t'.user_orgs u' o' ≡ (
          if same && not first_fails
          then (if second_fails && not rollback_fails then none else some m)
          else get_row t.user_orgs u' o'))
      × (get_row t'.org_users u' o' ≡ (
          if same && not (first_fails || second_fails) then some m else get_row t.org_users u' o'))
unfolding add_membership
add_membership_sides now first_fails second_fails rollback_fails u o role t u' o' =
    let m : Membership = record { user_id = u; org_id = o; role = role; created_at = now } in
    (
      ground arith,
      ground (
        arith,
        get_row-put_row t.user_orgs m u' o',
        get_row-delete_row (put_row t.user_orgs m) u o u' o',
      ),
      ground (arith, get_row-put_row t.org_users m u' o'),
    )

-- The user's side after a removal whose first deletion succeeds.
remove_membership-user_orgs :
    (second_fails : Bool) (u o : String) (t : Tenants)
    → let t' = (remove_membership false second_fails u o t).1 in
      (t'.user_orgs ≡ delete_row t.user_orgs u o) × (t'.sysadmins ≡ t.sysadmins)
unfolding remove_membership
remove_membership-user_orgs second_fails u o t = ground arith

get-roles_of :
    (roles : Dict Role) (ms : List Membership) (u o : String)
    → get_row ms u o ≡ none
    → get (roles_of roles (rows_of_user u ms)) o ≡ get roles o
unfolding get_row rows_of_user roles_of
get-roles_of roles [] u o h = refl
get-roles_of roles (m ∷ ms) u o h = ground (
  arith,
  h,
  get-roles_of roles ms u o,
  get-roles_of (put roles m.org_id m.role) ms u o,
  get-put roles m.org_id o m.role,
)

role_of-none : (u o : String) (t : Tenants) → role_of u o t ≡ none → get_row t.user_orgs u o ≡ none
unfolding role_of
role_of-none u o t h = ground arith

-- One row at most for each user and organisation.
unfoldable pub IsUnique : List Membership → Type 0
IsUnique [] = Unit
IsUnique (m ∷ ms) = (get_row ms m.user_id m.org_id ≡ none) × IsUnique ms

put_row-IsUnique : (ms : List Membership) (n : Membership) → IsUnique ms → IsUnique (put_row ms n)
unfolding IsUnique put_row get_row
put_row-IsUnique [] n h = (refl, tt)
put_row-IsUnique (m ∷ ms) n (h, hs) = elim (Bool-cases (joins n.user_id n.org_id m)) [
  | inl y ↦ rw y (ground (arith, h, y, eq_iff m.user_id n.user_id, eq_iff m.org_id n.org_id), hs)
  | inr o ↦ rw o (
    get_row-put_row ms n m.user_id m.org_id
        ∙ ground (
          arith,
          h,
          o,
          eq_iff m.user_id n.user_id,
          eq_iff m.org_id n.org_id,
          eq_iff n.user_id m.user_id,
          eq_iff n.org_id m.org_id,
        ),
    put_row-IsUnique ms n hs,
  )
]

delete_row-IsUnique :
    (ms : List Membership) (u o : String) → IsUnique ms → IsUnique (delete_row ms u o)
unfolding IsUnique delete_row
delete_row-IsUnique [] u o h = tt
delete_row-IsUnique (m ∷ ms) u o (h, hs) = elim (Bool-cases (joins u o m)) [
  | inl y ↦ rw y (delete_row-IsUnique ms u o hs)
  | inr n ↦ rw n (
    get_row-delete_row ms u o m.user_id m.org_id ∙ ground (arith, h),
    delete_row-IsUnique ms u o hs,
  )
]

-- what a user's roles say of an organisation, by the user's row
get-roles_of_row :
    (roles : Dict Role) (ms : List Membership) (u o : String)
    → IsUnique ms
    → get (roles_of roles (rows_of_user u ms)) o
      ≡ elim (get_row ms u o) as (λ _. Option Role) [ none ↦ get roles o | some m ↦ some m.role ]
unfolding IsUnique get_row rows_of_user roles_of
get-roles_of_row roles [] u o h = refl
get-roles_of_row roles (m ∷ ms) u o (h, hs) = elim (Bool-cases (m.user_id == u)) [
  | inr n ↦ ground (arith, n, get-roles_of_row roles ms u o hs)
  | inl y ↦ elim (Bool-cases (m.org_id == o)) [
    | inr n ↦ ground (
      arith,
      y,
      n,
      get-roles_of_row (put roles m.org_id m.role) ms u o hs,
      get-put roles m.org_id o m.role,
    )
    | inl z ↦
        let e : get_row ms u o ≡ none =
          ground (arith, h, y, z, eq_iff m.user_id u, eq_iff m.org_id o) in
        ground (
          arith,
          y,
          z,
          get-roles_of (put roles m.org_id m.role) ms u o e,
          get-put roles m.org_id o m.role,
        )
  ]
]

principal_from_session-principal_of :
    (session : Session) (t : Tenants) (u : String) (p : Principal)
    → given session.user_id ≡ some u
    → principal_from_session session t ≡ some p
    → (user : User) × (p ≡ principal_of u user t)
unfolding principal_from_session
principal_from_session-principal_of session t u p g h = elim (Option-cases (get t.users u)) [
  | inl n ↦ absurd (ground (arith, g, h, n))
  | inr (user, e) ↦ (user, ground (arith, g, h, e))
]

-- The principal of a request has in every organisation the role, or none, that the table then holds
-- for the user, and is a sysadmin exactly if the table says so.
pub principal_roles :
    (session : Session) (t : Tenants) (u : String) (p : Principal) (o : String)
    → IsUnique t.user_orgs
    → given session.user_id ≡ some u
    → principal_from_session session t ≡ some p
    → (get p.memberships o ≡ role_of u o t) × (p.sysadmin ≡ is_sysadmin u t)
unfolding principal_of memberships_for_user role_of get
principal_roles session t u p o unique g h =
    let (user, e) = principal_from_session-principal_of session t u p g h in
    rw e (get-roles_of_row [] t.user_orgs u o unique, refl)

-- A removal takes effect at the next request, also where the deletion on the organisation's side then
-- fails: the user, if no sysadmin, is denied every action on every resource of the organisation,
-- except reading or listing market data.
pub revoked_denied :
    (session : Session) (t : Tenants) (second_fails : Bool) (u o : String) (p : Principal)
    (flag : Bool) (a : Action) (r : Resource)
    → given session.user_id ≡ some u
    → principal_from_session session (remove_membership false second_fails u o t).1 ≡ some p
    → is_sysadmin u t ≡ false
    → r.org_id ≡ some o
    → (can flag p a r).allowed ≡ eq_type r.type market_data && is_read a
unfolding principal_of memberships_for_user role_in is_sysadmin get
revoked_denied session t second_fails u o p flag a r g h s e =
    let t' = (remove_membership false second_fails u o t).1 in
    let (rows, admins) = remove_membership-user_orgs second_fails u o t in
    let (user, x) = principal_from_session-principal_of session t' u p g h in
    let gone : get_row t'.user_orgs u o ≡ none =
      ap (λ ms. get_row ms u o) rows
      ∙ get_row-delete_row t.user_orgs u o u o
      ∙ ground (arith, eq_refl u, eq_refl o) in
    outsider_denied flag p a r (rw x (ap (λ d. has d u) admins ∙ s))
      (rw (e, x) (get-roles_of [] t'.user_orgs u o gone))

only_org-has : (d : Dict Role) (o : String) → only_org d ≡ some o → has d o ≡ true
unfolding get
only_org-has [] o h = ground arith
only_org-has ((k, r) ∷ []) o h = ground (arith, h, eq_refl o)
only_org-has (x ∷ y ∷ d) o h = ground arith

-- The organisation that a request works in is one that its principal is a member of.
active_org_id_member :
    (session : Session) (p : Principal) (o : String)
    → active_org_id session p ≡ some o
    → has p.memberships o ≡ true
unfolding active_org_id
active_org_id_member session p o h = elim (Option-cases (given session.active_org_id)) [
  | inl n ↦ only_org-has p.memberships o (ground (arith, n, h))
  | inr (c, e) ↦ elim (Bool-cases (has p.memberships c)) [
    | inl y ↦ ground (arith, e, y, h)
    | inr n ↦ only_org-has p.memberships o (ground (arith, e, n, h))
  ]
]
