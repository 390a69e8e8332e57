-- ===== src/Strategies/Cleanup.antt =====
-- What a removal takes away, and that every saved model can be resolved.
use trading_strands.Prelude.{
  String, ◌≡◌, ◌≢◌, refl, sym, ◌∙◌, ap, Bool, true, false, false≢true, ◌||◌, ◌⊎◌, ◌==◌, none, some,
  List, [], ◌∷◌, arith, contains, if◌then◌else◌, Bool-cases, inl, inr, eq_iff,
}
use trading_strands.Prelude.Dict.{get, get-remove}
use trading_strands.Authz.Model.{orgadmin, Principal, Action, is_edit}
use trading_strands.Authz.Policy.{can, role_in}
use trading_strands.Authz.Spec.{strategy_edit_needs_role}
use trading_strands.Strategies.Store.{
  Strategy, StrategyAcl, StrategyTable, get_strategy, clear_acls, delete, delete_acl, remove_acl,
  users_of, acl_users, resource_for, can_perform,
}

users_of-delete_acl :
    (id user : String) (acls : List StrategyAcl)
    → contains (users_of id (delete_acl id user acls)) user ≡ false
unfolding users_of delete_acl
users_of-delete_acl id user [] = refl
users_of-delete_acl id user (a ∷ acls) =
    ground (arith, users_of-delete_acl id user acls, eq_iff a.strategy_id id, eq_iff a.user_id user)

-- who may change a strategy
needs :
    (p : Principal) (a : Action) (s : Strategy) (acl : List String) (flag : Bool)
    → is_edit a ≡ true
    → (can flag p a (resource_for s acl)).allowed ≡ true
    → (get p.memberships s.org_id ≡ some orgadmin)
      ⊎ ((p.user_id == s.author_user_id || contains acl p.user_id) ≡ true)
unfolding resource_for role_in
needs p a s acl flag edit y =
    elim (strategy_edit_needs_role flag p a (resource_for s acl) refl edit y) [
      | inl admin ↦ inl admin
      | inr (x, own) ↦ inr own
    ]

not_owner :
    (user : String) (p : Principal) (s : Strategy) (acl : List String)
    → p.user_id ≡ user
    → s.author_user_id ≢ user
    → contains acl user ≡ false
    → (p.user_id == s.author_user_id || contains acl p.user_id) ≡ false
not_owner user p s acl me other gone =
    ground (arith, eq_iff p.user_id s.author_user_id, me, gone, other)

-- A co-author who is taken off a strategy may no longer change or delete it, unless an orgadmin of its
-- organisation or its author.
pub removed_author_denied :
    (id user : String) (t : StrategyTable) (s : Strategy) (flag : Bool) (p : Principal) (a : Action)
    → p.user_id ≡ user
    → s.author_user_id ≢ user
    → get p.memberships s.org_id ≢ some orgadmin
    → is_edit a ≡ true
    → can_perform flag p a (some s) none (acl_users id (remove_acl id user t)) ≡ some false
unfolding can_perform acl_users remove_acl
removed_author_denied id user t s flag p a me other role edit =
    let acl = users_of id (delete_acl id user t.acls) in
    let r = resource_for s acl in
    elim (Bool-cases (can flag p a r).allowed) [
      | inr n ↦ ap some n
      | inl y ↦ absurd (elim (needs p a s acl flag edit y) [
        | inl admin ↦ role admin
        | inr own ↦
            false≢true
              (sym (not_owner user p s acl me other (users_of-delete_acl id user t.acls)) ∙ own)
      ])
    ]

users_of-clear_acls :
    (id k : String) (acls : List StrategyAcl)
    → users_of k (clear_acls id acls) ≡ (if id == k then [] else users_of k acls)
unfolding users_of clear_acls
users_of-clear_acls id k [] = ground arith
users_of-clear_acls id k (a ∷ acls) = ground (
  arith,
  users_of-clear_acls id k acls,
  eq_iff a.strategy_id id,
  eq_iff a.strategy_id k,
  eq_iff id k,
)

-- A deletion removes the row of a strategy and every grant on it, and nothing of any other strategy.
delete_clears :
    (id k : String) (t : StrategyTable)
    → (get_strategy k (delete id t) ≡ (if id == k then none else get_strategy k t))
      × (acl_users k (delete id t) ≡ (if id == k then [] else acl_users k t))
unfolding get_strategy delete acl_users
delete_clears id k t = (get-remove t.strategies id k, users_of-clear_acls id k t.acls)
