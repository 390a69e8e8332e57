-- ===== src/Strategies/Rights.antt =====
-- Who may change a strategy, and which model it runs with.
use trading_strands.Prelude.{
  ℕ, String, ◌≡◌, refl, sym, ◌∙◌, ap, Bool, true, false, false≢true, ◌&&◌, ◌==◌, none, some, List,
  [], ◌∷◌, arith, is_some, Bool-cases, Option-cases, inl, inr, eq_iff,
}
use trading_strands.Prelude.Dict.{get, put, get-put}
use trading_strands.Authz.Model.{Principal, Action, strategy}
use trading_strands.Authz.Policy.{can}
use trading_strands.Strategies.Store.{
  Strategy, StrategyTable, FieldUpdate, pk, strategy_id, org_id, author_user_id, created_at, name,
  markdown, capital, model_id, symbols, skills, status, tools, is_protected, set_field, unprotected,
  models_listed, set_fields, get_strategy, update, resource_for, can_perform,
}

-- the parts of a row that its rights depend on
abbrev pub owner : Strategy → String × String
owner s = (s.org_id, s.author_user_id)

set_field-owner :
    (f : FieldUpdate) (s : Strategy) → is_protected f ≡ false → owner (set_field f s) ≡ owner s
unfolding set_field
set_field-owner (pk v) s h = refl
set_field-owner (strategy_id v) s h = refl
set_field-owner (org_id v) s h = absurd (false≢true (sym h))
set_field-owner (author_user_id v) s h = absurd (false≢true (sym h))
set_field-owner (created_at v) s h = refl
set_field-owner (name v) s h = refl
set_field-owner (markdown v) s h = refl
set_field-owner (capital v) s h = refl
set_field-owner (model_id v) s h = refl
set_field-owner (symbols v) s h = refl
set_field-owner (skills v) s h = refl
set_field-owner (status v) s h = refl
set_field-owner (tools v) s h = refl

set_fields-owner :
    (fs : List FieldUpdate) (s : Strategy) → owner (set_fields (unprotected fs) s) ≡ owner s
unfolding set_fields unprotected
set_fields-owner [] s = refl
set_fields-owner (f ∷ fs) s = elim (Bool-cases (is_protected f)) [
  | inl y ↦ rw y (set_fields-owner fs s)
  | inr n ↦ rw n (set_fields-owner fs (set_field f s) ∙ set_field-owner f s n)
]

pub update-none :
    (now : ℕ) (id : String) (fs : List FieldUpdate) (t : StrategyTable)
    → (models_listed (unprotected fs) && is_some (get t.strategies id)) ≡ false
    → (update now id fs t).1 ≡ t
unfolding update
update-none now id fs t h = elim (Bool-cases (models_listed (unprotected fs))) [
  | inr n ↦ ground arith
  | inl y ↦ elim (Option-cases (get t.strategies id)) [
    | inl e ↦ ground arith
    | inr (s, e) ↦ ground arith
  ]
]

-- the row as an update leaves it
abbrev pub updated : ℕ → List FieldUpdate → Strategy → Strategy
updated now fs s = set_fields (unprotected fs) (record s { updated_at = now })

pub update-some :
    (now : ℕ) (id : String) (fs : List FieldUpdate) (t : StrategyTable) (s : Strategy)
    → models_listed (unprotected fs) ≡ true
    → get t.strategies id ≡ some s
    → (update now id fs t).1.strategies ≡ put t.strategies id (updated now fs s)
unfolding update
update-some now id fs t s h e = ground arith

update-owner :
    (now : ℕ) (id : String) (fs : List FieldUpdate) (t : StrategyTable) (k : String)
    (s s' : Strategy)
    → get_strategy k t ≡ some s
    → get_strategy k (update now id fs t).1 ≡ some s'
    → owner s' ≡ owner s
unfolding get_strategy
update-owner now id fs t k s s' e e' =
    elim (Bool-cases (models_listed (unprotected fs) && is_some (get t.strategies id))) [
      | inr n ↦ ground (arith, update-none now id fs t n)
      | inl y ↦ elim (Option-cases (get t.strategies id)) [
        | inl n ↦ absurd (ground (arith, y, n))
        | inr (r, x) ↦
            let d = update-some now id fs t r (ground (arith, y)) x in
            let g = get-put t.strategies id k (updated now fs r) in
            elim (Bool-cases (id == k)) [
              | inr n ↦ ground (arith, d, g, n, e, e')
              | inl m ↦
                  let same : r ≡ s = ground (arith, eq_iff id k, m, x, e) in
                  let new : s' ≡ updated now fs r = ground (arith, d, g, m, e') in
                  ap owner new ∙ set_fields-owner fs (record r { updated_at = now }) ∙ ap owner same
            ]
      ]
    ]

-- No update changes what anybody may do with a strategy: whatever fields it names, the organisation and
-- the author stay, and with the same co-authors every decision is the same as before.
pub update_keeps_rights :
    (now : ℕ) (id : String) (fs : List FieldUpdate) (t : StrategyTable) (k : String)
    (s s' : Strategy) (flag : Bool) (p : Principal) (a : Action) (acl : List String)
    → get_strategy k t ≡ some s
    → get_strategy k (update now id fs t).1 ≡ some s'
    → can_perform flag p a (some s') none acl ≡ can_perform flag p a (some s) none acl
unfolding can_perform resource_for
update_keeps_rights now id fs t k s s' flag p a acl e e' =
    let o = update-owner now id fs t k s s' e e' in
    ap
      (λ r.
        some
          (can flag p a (record {
            type = strategy;
            org_id = some r.0;
            author_user_id = some r.1;
            delegated_user_ids = acl;
          })).allowed)
      o
