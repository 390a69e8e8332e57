-- ===== src/Tests/Strategies.antt =====
-- Tests of the strategies: strategies_store/store.py and models/registry.py.
use trading_strands.Prelude.{
  ℕ, String, ◌≡◌, ◌≢◌, refl, false, none, some, List, [], ◌∷◌, eq_iff, false≢true, arith,
}
use trading_strands.Prelude.Dict.{get, put}
use trading_strands.Authz.Model.{Principal, operator, orgadmin, update}
use trading_strands.Strategies.Models.{resolve_model_id}
use trading_strands.Strategies.Store.{
  StrategyStatus, active, Strategy, StrategyTable, FieldUpdate, org_id, author_user_id, name,
  model_id, unprotected, models_listed, set_fields, set_field, get_strategy, delete, remove_acl,
  acl_users, can_perform,
}
use trading_strands.Strategies.Store
use trading_strands.Strategies.Rights.{update_keeps_rights}
use trading_strands.Strategies.Cleanup.{removed_author_denied}
use trading_strands.Strategies.Resolution.{
  AreResolved, Write, create_write, update_write, delete_write,
}

abbrev plan : String → ℕ → Strategy
plan title at = record {
  strategy_id = "s1";
  org_id = "acme";
  author_user_id = "ann";
  name = title;
  markdown = "";
  symbols = [];
  capital = "1000";
  status = active;
  created_at = 5;
  updated_at = at;
  tools = [];
  skills = [];
  model_id = "";
}

abbrev table : StrategyTable
table = record {
  strategies = ("s1", plan "first" 5) ∷ [];
  acls = record { strategy_id = "s1"; user_id = "bob"; granted_by = "ann"; created_at = 6 } ∷ [];
}

-- bob takes the strategy over, or tries to
abbrev takeover : List FieldUpdate
takeover = org_id "evil" ∷ author_user_id "bob" ∷ name "second" ∷ []

abbrev bob : Principal
bob = record {
  user_id = "bob";
  email = "";
  memberships = ("acme", operator) ∷ [];
  sysadmin = false;
}

before : get_strategy "s1" table ≡ some (plan "first" 5)
unfolding get_strategy get
before = refl

after : get_strategy "s1" (Store.update 9 "s1" takeover table).1 ≡ some (plan "second" 9)
unfolding get_strategy Store.update unprotected models_listed set_fields set_field get put
after = refl

update_keeps_rights_example :
    can_perform false bob update (some (plan "second" 9)) none []
    ≡ can_perform false bob update (some (plan "first" 5)) none []
update_keeps_rights_example =
    update_keeps_rights 9 "s1" takeover table "s1" (plan "first" 5) (plan "second" 9) false bob
      update [] before after

no_orgadmin : get bob.memberships "acme" ≢ some orgadmin
unfolding get
no_orgadmin e = ground (arith, e)

removed_author_denied_example :
    can_perform false bob update
      (some (plan "first" 5))
      none
      (acl_users "s1" (remove_acl "s1" "bob" table))
    ≡ some false
removed_author_denied_example =
    removed_author_denied "s1" "bob" table (plan "first" 5) false bob update refl
      (λ e. false≢true ((eq_iff "ann" "bob").1 e)) no_orgadmin refl

abbrev writes : List Write
writes =
    create_write "s2" 7 "acme" "ann" "new" "" [] "1000" [] [] "no.such.model"
    ∷ update_write 8 "s1" (model_id "openai.gpt-5" ∷ [])
    ∷ delete_write "s2"
    ∷ []

resolved : AreResolved table.strategies
unfolding resolve_model_id
resolved = (refl, tt)
