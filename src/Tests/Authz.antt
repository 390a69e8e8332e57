-- ===== src/Tests/Authz.antt =====
-- Tests of the authorization policy: authz/policy.py.
use trading_strands.Prelude.{◌≡◌, refl, true, false, some, [], ◌∷◌}
use trading_strands.Prelude.Dict.{get}
use trading_strands.Authz.Model.{
  viewer, operator, orgadmin, ResourceType, strategy, alpaca_secret, read, Resource, Principal,
}
use trading_strands.Authz.Policy.{role_in, can}
use trading_strands.Authz.Spec.{allowed, can-allowed}

abbrev admin : Principal
admin = record {
  user_id = "u1";
  email = "a@x";
  memberships = ("acme", orgadmin) ∷ [];
  sysadmin = false;
}

abbrev author : Principal
author = record {
  user_id = "u2";
  email = "b@x";
  memberships = ("acme", operator) ∷ ("zeta", viewer) ∷ [];
  sysadmin = false;
}

abbrev moved_author : Principal
moved_author = record author { memberships = ("zeta", orgadmin) ∷ ("acme", operator) ∷ [] }

abbrev support : Principal
support = record { user_id = "u9"; email = "s@x"; memberships = []; sysadmin = true }

abbrev stranger : Principal
stranger = record { user_id = "u8"; email = "n@x"; memberships = []; sysadmin = false }

abbrev resource : ResourceType → Resource
resource t = record {
  type = t;
  org_id = some "acme";
  author_user_id = some "u2";
  delegated_user_ids = [];
}

sysadmin_sees_no_secret : (can true support read (resource alpaca_secret)).allowed ≡ false
unfolding can role_in get
sysadmin_sees_no_secret = refl

can-allowed_example :
    (can true support read (resource strategy)).allowed
    ≡ allowed true support (resource strategy) (role_in support (some "acme")) strategy read
can-allowed_example = can-allowed true support read (resource strategy)
