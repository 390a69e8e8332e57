-- ===== src/Tta.antt =====
-- Trigger predicates: ir/tta.py. A predicate is JSON; the data type has a constructor for each form,
-- in the order in which `evaluate` looks for its key, and `invalid` for a form that has none. A value
-- that is missing or that `Decimal` cannot read is `None`, and so is the field of a crossing that has none.
pub mod Meaning
pub mod Leaves
pub mod Semantics
pub mod Failures
use trading_strands.Prelude.{
  String, Bool, true, false, not, Option, none, some, ◌==◌, ◌&&◌, if◌then◌else◌,
}
use trading_strands.Prelude.Int.{ℤ, ltb_ℤ, leb_ℤ, eqb_ℤ}
use trading_strands.Prelude.Dict.{Dict, get}

abbrev pub Context : Type 0
Context = Dict ℤ

mutual
  pub data Predicate : Type 0 where
    all_of : Predicates → Predicate
    any_of : Predicates → Predicate
    negation : Predicate → Predicate
    cross : String → Option String → Option ℤ → Predicate
    comparison : String → String → Option ℤ → Predicate
    invalid : Predicate

  pub data Predicates : Type 0 where
    nil : Predicates
    cons : Predicate → Predicates → Predicates

-- a truth value, or one of the exceptions; `bad_value` is a `KeyError` or the exception of `Decimal`
pub data Outcome : Type 0 where
  truth : Bool → Outcome
  invalid_predicate bad_value unknown_operator unknown_direction : Outcome

-- `_OPS[op](a, b)`; `None` for a name that is not in the table
unfoldable pub apply_op : String → ℤ → ℤ → Option Bool
apply_op op a b =
    if op == "gt"
    then some (ltb_ℤ b a)
    else if op == "lt"
    then some (ltb_ℤ a b)
    else if op == "gte"
    then some (leb_ℤ b a)
    else if op == "lte"
    then some (leb_ℤ a b)
    else if op == "eq"
    then some (eqb_ℤ a b)
    else none

-- `op not in _OPS`
unfoldable pub known_op : String → Bool
known_op op =
    if op == "gt"
    then true
    else if op == "lt"
    then true
    else if op == "gte"
    then true
    else if op == "lte"
    then true
    else op == "eq"

compare_field : String → Option ℤ → ℤ → Outcome
compare_field op none value = truth false
compare_field op (some actual) value = elim (apply_op op actual value) [
  | none ↦ unknown_operator
  | some b ↦ truth b
]

unfoldable pub eval_comparison : String → String → Option ℤ → Context → Outcome
unfolding compare_field
eval_comparison field op none ctx = bad_value
eval_comparison field op (some value) ctx =
    if not (known_op op) then unknown_operator else compare_field op (get ctx field) value

cross_values : String → Option ℤ → Option ℤ → ℤ → Outcome
cross_values direction none previous threshold = truth false
cross_values direction (some current) none threshold = truth false
cross_values direction (some current) (some previous) threshold =
    if direction == "above"
    then truth (leb_ℤ previous threshold && ltb_ℤ threshold current)
    else if direction == "below"
    then truth (leb_ℤ threshold previous && ltb_ℤ current threshold)
    else unknown_direction

unfoldable pub eval_cross : String → Option String → Option ℤ → Context → Option Context → Outcome
unfolding cross_values
eval_cross direction field value ctx none = truth false
eval_cross direction none value ctx (some prev) = bad_value
eval_cross direction (some field) none ctx (some prev) = bad_value
eval_cross direction (some field) (some threshold) ctx (some prev) =
    cross_values direction (get ctx field) (get prev field) threshold

unfoldable pub negate : Outcome → Outcome
negate (truth b) = truth (not b)
negate e = e

-- `all` and `any` stop at the first value that decides, and at an exception
unfoldable pub and_then : Outcome → Outcome → Outcome
and_then (truth true) rest = rest
and_then stop rest = stop

unfoldable pub or_then : Outcome → Outcome → Outcome
or_then (truth false) rest = rest
or_then stop rest = stop

unfoldable mutual
  unfolding eval_comparison eval_cross negate and_then or_then

  pub evaluate : Predicate → Context → Option Context → Outcome
  evaluate (all_of ps) ctx prev = evaluate_all ps ctx prev
  evaluate (any_of ps) ctx prev = evaluate_any ps ctx prev
  evaluate (negation p) ctx prev = negate (evaluate p ctx prev)
  evaluate (cross direction field value) ctx prev = eval_cross direction field value ctx prev
  evaluate (comparison field op value) ctx prev = eval_comparison field op value ctx
  evaluate invalid ctx prev = invalid_predicate

  pub evaluate_all : Predicates → Context → Option Context → Outcome
  evaluate_all nil ctx prev = truth true
  evaluate_all (cons p ps) ctx prev = and_then (evaluate p ctx prev) (evaluate_all ps ctx prev)

  pub evaluate_any : Predicates → Context → Option Context → Outcome
  evaluate_any nil ctx prev = truth false
  evaluate_any (cons p ps) ctx prev = or_then (evaluate p ctx prev) (evaluate_any ps ctx prev)
