-- ===== src/Tta/Meaning.antt =====
-- What a predicate means, as logic reads it.
use trading_strands.Prelude.{String, ◌≡◌, true, false, Option, none, some, ◌⊎◌}
use trading_strands.Prelude.Int.{ℤ, ◌≤ℤ◌, ◌<ℤ◌}
use trading_strands.Prelude.Dict.{get}
use trading_strands.Tta.{
  Context, Predicate, Predicates, all_of, any_of, negation, cross, comparison, invalid, nil, cons,
  Outcome, truth,
}

-- One of the five operators.
abbrev pub IsOperator : String → Type 0
IsOperator op = (op ≡ "gt") ⊎ ((op ≡ "lt") ⊎ ((op ≡ "gte") ⊎ ((op ≡ "lte") ⊎ (op ≡ "eq"))))

-- The relation of two numbers that an operator stands for.
abbrev pub Relates : String → ℤ → ℤ → Type 0
Relates op a b =
    ((op ≡ "gt") × (b <ℤ a))
    ⊎ (((op ≡ "lt") × (a <ℤ b))
        ⊎ (((op ≡ "gte") × (b ≤ℤ a)) ⊎ (((op ≡ "lte") × (a ≤ℤ b)) ⊎ ((op ≡ "eq") × (a ≡ b)))))

-- The predicate has operators, directions and values that the evaluator knows.
abbrev mutual
  pub IsWellFormed : Predicate → Type 0
  IsWellFormed (all_of ps) = AreWellFormed ps
  IsWellFormed (any_of ps) = AreWellFormed ps
  IsWellFormed (negation p) = IsWellFormed p
  IsWellFormed (cross d none v) = ⊥
  IsWellFormed (cross d (some f) v) = ((d ≡ "above") ⊎ (d ≡ "below")) × ((t : ℤ) × (v ≡ some t))
  IsWellFormed (comparison f op v) = IsOperator op × ((t : ℤ) × (v ≡ some t))
  IsWellFormed invalid = ⊥

  pub AreWellFormed : Predicates → Type 0
  AreWellFormed nil = Unit {0}
  AreWellFormed (cons p ps) = IsWellFormed p × AreWellFormed ps

-- A field has crossed a threshold: it was on one side of it, or at it, and is now on the other.
pub record Crossed (d f : String) (v : Option ℤ) (ctx : Context) (prev : Option Context)
    : Type 0 where
  pub before_ctx : Context
  pub before : ℤ
  pub now : ℤ
  pub threshold : ℤ
  pub had_context : prev ≡ some before_ctx
  pub was : get before_ctx f ≡ some before
  pub is : get ctx f ≡ some now
  pub at_threshold : v ≡ some threshold
  pub moved :
      ((d ≡ "above") × (before ≤ℤ threshold) × (threshold <ℤ now))
      ⊎ ((d ≡ "below") × (threshold ≤ℤ before) × (now <ℤ threshold))

-- A field is there and compares with the value.
pub record Compares (f op : String) (v : Option ℤ) (ctx : Context) : Type 0 where
  pub actual : ℤ
  pub value : ℤ
  pub is : get ctx f ≡ some actual
  pub at_value : v ≡ some value
  pub stands : Relates op actual value

-- The meaning of a predicate, as logic reads it.
abbrev mutual
  pub Fires : Predicate → Context → Option Context → Type 0
  Fires (all_of ps) ctx prev = EachFires ps ctx prev
  Fires (any_of ps) ctx prev = SomeFires ps ctx prev
  Fires (negation p) ctx prev = ¬ Fires p ctx prev
  Fires (cross d none v) ctx prev = ⊥
  Fires (cross d (some f) v) ctx prev = Crossed d f v ctx prev
  Fires (comparison f op v) ctx prev = Compares f op v ctx
  Fires invalid ctx prev = ⊥

  pub EachFires : Predicates → Context → Option Context → Type 0
  EachFires nil ctx prev = Unit {0}
  EachFires (cons p ps) ctx prev = Fires p ctx prev × EachFires ps ctx prev

  pub SomeFires : Predicates → Context → Option Context → Type 0
  SomeFires nil ctx prev = ⊥
  SomeFires (cons p ps) ctx prev = Fires p ctx prev ⊎ SomeFires ps ctx prev

-- The outcome is a truth value, and the right one for `P`.
abbrev pub Decides : Outcome → Type 0 → Type 0
Decides o P = ((o ≡ truth true) × P) ⊎ ((o ≡ truth false) × (¬ P))
