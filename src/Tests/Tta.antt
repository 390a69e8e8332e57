-- ===== src/Tests/Tta.antt =====
-- Tests of the trigger predicates: ir/tta.py.
use trading_strands.Prelude.{◌≡◌, refl, ◌↔◌, inl, inr, Bool, true, false, none, some, [], ◌∷◌}
use trading_strands.Prelude.Int.{pos}
use trading_strands.Prelude.Dict.{get}
use trading_strands.Tta.{
  Context, Predicate, all_of, negation, cross, comparison, nil, cons, truth, evaluate, known_op,
  apply_op,
}
use trading_strands.Tta.Meaning.{Fires}
use trading_strands.Tta.Semantics.{evaluate_decides}

abbrev now : Context
now = ("rsi", pos 32) ∷ ("volume", pos 900) ∷ []

abbrev before : Context
before = ("rsi", pos 28) ∷ []

abbrev rising : Predicate
rising = all_of (
    cons (cross "above" (some "rsi") (some (pos 30)))
      (cons (negation (comparison "volume" "lt" (some (pos 500)))) nil))

rising_fires :
    (evaluate rising now (some before) ≡ truth true) × (evaluate rising now none ≡ truth false)
unfolding evaluate get known_op apply_op
rising_fires = (refl, refl)

evaluate_decides_example :
    ((b : Bool) × (evaluate rising now (some before) ≡ truth b))
    × ((evaluate rising now (some before) ≡ truth true) ↔ Fires rising now (some before))
unfolding known_op
evaluate_decides_example =
    evaluate_decides rising now (some before)
      ((inl refl, (pos 30, refl)), ((inr (inl refl), (pos 500, refl)), tt))
