-- ===== src/Tta/Semantics.antt =====
-- `evaluate` decides what a predicate means.
use trading_strands.Prelude.{
  ◌≡◌, refl, sym, Bool, true, false, Option, none, some, arith, ◌⊎◌, inl, inr, ◌↔◌,
}
use trading_strands.Tta.{
  Context, Predicate, Predicates, all_of, any_of, negation, cross, comparison, invalid, nil, cons,
  Outcome, truth, negate, and_then, or_then, evaluate, evaluate_all, evaluate_any,
}
use trading_strands.Tta.Meaning.{IsWellFormed, AreWellFormed, Fires, EachFires, SomeFires, Decides}
use trading_strands.Tta.Leaves.{known_operator, comparison_decides, cross_decides}

negation_decides : (o : Outcome) (P : Type 0) → Decides o P → Decides (negate o) (¬ P)
unfolding negate
negation_decides o P (inl (e, p)) = inr (rw e, λ n. n p)
negation_decides o P (inr (e, n)) = inl (rw e, n)

and_decides :
    (o q : Outcome) (P Q : Type 0) → Decides o P → Decides q Q → Decides (and_then o q) (P × Q)
unfolding and_then
and_decides o q P Q (inr (e, n)) d = inr (rw e, λ h. n h.0)
and_decides o q P Q (inl (e, p)) (inl (f, r)) = inl (rw (e, f), (p, r))
and_decides o q P Q (inl (e, p)) (inr (f, n)) = inr (rw (e, f), λ h. n h.1)

or_decides :
    (o q : Outcome) (P Q : Type 0) → Decides o P → Decides q Q → Decides (or_then o q) (P ⊎ Q)
unfolding or_then
or_decides o q P Q (inl (e, p)) d = inl (rw e, inl p)
or_decides o q P Q (inr (e, n)) (inl (f, r)) = inl (rw (e, f), inr r)
or_decides o q P Q (inr (e, n)) (inr (f, m)) =
    inr (rw (e, f), λ h. elim h [ inl p ↦ n p | inr r ↦ m r ])

mutual
  unfolding evaluate

  pub decides :
      (p : Predicate) (ctx : Context) (prev : Option Context)
      → IsWellFormed p
      → Decides (evaluate p ctx prev) (Fires p ctx prev)
  decides (all_of ps) ctx prev w = decides_all ps ctx prev w
  decides (any_of ps) ctx prev w = decides_any ps ctx prev w
  decides (negation p) ctx prev w =
      negation_decides (evaluate p ctx prev) (Fires p ctx prev) (decides p ctx prev w)
  decides (cross d none v) ctx prev w = absurd w
  decides (cross d (some f) v) ctx prev w = cross_decides d f v w.1.0 ctx prev w.0 w.1.1
  decides (comparison f op v) ctx prev w =
      comparison_decides f op v w.1.0 ctx (known_operator op w.0) w.1.1
  decides invalid ctx prev w = absurd w

  decides_all :
      (ps : Predicates) (ctx : Context) (prev : Option Context)
      → AreWellFormed ps
      → Decides (evaluate_all ps ctx prev) (EachFires ps ctx prev)
  decides_all nil ctx prev w = inl (refl, tt)
  decides_all (cons p ps) ctx prev w =
      and_decides (evaluate p ctx prev) (evaluate_all ps ctx prev) (Fires p ctx prev)
        (EachFires ps ctx prev) (decides p ctx prev w.0) (decides_all ps ctx prev w.1)

  decides_any :
      (ps : Predicates) (ctx : Context) (prev : Option Context)
      → AreWellFormed ps
      → Decides (evaluate_any ps ctx prev) (SomeFires ps ctx prev)
  decides_any nil ctx prev w = inr (refl, λ h. h)
  decides_any (cons p ps) ctx prev w =
      or_decides (evaluate p ctx prev) (evaluate_any ps ctx prev) (Fires p ctx prev)
        (SomeFires ps ctx prev) (decides p ctx prev w.0) (decides_any ps ctx prev w.1)

-- On a well-formed predicate the evaluator raises nothing, stops early or not, and answers true
-- exactly when the predicate fires.
pub evaluate_decides :
    (p : Predicate) (ctx : Context) (prev : Option Context)
    → IsWellFormed p
    → ((b : Bool) × (evaluate p ctx prev ≡ truth b))
      × ((evaluate p ctx prev ≡ truth true) ↔ Fires p ctx prev)
evaluate_decides p ctx prev w = elim (decides p ctx prev w) [
  | inl (e, h) ↦ ((true, e), (λ _. h, λ _. e))
  | inr (e, n) ↦ ((false, e), (λ t. cc, λ h. absurd (n h)))
]

-- The negations of the predicates of a list.
pub negate_each : Predicates → Predicates
negate_each nil = nil
negate_each (cons p ps) = cons (negation p) (negate_each ps)

negate-and_then : (o q : Outcome) → negate (and_then o q) ≡ or_then (negate o) (negate q)
unfolding negate and_then or_then
negate-and_then o q = ground arith

evaluate-negate_each :
    (ps : Predicates) (ctx : Context) (prev : Option Context)
    → evaluate_any (negate_each ps) ctx prev ≡ negate (evaluate_all ps ctx prev)
unfolding evaluate negate_each
evaluate-negate_each nil ctx prev = refl
evaluate-negate_each (cons p ps) ctx prev =
    rw (evaluate-negate_each ps ctx prev)
      (sym (negate-and_then (evaluate p ctx prev) (evaluate_all ps ctx prev)))

-- Negating a conjunction evaluates as the disjunction of the negations does, for any predicates:
-- the same truth value, or the same exception.
de_morgan :
    (ps : Predicates) (ctx : Context) (prev : Option Context)
    → evaluate (negation (all_of ps)) ctx prev ≡ evaluate (any_of (negate_each ps)) ctx prev
unfolding evaluate
de_morgan ps ctx prev = sym (evaluate-negate_each ps ctx prev)
