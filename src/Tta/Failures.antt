-- ===== src/Tta/Failures.antt =====
-- When `evaluate` raises.
use trading_strands.Prelude.{
  String, ◌≡◌, ◌≢◌, ◌∙◌, ap, Bool, true, false, Option, none, some, arith, ◌⊎◌, inl, inr, eq_iff,
  Bool-cases, ◌==◌,
}
use trading_strands.Prelude.Int.{ℤ}
use trading_strands.Prelude.Dict.{get}
use trading_strands.Tta.{
  Context, Predicate, Predicates, all_of, any_of, negation, cross, comparison, invalid, nil, cons,
  Outcome, truth, known_op, eval_comparison, eval_cross, negate, and_then, or_then, evaluate,
  evaluate_all, evaluate_any,
}
use trading_strands.Tta.Meaning.{IsOperator, IsWellFormed, Fires}
use trading_strands.Tta.Semantics.{evaluate_decides}

-- No direction of a crossing.
abbrev pub IsNoDirection : String → Type 0
IsNoDirection d = (d ≢ "above") × (d ≢ "below")

-- The field is there now and before, and the direction is unknown.
pub record Undirected (d : String) (f : Option String) (ctx before : Context) : Type 0 where
  pub name : String
  pub now : ℤ
  pub was : ℤ
  pub named : f ≡ some name
  pub is : get ctx name ≡ some now
  pub had : get before name ≡ some was
  pub no_direction : IsNoDirection d

-- The evaluation comes to a part that raises: a form without keys, a value that is missing or cannot
-- be read, an unknown operator, a crossing without a field or in an unknown direction; the parts of a
-- list before it are well formed and do not decide the list.
abbrev mutual
  pub Fails : Predicate → Context → Option Context → Type 0
  Fails (all_of ps) ctx prev = SomeFailsAll ps ctx prev
  Fails (any_of ps) ctx prev = SomeFailsAny ps ctx prev
  Fails (negation p) ctx prev = Fails p ctx prev
  Fails (cross d f v) ctx none = ⊥
  Fails (cross d f v) ctx (some before) = (f ≡ none) ⊎ ((v ≡ none) ⊎ Undirected d f ctx before)
  Fails (comparison f op v) ctx prev = (v ≡ none) ⊎ (¬ IsOperator op)
  Fails invalid ctx prev = Unit {0}

  pub SomeFailsAll : Predicates → Context → Option Context → Type 0
  SomeFailsAll nil ctx prev = ⊥
  SomeFailsAll (cons p ps) ctx prev =
      Fails p ctx prev ⊎ (IsWellFormed p × Fires p ctx prev × SomeFailsAll ps ctx prev)

  pub SomeFailsAny : Predicates → Context → Option Context → Type 0
  SomeFailsAny nil ctx prev = ⊥
  SomeFailsAny (cons p ps) ctx prev =
      Fails p ctx prev ⊎ (IsWellFormed p × (¬ Fires p ctx prev) × SomeFailsAny ps ctx prev)

-- The outcome is an exception.
abbrev pub raises : Outcome → Bool
raises (truth b) = false
raises _ = true

raises-negate : (o : Outcome) → raises o ≡ true → raises (negate o) ≡ true
unfolding negate
raises-negate o h = ground arith

raises-and_then : (o q : Outcome) → raises o ≡ true → raises (and_then o q) ≡ true
unfolding and_then
raises-and_then o q h = ground arith

raises-or_then : (o q : Outcome) → raises o ≡ true → raises (or_then o q) ≡ true
unfolding or_then
raises-or_then o q h = ground arith

and_then_goes : (o q : Outcome) → o ≡ truth true → and_then o q ≡ q
unfolding and_then
and_then_goes o q h = ground arith

or_then_goes : (o q : Outcome) → o ≡ truth false → or_then o q ≡ q
unfolding or_then
or_then_goes o q h = ground arith

known_named : (op : String) → known_op op ≡ true → IsOperator op
unfolding known_op
known_named op h = elim (Bool-cases (op == "gt")) [
  | inl e ↦ inl ((eq_iff op "gt").0 e)
  | inr n1 ↦ elim (Bool-cases (op == "lt")) [
    | inl e ↦ inr (inl ((eq_iff op "lt").0 e))
    | inr n2 ↦ elim (Bool-cases (op == "gte")) [
      | inl e ↦ inr (inr (inl ((eq_iff op "gte").0 e)))
      | inr n3 ↦ elim (Bool-cases (op == "lte")) [
        | inl e ↦ inr (inr (inr (inl ((eq_iff op "lte").0 e))))
        | inr n4 ↦ inr (inr (inr (inr ((eq_iff op "eq").0 (ground (arith, n1, n2, n3, n4, h))))))
      ]
    ]
  ]
]

unknown : (op : String) → (¬ IsOperator op) → known_op op ≡ false
unknown op n = elim (Bool-cases (known_op op)) [ inl y ↦ absurd (n (known_named op y)) | inr f ↦ f ]

raises-eval_comparison :
    (f op : String) (v : Option ℤ) (ctx : Context)
    → (v ≡ none) ⊎ (¬ IsOperator op)
    → raises (eval_comparison f op v ctx) ≡ true
unfolding eval_comparison
raises-eval_comparison f op none ctx h = ground arith
raises-eval_comparison f op (some t) ctx (inl e) = cc
raises-eval_comparison f op (some t) ctx (inr n) = ground (arith, unknown op n)

raises-undirected :
    (d : String) (g : String) (t now was : ℤ) (ctx before : Context)
    → get ctx g ≡ some now
    → get before g ≡ some was
    → IsNoDirection d
    → raises (eval_cross d (some g) (some t) ctx (some before)) ≡ true
unfolding eval_cross
raises-undirected d g t now was ctx before a b n =
    rw (a, b) (ground (arith, n.0, n.1, eq_iff d "above", eq_iff d "below"))

raises-eval_cross :
    (d : String) (f : Option String) (v : Option ℤ) (ctx before : Context)
    → (f ≡ none) ⊎ ((v ≡ none) ⊎ Undirected d f ctx before)
    → raises (eval_cross d f v ctx (some before)) ≡ true
raises-eval_cross d none v ctx before h = unfold eval_cross in ground arith
raises-eval_cross d (some f) none ctx before h = unfold eval_cross in ground arith
raises-eval_cross d (some f) (some t) ctx before (inl e) = cc
raises-eval_cross d (some f) (some t) ctx before (inr (inl e)) = cc
raises-eval_cross d (some f) (some t) ctx before (inr (inr x)) =
    let same : f ≡ x.name = ground (arith, x.named) in
    raises-undirected d f t x.now x.was ctx before (rw same x.is) (rw same x.had) x.no_direction

fired_true :
    (p : Predicate) (ctx : Context) (prev : Option Context)
    → IsWellFormed p
    → Fires p ctx prev
    → evaluate p ctx prev ≡ truth true
fired_true p ctx prev w h = (evaluate_decides p ctx prev w).1.1 h

silent_false :
    (p : Predicate) (ctx : Context) (prev : Option Context)
    → IsWellFormed p
    → (¬ Fires p ctx prev)
    → evaluate p ctx prev ≡ truth false
silent_false p ctx prev w n =
    let ((b, e), (says, _)) = evaluate_decides p ctx prev w in
    elim (Bool-cases b) [ inl y ↦ absurd (n (says (e ∙ ap truth y))) | inr f ↦ e ∙ ap truth f ]

mutual
  unfolding evaluate

  -- Where the evaluation comes to a part that raises, it raises.
  pub evaluate-Fails :
      (p : Predicate) (ctx : Context) (prev : Option Context)
      → Fails p ctx prev
      → raises (evaluate p ctx prev) ≡ true
  evaluate-Fails (all_of ps) ctx prev h = evaluate_all-Fails ps ctx prev h
  evaluate-Fails (any_of ps) ctx prev h = evaluate_any-Fails ps ctx prev h
  evaluate-Fails (negation p) ctx prev h =
      raises-negate (evaluate p ctx prev) (evaluate-Fails p ctx prev h)
  evaluate-Fails (cross d f v) ctx none h = absurd h
  evaluate-Fails (cross d f v) ctx (some before) h = raises-eval_cross d f v ctx before h
  evaluate-Fails (comparison f op v) ctx prev h = raises-eval_comparison f op v ctx h
  evaluate-Fails invalid ctx prev h = ground arith

  evaluate_all-Fails :
      (ps : Predicates) (ctx : Context) (prev : Option Context)
      → SomeFailsAll ps ctx prev
      → raises (evaluate_all ps ctx prev) ≡ true
  evaluate_all-Fails nil ctx prev h = absurd h
  evaluate_all-Fails (cons p ps) ctx prev (inl h) =
      raises-and_then (evaluate p ctx prev) (evaluate_all ps ctx prev) (evaluate-Fails p ctx prev h)
  evaluate_all-Fails (cons p ps) ctx prev (inr (w, f, h)) =
      ap raises
        (and_then_goes (evaluate p ctx prev) (evaluate_all ps ctx prev) (fired_true p ctx prev w f))
      ∙ evaluate_all-Fails ps ctx prev h

  evaluate_any-Fails :
      (ps : Predicates) (ctx : Context) (prev : Option Context)
      → SomeFailsAny ps ctx prev
      → raises (evaluate_any ps ctx prev) ≡ true
  evaluate_any-Fails nil ctx prev h = absurd h
  evaluate_any-Fails (cons p ps) ctx prev (inl h) =
      raises-or_then (evaluate p ctx prev) (evaluate_any ps ctx prev) (evaluate-Fails p ctx prev h)
  evaluate_any-Fails (cons p ps) ctx prev (inr (w, n, h)) =
      ap raises (
        or_then_goes (evaluate p ctx prev) (evaluate_any ps ctx prev) (silent_false p ctx prev w n))
      ∙ evaluate_any-Fails ps ctx prev h
