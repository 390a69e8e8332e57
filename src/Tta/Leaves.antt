-- ===== src/Tta/Leaves.antt =====
-- `evaluate` on comparisons and crossings.
use trading_strands.Prelude.{
  String, ◌≡◌, refl, ◌∙◌, ap, Bool, true, false, Option, none, some, ◌==◌, ◌&&◌, arith,
  if◌then◌else◌, ◌⊎◌, inl, inr, eq_iff, ◌↔◌, Option-cases, Bool-cases, false≢true,
}
use trading_strands.Prelude.Int.{ℤ, ltb_ℤ, leb_ℤ, ◌≤ℤ◌, ◌<ℤ◌}
use trading_strands.Prelude.Dict.{get}
use trading_strands.Tta.{Context, truth, apply_op, known_op, eval_comparison, eval_cross}
use trading_strands.Tta.Meaning.{IsOperator, Relates, Crossed, Compares, Decides}

known_applies :
    (op : String) (a v : ℤ)
    → known_op op ≡ true
    → (apply_op op a v ≡ some true) ⊎ (apply_op op a v ≡ some false)
unfolding known_op apply_op
known_applies op a v k = ground arith

eval_missing :
    (f op : String) (v : Option ℤ) (t : ℤ) (ctx : Context)
    → known_op op ≡ true
    → v ≡ some t
    → get ctx f ≡ none
    → eval_comparison f op v ctx ≡ truth false
unfolding eval_comparison
eval_missing f op v t ctx k e m = rw e (ground arith)

eval_found :
    (f op : String) (v : Option ℤ) (t : ℤ) (ctx : Context) (a : ℤ) (b : Bool)
    → known_op op ≡ true
    → v ≡ some t
    → get ctx f ≡ some a
    → apply_op op a t ≡ some b
    → eval_comparison f op v ctx ≡ truth b
unfolding eval_comparison
eval_found f op v t ctx a b k e m h = rw e (ground arith)

pub known_operator : (op : String) → IsOperator op → known_op op ≡ true
unfolding known_op
known_operator op h = elim h [
  | inl e ↦ rw e refl
  | inr (inl e) ↦ rw e refl
  | inr (inr (inl e)) ↦ rw e refl
  | inr (inr (inr (inl e))) ↦ rw e refl
  | inr (inr (inr (inr e))) ↦ rw e refl
]

applied_stands : (op : String) (a b : ℤ) → apply_op op a b ≡ some true → Relates op a b
unfolding apply_op
applied_stands op a b h = elim (Bool-cases (op == "gt")) [
  | inl e ↦ inl ((eq_iff op "gt").0 e, ground (arith, e))
  | inr n1 ↦ elim (Bool-cases (op == "lt")) [
    | inl e ↦ inr (inl ((eq_iff op "lt").0 e, ground (arith, n1, e)))
    | inr n2 ↦ elim (Bool-cases (op == "gte")) [
      | inl e ↦ inr (inr (inl ((eq_iff op "gte").0 e, ground (arith, n1, n2, e))))
      | inr n3 ↦ elim (Bool-cases (op == "lte")) [
        | inl e ↦ inr (inr (inr (inl ((eq_iff op "lte").0 e, ground (arith, n1, n2, n3, e)))))
        | inr n4 ↦ elim (Bool-cases (op == "eq")) [
          | inl e ↦ inr (inr (inr (inr ((eq_iff op "eq").0 e, ground (arith, n1, n2, n3, n4, e)))))
          | inr n5 ↦ absurd (ground (arith, n1, n2, n3, n4, n5))
        ]
      ]
    ]
  ]
]

stands_applied : (op : String) (a b : ℤ) → Relates op a b → apply_op op a b ≡ some true
unfolding apply_op
stands_applied op a b h = elim h [
  | inl (e, r) ↦ rw e (ground arith)
  | inr (inl (e, r)) ↦ rw e (ground arith)
  | inr (inr (inl (e, r))) ↦ rw e (ground arith)
  | inr (inr (inr (inl (e, r)))) ↦ rw e (ground arith)
  | inr (inr (inr (inr (e, r)))) ↦ rw e (ground arith)
]

pub comparison_decides :
    (f op : String) (v : Option ℤ) (t : ℤ) (ctx : Context)
    → known_op op ≡ true
    → v ≡ some t
    → Decides (eval_comparison f op v ctx) (Compares f op v ctx)
comparison_decides f op v t ctx k e = elim (Option-cases (get ctx f)) [
  | inl missing ↦ inr (eval_missing f op v t ctx k e missing, λ c. cc (c.is, missing))
  | inr (a, found) ↦ elim (known_applies op a t k) [
    | inl yes_ ↦ inl (
      eval_found f op v t ctx a true k e found yes_,
      record {
        actual = a;
        value = t;
        is = found;
        at_value = e;
        stands = applied_stands op a t yes_;
      },
    )
    | inr no_ ↦ inr (
      eval_found f op v t ctx a false k e found no_,
      λ c. ground (arith, c.is, c.at_value, stands_applied op c.actual c.value c.stands),
    )
  ]
]

-- The truth value of a crossing, once both values are there.
abbrev crossed : String → ℤ → ℤ → ℤ → Bool
crossed d before now t =
    if d == "above" then leb_ℤ before t && ltb_ℤ t now else leb_ℤ t before && ltb_ℤ now t

cross_values_found :
    (d f : String) (t now before : ℤ) (ctx prev : Context)
    → (d ≡ "above") ⊎ (d ≡ "below")
    → get ctx f ≡ some now
    → get prev f ≡ some before
    → eval_cross d (some f) (some t) ctx (some prev) ≡ truth (crossed d before now t)
unfolding eval_cross
cross_values_found d f t now before ctx prev k n b =
    rw (n, b) (ground (arith, eq_iff d "above", eq_iff d "below"))

above≢below : ◌≡◌ {A = String} "above" "below" → ⊥
above≢below p = false≢true ((eq_iff "above" "below").1 p)

moved_iff :
    (d : String) (before now t : ℤ)
    → (d ≡ "above") ⊎ (d ≡ "below")
    → (crossed d before now t ≡ true) ↔ (
        ((d ≡ "above") × (before ≤ℤ t) × (t <ℤ now)) ⊎ ((d ≡ "below") × (t ≤ℤ before) × (now <ℤ t)))
moved_iff d before now t k = (
  λ h. elim k [
    | inl up ↦ inl (up, ground (arith, eq_iff d "above"), ground (arith, eq_iff d "above"))
    | inr down ↦ inr (
      down,
      ground (arith, eq_iff d "above", above≢below),
      ground (arith, eq_iff d "above", above≢below),
    )
  ],
  λ h. ground (arith, eq_iff d "above", above≢below),
)

pub cross_decides :
    (d f : String) (v : Option ℤ) (t : ℤ) (ctx : Context) (prev : Option Context)
    → (d ≡ "above") ⊎ (d ≡ "below")
    → v ≡ some t
    → Decides (eval_cross d (some f) v ctx prev) (Crossed d f v ctx prev)
cross_decides d f v t ctx none k e =
    inr (unfold eval_cross in ground arith, λ c. ground (arith, c.had_context))
cross_decides d f v t ctx (some p) k e = elim (Option-cases (get ctx f)) [
  | inl missing ↦ inr (rw e (unfold eval_cross in ground arith), λ c. ground (arith, c.is))
  | inr (now, found) ↦ elim (Option-cases (get p f)) [
    | inl missing ↦
        inr (rw e (unfold eval_cross in ground arith), λ c. ground (arith, c.had_context, c.was))
    | inr (before, was) ↦
        let value = cross_values_found d f t now before ctx p k found was in
        elim (Bool-cases (crossed d before now t)) [
          | inl up ↦ inl (
            rw e (value ∙ ap truth up),
            record {
              before_ctx = p;
              before = before;
              now = now;
              threshold = t;
              had_context = refl;
              was = was;
              is = found;
              at_threshold = e;
              moved = (moved_iff d before now t k).0 up;
            },
          )
          | inr down ↦ inr (
            rw e (value ∙ ap truth down),
            λ c. cc (
              (moved_iff d c.before c.now c.threshold k).1 c.moved,
              down,
              c.had_context,
              c.was,
              was,
              c.is,
              found,
              c.at_threshold,
              e,
            ),
          )
        ]
  ]
]
