-- ===== src/WhatIf/Summary.antt =====
-- The summary of the trades that were passed on.
use trading_strands.Prelude.{
  ◌≡◌, refl, sym, ◌∙◌, none, some, List, [], ◌∷◌, arith, All, length, ◌⊎◌, inl, inr, Bool-cases,
}
use trading_strands.Prelude.Int.{ℤ, ◌+ℤ◌, ◌≤ℤ◌, ltb_ℤ, int_laws, +ℤ_assoc, +ℤ_zero}
use trading_strands.Decimal.{Decimals, zero_ℤ}
use trading_strands.WhatIf.{
  CounterfactualEntry, WhatIfSummary, WhatIfTracker, unrealized_pnl, sum_pnl, best_of, worst_of,
  missed, summary, summarize,
}

-- One of the entries of a list.
abbrev pub In : CounterfactualEntry → List CounterfactualEntry → Type 0
In e [] = ⊥
In e (x ∷ xs) = (e ≡ x) ⊎ In e xs

module _ ⦃D : Decimals⦄ where
  -- the plain sum of the results
  pub pnl_of : List CounterfactualEntry → ℤ
  pnl_of [] = zero_ℤ
  pnl_of (e ∷ es) = unrealized_pnl e +ℤ pnl_of es

  sum_pnl-pnl_of : (acc : ℤ) (es : List CounterfactualEntry) → sum_pnl acc es ≡ acc +ℤ pnl_of es
  unfolding sum_pnl pnl_of
  sum_pnl-pnl_of acc [] = omega int_laws
  sum_pnl-pnl_of acc (e ∷ es) =
      sum_pnl-pnl_of (acc +ℤ unrealized_pnl e) es ∙ +ℤ_assoc acc (unrealized_pnl e) (pnl_of es)

  best_of-le :
      (b : CounterfactualEntry) (es : List CounterfactualEntry) (m : CounterfactualEntry)
      → best_of b es ≡ m
      → (unrealized_pnl b ≤ℤ unrealized_pnl m) × All (λ e. unrealized_pnl e ≤ℤ unrealized_pnl m) es
  unfolding best_of
  best_of-le b [] m h = (ground arith, tt)
  best_of-le b (e ∷ es) m h = elim (Bool-cases (ltb_ℤ (unrealized_pnl b) (unrealized_pnl e))) [
    | inl t ↦ let (top, rest) = best_of-le e es m (rw t at h) in (ground (arith, top), (top, rest))
    | inr t ↦ let (top, rest) = best_of-le b es m (rw t at h) in (top, (ground (arith, top), rest))
  ]

  best_of-In :
      (b : CounterfactualEntry) (es : List CounterfactualEntry) (m : CounterfactualEntry)
      → best_of b es ≡ m
      → In m (b ∷ es)
  unfolding best_of
  best_of-In b [] m h = inl (sym h)
  best_of-In b (e ∷ es) m h = elim (Bool-cases (ltb_ℤ (unrealized_pnl b) (unrealized_pnl e))) [
    | inl t ↦ inr (best_of-In e es m (rw t at h))
    | inr t ↦ elim (best_of-In b es m (rw t at h)) [ inl x ↦ inl x | inr x ↦ inr (inr x) ]
  ]

  worst_of-le :
      (b : CounterfactualEntry) (es : List CounterfactualEntry) (m : CounterfactualEntry)
      → worst_of b es ≡ m
      → (unrealized_pnl m ≤ℤ unrealized_pnl b) × All (λ e. unrealized_pnl m ≤ℤ unrealized_pnl e) es
  unfolding worst_of
  worst_of-le b [] m h = (ground arith, tt)
  worst_of-le b (e ∷ es) m h = elim (Bool-cases (ltb_ℤ (unrealized_pnl e) (unrealized_pnl b))) [
    | inl t ↦ let (top, rest) = worst_of-le e es m (rw t at h) in (ground (arith, top), (top, rest))
    | inr t ↦ let (top, rest) = worst_of-le b es m (rw t at h) in (top, (ground (arith, top), rest))
  ]

  worst_of-In :
      (b : CounterfactualEntry) (es : List CounterfactualEntry) (m : CounterfactualEntry)
      → worst_of b es ≡ m
      → In m (b ∷ es)
  unfolding worst_of
  worst_of-In b [] m h = inl (sym h)
  worst_of-In b (e ∷ es) m h = elim (Bool-cases (ltb_ℤ (unrealized_pnl e) (unrealized_pnl b))) [
    | inl t ↦ inr (worst_of-In e es m (rw t at h))
    | inr t ↦ elim (worst_of-In b es m (rw t at h)) [ inl x ↦ inl x | inr x ↦ inr (inr x) ]
  ]

  -- A summary of entries: their number, the sum of their results, and two of them between whose
  -- results all the others lie.
  pub record Sums (es : List CounterfactualEntry) (s : WhatIfSummary) : Type 0 where
    pub counted : s.total_entries ≡ length es
    pub total : s.total_unrealized_pnl ≡ pnl_of es
    pub extremes :
        ((es ≡ []) × (s.best_missed ≡ none) × (s.worst_missed ≡ none))
        ⊎ ((best : CounterfactualEntry) × (worst : CounterfactualEntry) × In best es
            × In worst es
            × (s.best_missed ≡ some (missed best))
            × (s.worst_missed ≡ some (missed worst))
            × All
                (λ e.
                  (unrealized_pnl worst ≤ℤ unrealized_pnl e)
                  × (unrealized_pnl e ≤ℤ unrealized_pnl best))
                es)

  All-both :
      (l h : CounterfactualEntry) (es : List CounterfactualEntry)
      → All (λ e. unrealized_pnl l ≤ℤ unrealized_pnl e) es
      → All (λ e. unrealized_pnl e ≤ℤ unrealized_pnl h) es
      → All
          (λ e. (unrealized_pnl l ≤ℤ unrealized_pnl e) × (unrealized_pnl e ≤ℤ unrealized_pnl h))
          es
  All-both l h [] a b = tt
  All-both l h (e ∷ es) a b = ((a.0, b.0), All-both l h es a.1 b.1)

  summarize-Sums : (es : List CounterfactualEntry) → Sums es (summarize es)
  unfolding summarize pnl_of
  summarize-Sums [] = record { counted = refl; total = refl; extremes = inl (refl, refl, refl) }
  summarize-Sums (e ∷ es) = record {
    counted = refl;
    total = sum_pnl-pnl_of zero_ℤ (e ∷ es) ∙ +ℤ_zero (pnl_of (e ∷ es));
    extremes = inr (
      best_of e es,
      worst_of e es,
      best_of-In e es _ refl,
      worst_of-In e es _ refl,
      refl,
      refl,
      All-both (worst_of e es) (best_of e es) (e ∷ es) (worst_of-le e es _ refl)
          (best_of-le e es _ refl),
    );
  }

  -- The summary of a tracker has the number of its entries, the sum of their results, and, where
  -- there are any, two of them as the best and the worst, between whose results all the others lie.
  summary-Sums : (t : WhatIfTracker) → Sums t.entries (summary t)
  unfolding summary
  summary-Sums t = summarize-Sums t.entries
