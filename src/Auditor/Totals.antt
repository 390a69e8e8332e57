-- ===== src/Auditor/Totals.antt =====
-- The position check passes exactly when ledgers and broker hold the same of every symbol.
use trading_strands.Prelude.{
  String, ◌≡◌, ◌↔◌, refl, sym, ◌∙◌, ap, Bool, true, false, List, [], ◌∷◌, ◌==◌, ◌||◌, eq_iff,
  eq_refl, arith, if◌then◌else◌, contains, inl, inr, Bool-cases, Option-cases, false≢true,
}
use trading_strands.Prelude.Int.{
  ℤ, ◌+ℤ◌, eqb_ℤ, eqb_ℤ→eq, eqb_ℤ_refl, +ℤ_zero, +ℤ_zero_right, +ℤ_assoc,
}
use trading_strands.Prelude.Dict.{Dict, get, get-put, has}
use trading_strands.Decimal.{zero_ℤ}
use trading_strands.Ledger.Model.{Position, Ledger}
use trading_strands.Coordinator.Types.{BrokerPosition}
use trading_strands.Auditor.Reconciler.{
  is_pass, total_at, add_quantity, add_positions, ledger_totals, broker_totals, keys, union,
  insert_text, sort_texts, mismatches, Mismatch, report_mismatches, reconcile_positions,
}

-- The plain sums: what one list, all ledgers, and the broker hold of a symbol.
pub held_of : List Position → String → ℤ
held_of [] s = zero_ℤ
held_of (p ∷ ps) s = (if p.symbol == s then p.quantity else zero_ℤ) +ℤ held_of ps s

pub ledgers_hold : Dict Ledger → String → ℤ
ledgers_hold [] s = zero_ℤ
ledgers_hold ((bot, l) ∷ ls) s = held_of l.open_positions s +ℤ ledgers_hold ls s

pub broker_holds : List BrokerPosition → String → ℤ
broker_holds [] s = zero_ℤ
broker_holds (p ∷ ps) s = (if p.symbol == s then p.quantity else zero_ℤ) +ℤ broker_holds ps s

total_at-add_quantity :
    (d : Dict ℤ) (k s : String) (q : ℤ)
    → total_at (add_quantity d k q) s ≡ total_at d s +ℤ (if k == s then q else zero_ℤ)
unfolding add_quantity
total_at-add_quantity d k s q = elim (Bool-cases (k == s)) [
  | inl same ↦ ground (arith, get-put d k s (total_at d k +ℤ q), eq_iff k s)
  | inr other ↦ rw (get-put d k s (total_at d k +ℤ q), other) (sym (+ℤ_zero_right (total_at d s)))
]

total_at-add_positions :
    (d : Dict ℤ) (ps : List Position) (s : String)
    → total_at (add_positions d ps) s ≡ total_at d s +ℤ held_of ps s
unfolding add_positions held_of
total_at-add_positions d [] s = sym (+ℤ_zero_right (total_at d s))
total_at-add_positions d (p ∷ ps) s =
    total_at-add_positions (add_quantity d p.symbol p.quantity) ps s
    ∙ ap (λ t. t +ℤ held_of ps s) (total_at-add_quantity d p.symbol s p.quantity)
    ∙ +ℤ_assoc (total_at d s) (if p.symbol == s then p.quantity else zero_ℤ) (held_of ps s)

total_at-ledger_totals :
    (d : Dict ℤ) (ls : Dict Ledger) (s : String)
    → total_at (ledger_totals d ls) s ≡ total_at d s +ℤ ledgers_hold ls s
unfolding ledger_totals ledgers_hold
total_at-ledger_totals d [] s = sym (+ℤ_zero_right (total_at d s))
total_at-ledger_totals d ((bot, l) ∷ ls) s =
    total_at-ledger_totals (add_positions d l.open_positions) ls s
    ∙ ap (λ t. t +ℤ ledgers_hold ls s) (total_at-add_positions d l.open_positions s)
    ∙ +ℤ_assoc (total_at d s) (held_of l.open_positions s) (ledgers_hold ls s)

total_at-broker_totals :
    (d : Dict ℤ) (ps : List BrokerPosition) (s : String)
    → total_at (broker_totals d ps) s ≡ total_at d s +ℤ broker_holds ps s
unfolding broker_totals broker_holds
total_at-broker_totals d [] s = sym (+ℤ_zero_right (total_at d s))
total_at-broker_totals d (p ∷ ps) s =
    total_at-broker_totals (add_quantity d p.symbol p.quantity) ps s
    ∙ ap (λ t. t +ℤ broker_holds ps s) (total_at-add_quantity d p.symbol s p.quantity)
    ∙ +ℤ_assoc (total_at d s) (if p.symbol == s then p.quantity else zero_ℤ) (broker_holds ps s)

contains-keys : (d : Dict ℤ) (s : String) → contains (keys d) s ≡ has d s
unfolding keys get
contains-keys [] s = refl
contains-keys ((k, v) ∷ d) s = ground (arith, contains-keys d s)

contains-union :
    (xs ys : List String) (s : String) → contains (union xs ys) s ≡ (contains xs s || contains ys s)
unfolding union
contains-union [] ys s = refl
contains-union (x ∷ xs) ys s = ground (arith, contains-union xs ys s, eq_iff x s)

contains-insert_text :
    (x : String) (xs : List String) (s : String)
    → contains (insert_text x xs) s ≡ (x == s || contains xs s)
unfolding insert_text
contains-insert_text x [] s = refl
contains-insert_text x (y ∷ ys) s = ground (arith, contains-insert_text x ys s)

contains-sort_texts : (xs : List String) (s : String) → contains (sort_texts xs) s ≡ contains xs s
unfolding sort_texts
contains-sort_texts [] s = refl
contains-sort_texts (x ∷ xs) s =
    contains-insert_text x (sort_texts xs) s ∙ ap (λ b. x == s || b) (contains-sort_texts xs s)

-- The totals of two dictionaries agree at the symbols of a list.
AgreeOn : Dict ℤ → Dict ℤ → List String → Type 0
AgreeOn a b ss = (s : String) → contains ss s ≡ true → total_at a s ≡ total_at b s

is_clean : List Mismatch → Bool
is_clean [] = true
is_clean (m ∷ ms) = false

report-is_clean : (ms : List Mismatch) → is_pass (report_mismatches ms).status ≡ is_clean ms
unfolding report_mismatches is_clean
report-is_clean [] = refl
report-is_clean (m ∷ ms) = refl

unclean :
    (a b : Dict ℤ) (x : String) (ss : List String)
    → eqb_ℤ (total_at a x) (total_at b x) ≡ false
    → is_clean (mismatches a b (x ∷ ss)) ≡ false
unfolding is_clean mismatches
unclean a b x ss differs = rw differs refl

clean→AgreeOn :
    (a b : Dict ℤ) (ss : List String) → is_clean (mismatches a b ss) ≡ true → AgreeOn a b ss
unfolding AgreeOn is_clean mismatches
clean→AgreeOn a b [] h s c = absurd (false≢true c)
clean→AgreeOn a b (x ∷ ss) h s c = elim (Bool-cases (eqb_ℤ (total_at a x) (total_at b x))) [
  | inr differs ↦ absurd (false≢true (sym (unclean a b x ss differs) ∙ h))
  | inl same ↦ elim (Bool-cases (x == s)) [
    | inl here ↦
        ap (total_at a) (sym ((eq_iff x s).0 here))
        ∙ eqb_ℤ→eq _ _ same
        ∙ ap (total_at b) ((eq_iff x s).0 here)
    | inr there ↦ clean→AgreeOn a b ss (ground arith) s (ground arith)
  ]
]

AgreeOn→clean :
    (a b : Dict ℤ) (ss : List String) → AgreeOn a b ss → is_clean (mismatches a b ss) ≡ true
unfolding AgreeOn is_clean mismatches
AgreeOn→clean a b [] agree = refl
AgreeOn→clean a b (x ∷ ss) agree =
    let here = agree x (rw (eq_refl x) refl) in
    let rest = AgreeOn→clean a b ss (λ s c. agree s (ground arith)) in
    rw here (rw (eqb_ℤ_refl (total_at b x)) rest)

has_total : (d : Dict ℤ) (s : String) → has d s ≡ false → total_at d s ≡ zero_ℤ
has_total d s h = elim (Option-cases (get d s)) [
  | inl missing ↦ ground arith
  | inr (v, found) ↦ ground arith
]

agree_on :
    (a b : Dict ℤ) (ss : List String)
    → ((s : String) → total_at a s ≡ total_at b s)
    → AgreeOn a b ss
unfolding AgreeOn
agree_on a b ss same s c = same s

AgreeOn-union :
    (a b : Dict ℤ)
    → AgreeOn a b (sort_texts (union (keys a) (keys b)))
    → (s : String) → total_at a s ≡ total_at b s
unfolding AgreeOn
AgreeOn-union a b agree s =
    let found =
      contains-sort_texts (union (keys a) (keys b)) s ∙ contains-union (keys a) (keys b) s in
    elim (Bool-cases (contains (sort_texts (union (keys a) (keys b))) s)) [
      | inl c ↦ agree s c
      | inr c ↦
          has_total a s (ground (arith, contains-keys a s, found))
          ∙ sym (has_total b s (ground (arith, contains-keys b s, found)))
    ]

+ℤ_zero_left : (a : ℤ) → zero_ℤ +ℤ a ≡ a
+ℤ_zero_left a = +ℤ_zero a

ledger_side : (ls : Dict Ledger) (s : String) → total_at (ledger_totals [] ls) s ≡ ledgers_hold ls s
unfolding get
ledger_side ls s = total_at-ledger_totals [] ls s ∙ +ℤ_zero_left (ledgers_hold ls s)

broker_side :
    (ps : List BrokerPosition) (s : String) → total_at (broker_totals [] ps) s ≡ broker_holds ps s
unfolding get
broker_side ps s = total_at-broker_totals [] ps s ∙ +ℤ_zero_left (broker_holds ps s)

-- The position check passes exactly when, for every symbol, what the open positions of all ledgers
-- sum to is what the broker's positions sum to.
pub reconcile_positions_iff :
    (ls : Dict Ledger) (ps : List BrokerPosition)
    → (is_pass (reconcile_positions ls ps).status ≡ true)
      ↔ ((s : String) → ledgers_hold ls s ≡ broker_holds ps s)
unfolding reconcile_positions
reconcile_positions_iff ls ps =
    let a = ledger_totals [] ls in
    let b = broker_totals [] ps in
    let ss = sort_texts (union (keys a) (keys b)) in
    (
      λ h s.
          sym (ledger_side ls s)
          ∙ AgreeOn-union a b (clean→AgreeOn a b ss (sym (report-is_clean (mismatches a b ss)) ∙ h))
              s
          ∙ broker_side ps s,
      λ agree.
          report-is_clean (mismatches a b ss)
          ∙ AgreeOn→clean a b ss
              (agree_on a b ss (λ s. ledger_side ls s ∙ agree s ∙ sym (broker_side ps s))),
    )
