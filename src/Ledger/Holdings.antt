-- ===== src/Ledger/Holdings.antt =====
-- What is held after a fill, and which fills are refused: the ledger as a map from symbols to
-- quantities.
use trading_strands.Prelude.{
  String, ◌≡◌, Option, none, some, List, [], ◌∷◌, ◌==◌, eq_iff, arith, if◌then◌else◌, inl, inr,
  Option-cases, ap, sym, ◌∙◌, All,
}
use trading_strands.Prelude.Int.{
  ℤ, pos, ◌≤ℤ◌, ◌<ℤ◌, ◌+ℤ◌, ◌-ℤ◌, ltb_ℤ, eqb_ℤ, +ℤ_pos, -ℤ_zero, -ℤ_self, +ℤ_zero, eqb_ℤ→eq,
}
use trading_strands.Decimal.{Decimals, zero_ℤ}
use trading_strands.Ledger.Model.{
  Side, buy, sell, Fill, Position, Ledger, LedgerError, no_position, exceeds_held, find_position,
  log_fill, burdened_total, handle_side, record_fill, record_fills,
}
use trading_strands.Ledger.Fills.{
  IsValid, record_fill-IsValid, finish-result, finish-open_positions,
}
use trading_strands.Ledger.Positions.{
  ArePositions, held, find-symbol, find-positive, find-append, find-write, find-drop,
}

-- When a fill is refused, by what is held.
abbrev pub refusal : Side → ℤ → ℤ → Option LedgerError
refusal buy h q = none
refusal sell h q =
    if eqb_ℤ h zero_ℤ then some no_position else if ltb_ℤ h q then some exceeds_held else none

-- What is held afterwards, by what was held before.
abbrev pub held_after : Side → ℤ → ℤ → ℤ
held_after buy h q = h +ℤ q
held_after sell h q = h -ℤ q

module _ ⦃D : Decimals⦄ (l : Ledger) (f : Fill) (positive : pos 0 <ℤ f.quantity) where
  handle_side-refusal :
      (s : Side)
      → ArePositions l.open_positions
      → (handle_side s l f).1 ≡ refusal s (held l.open_positions f.symbol) f.quantity
  unfolding handle_side held
  handle_side-refusal buy v = elim (Option-cases (find_position l.open_positions f.symbol)) [
    | inl new ↦ ground arith
    | inr (p, e) ↦
        ground (arith, find-positive l.open_positions f.symbol p v e, +ℤ_pos p.quantity f.quantity)
  ]
  handle_side-refusal sell v = elim (Option-cases (find_position l.open_positions f.symbol)) [
    | inl missing ↦ ground arith
    | inr (p, e) ↦ ground (arith, find-positive l.open_positions f.symbol p v e)
  ]

  handle_side-held :
      (s : Side) (j : String)
      → ArePositions l.open_positions
      → (handle_side s l f).1 ≡ none
      → held (handle_side s l f).0.open_positions j ≡ (
          if f.symbol == j
          then held_after s (held l.open_positions j) f.quantity
          else held l.open_positions j)
  unfolding handle_side held
  handle_side-held buy j v h = elim (Option-cases (find_position l.open_positions f.symbol)) [
    | inl new ↦ ground (
      arith,
      find-append l.open_positions
          (record {
            symbol = f.symbol;
            quantity = f.quantity;
            burdened_cost_basis = D.div (burdened_total f) f.quantity;
          })
          j,
      eq_iff f.symbol j,
      +ℤ_zero f.quantity,
    )
    | inr (p, e) ↦
        let total_qty = p.quantity +ℤ f.quantity in
        ground (
          arith,
          find-symbol l.open_positions f.symbol p e,
          find-write l.open_positions f.symbol j (record p {
            burdened_cost_basis =
                D.div
                  (D.mul p.burdened_cost_basis p.quantity
                    +ℤ D.mul (D.div (burdened_total f) f.quantity) f.quantity)
                  total_qty;
            quantity = total_qty;
          }),
          eq_iff f.symbol j,
        )
  ]
  handle_side-held sell j v h = elim (Option-cases (find_position l.open_positions f.symbol)) [
    | inl missing ↦ ground arith
    | inr (p, e) ↦
        let remaining = p.quantity -ℤ f.quantity in
        ground (
          arith,
          find-symbol l.open_positions f.symbol p e,
          find-drop l.open_positions f.symbol j v,
          find-write l.open_positions f.symbol j (record p { quantity = remaining }),
          -ℤ_zero p.quantity f.quantity,
          -ℤ_self p.quantity,
          eqb_ℤ→eq remaining zero_ℤ,
          eq_iff f.symbol j,
        )
  ]

module _ ⦃D : Decimals⦄ where
  -- In a valid ledger a fill of a positive quantity raises exactly when it sells more of a symbol
  -- than is held: "no open position" where nothing is held, "exceeds held" otherwise.
  pub record_fill_outcome :
      (l : Ledger) (f : Fill)
      → pos 0 <ℤ f.quantity
      → IsValid l
      → (record_fill l f).1 ≡ refusal f.side (held l.open_positions f.symbol) f.quantity
  unfolding record_fill
  record_fill_outcome l f q v =
      finish-result (handle_side f.side (log_fill l f) f)
      ∙ handle_side-refusal (log_fill l f) f q f.side v.positions

  -- A fill that is accepted raises or lowers what is held of its symbol by its quantity, and changes
  -- no other holding.
  pub held-record_fill :
      (l : Ledger) (f : Fill) (j : String)
      → pos 0 <ℤ f.quantity
      → IsValid l
      → (record_fill l f).1 ≡ none
      → held (record_fill l f).0.open_positions j ≡ (
          if f.symbol == j
          then held_after f.side (held l.open_positions j) f.quantity
          else held l.open_positions j)
  unfolding record_fill
  held-record_fill l f j q v h =
      let o = handle_side f.side (log_fill l f) f in
      ap (λ (ps : List Position). held ps j) (finish-open_positions o)
      ∙ handle_side-held (log_fill l f) f q f.side j v.positions (sym (finish-result o) ∙ h)

  -- In a valid ledger no holding is below zero.
  pub held_nonneg : (l : Ledger) (j : String) → IsValid l → pos 0 ≤ℤ held l.open_positions j
  unfolding held
  held_nonneg l j v = elim (Option-cases (find_position l.open_positions j)) [
    | inl e ↦ ground arith
    | inr (p, e) ↦ ground (arith, find-positive l.open_positions j p v.positions e)
  ]

  -- Any fills of positive quantities, refused or not, keep a valid ledger valid.
  pub record_fills-IsValid :
      (l : Ledger) (fs : List Fill)
      → All (λ f. pos 0 <ℤ f.quantity) fs
      → IsValid l
      → IsValid (record_fills l fs)
  unfolding record_fills
  record_fills-IsValid l [] q v = v
  record_fills-IsValid l (f ∷ fs) q v =
      record_fills-IsValid (record_fill l f).0 fs q.1 (record_fill-IsValid l f q.0 v)
