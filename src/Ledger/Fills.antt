-- ===== src/Ledger/Fills.antt =====
-- What `record_fill` keeps and what it changes, on every branch, errors included.
use trading_strands.Prelude.{
  [], ◌∷◌, ◌++◌, ◌≡◌, refl, none, some, arith, inl, inr, Option-cases, ap, ◌∙◌,
}
use trading_strands.Prelude.Int.{ℤ, pos, ◌≤ℤ◌, ◌<ℤ◌, ◌+ℤ◌, ◌-ℤ◌, +ℤ_pos, -ℤ_pos, ltb_ℤ→le}
use trading_strands.Decimal.{Decimals}
use trading_strands.Ledger.Model.{
  Side, buy, sell, Fill, Position, Ledger, LedgerError, Outcome, equity, find_position, finish,
  log_fill, burdened_total, average_in, close_out, handle_buy, handle_sell, handle_side,
  record_fill,
}
use trading_strands.Ledger.Positions.{
  ArePositions, find-symbol, find-positive, append-ArePositions, write-ArePositions,
  drop-ArePositions,
}

-- The positions are well formed and the high water mark is not below the equity.
pub record IsValid (l : Ledger) : Type 0 where
  pub positions : ArePositions l.open_positions
  pub marked : equity l ≤ℤ l.high_water_mark

-- The change of the quantity held that a fill stands for.
abbrev pub signed_quantity : Side → ℤ → ℤ
signed_quantity buy q = q
signed_quantity sell q = pos 0 -ℤ q

module _ ⦃D : Decimals⦄ (l : Ledger) (f : Fill) (positive : pos 0 <ℤ f.quantity) where
  average_in-positions :
      (p : Position) (unit : ℤ)
      → ArePositions l.open_positions
      → find_position l.open_positions f.symbol ≡ some p
      → ArePositions (average_in l f p unit).0.open_positions
  unfolding average_in
  average_in-positions p unit v e =
      let total_qty = p.quantity +ℤ f.quantity in
      ground (
        arith,
        find-positive l.open_positions f.symbol p v e,
        find-symbol l.open_positions f.symbol p e,
        +ℤ_pos p.quantity f.quantity,
        write-ArePositions l.open_positions f.symbol (record p {
          burdened_cost_basis =
              D.div (D.mul p.burdened_cost_basis p.quantity +ℤ D.mul unit f.quantity) total_qty;
          quantity = total_qty;
        }),
      )

  handle_buy-positions :
      ArePositions l.open_positions → ArePositions (handle_buy l f).0.open_positions
  unfolding handle_buy
  handle_buy-positions v = elim (Option-cases (find_position l.open_positions f.symbol)) [
    | inl new ↦ ground (
      arith,
      append-ArePositions l.open_positions
          (record {
            symbol = f.symbol;
            quantity = f.quantity;
            burdened_cost_basis = D.div (burdened_total f) f.quantity;
          })
          v positive new,
    )
    | inr (p, e) ↦ ground (arith, average_in-positions p (D.div (burdened_total f) f.quantity) v e)
  ]

  close_out-positions :
      (p : Position)
      → ArePositions l.open_positions
      → find_position l.open_positions f.symbol ≡ some p
      → f.quantity ≤ℤ p.quantity
      → ArePositions (close_out l f p).open_positions
  unfolding close_out
  close_out-positions p v e h =
      let remaining = p.quantity -ℤ f.quantity in
      ground (
        arith,
        find-symbol l.open_positions f.symbol p e,
        -ℤ_pos p.quantity f.quantity h,
        drop-ArePositions l.open_positions f.symbol v,
        write-ArePositions l.open_positions f.symbol (record p { quantity = remaining }) v,
      )

  handle_sell-positions :
      ArePositions l.open_positions → ArePositions (handle_sell l f).0.open_positions
  unfolding handle_sell
  handle_sell-positions v = elim (Option-cases (find_position l.open_positions f.symbol)) [
    | inl missing ↦ ground arith
    | inr (p, e) ↦ ground (arith, close_out-positions p v e, ltb_ℤ→le p.quantity f.quantity)
  ]

  pub handle_side-positions :
      (s : Side) → ArePositions l.open_positions → ArePositions (handle_side s l f).0.open_positions
  unfolding handle_side
  handle_side-positions buy v = handle_buy-positions v
  handle_side-positions sell v = handle_sell-positions v

-- The ledger with the fill and its fees at the end of its histories, and nothing else changed.
abbrev pub appended : Ledger → Fill → Ledger
appended l f = record l {
  order_history = l.order_history ++ f ∷ [];
  fee_ledger = l.fee_ledger ++ f.fees ∷ [];
}

module _ ⦃D : Decimals⦄ where
  -- A fill that is refused has changed no position, no profit and no mark.
  handle_side_error :
      (s : Side) (l : Ledger) (f : Fill) (e : LedgerError)
      → (handle_side s l f).1 ≡ some e
      → (handle_side s l f).0 ≡ l
  unfolding handle_side
  handle_side_error buy l f e h = ground arith
  handle_side_error sell l f e h = ground arith

  finish-IsValid :
      (m : Ledger) (o : Outcome)
      → IsValid m
      → ArePositions o.0.open_positions
      → ((e : LedgerError) → o.1 ≡ some e → o.0 ≡ m)
      → IsValid (finish o).0
  unfolding finish
  finish-IsValid m (l, none) v ps h = ground (arith, ltb_ℤ→le l.high_water_mark (equity l))
  finish-IsValid m (l, some e) v ps h = rw (h e refl) v

  log_fill-IsValid : (l : Ledger) (f : Fill) → IsValid l → IsValid (log_fill l f)
  unfolding log_fill equity
  log_fill-IsValid l f v = ground arith

  -- Recording a fill of a positive quantity keeps the ledger valid, also when it raises: every
  -- position is of a positive quantity, no symbol has two, and the equity is not above the mark.
  pub record_fill-IsValid :
      (l : Ledger) (f : Fill) → pos 0 <ℤ f.quantity → IsValid l → IsValid (record_fill l f).0
  unfolding record_fill
  record_fill-IsValid l f q v =
      let m = log_fill l f in
      let w = log_fill-IsValid l f v in
      finish-IsValid m (handle_side f.side m f) w (handle_side-positions m f q f.side w.positions)
        (handle_side_error f.side m f)

  finish_error :
      (o : Outcome) (e : LedgerError) → (finish o).1 ≡ some e → (finish o ≡ o) × (o.1 ≡ some e)
  unfolding finish
  finish_error (l, none) e h = cc
  finish_error (l, some x) e h = (refl, h)

  -- A fill that raises has been appended to the order history and to the fee ledger, and has
  -- changed nothing else.
  pub record_fill_error :
      (l : Ledger) (f : Fill) (e : LedgerError)
      → (record_fill l f).1 ≡ some e
      → (record_fill l f).0 ≡ appended l f
  unfolding record_fill log_fill
  record_fill_error l f e h =
      let (same, raised) = finish_error (handle_side f.side (log_fill l f) f) e h in
      ap (λ (o : Outcome). o.0) same ∙ handle_side_error f.side (log_fill l f) f e raised

pub finish-result : (o : Outcome) → (finish o).1 ≡ o.1
unfolding finish
finish-result (l, none) = refl
finish-result (l, some e) = refl

pub finish-open_positions : (o : Outcome) → (finish o).0.open_positions ≡ o.0.open_positions
unfolding finish
finish-open_positions (l, none) = ground arith
finish-open_positions (l, some e) = refl
