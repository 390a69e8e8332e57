-- ===== src/Ledger/Accounts.antt =====
-- The accounting identity: equity is the capital, plus the cash that the fills have moved, plus the
-- cost of what is still held. It needs that the products and quotients of these fills are exact.
use trading_strands.Prelude.{
  ◌≡◌, Option, none, some, List, [], ◌∷◌, ◌++◌, arith, inl, inr, Option-cases, String, refl, ap,
  ◌∙◌,
}
use trading_strands.Prelude.Int.{ℤ, ◌+ℤ◌, ◌-ℤ◌, int_laws, -ℤ_zero, sub-as_add}
use trading_strands.Decimal.{Decimals, zero_ℤ}
use trading_strands.Ledger.Model.{
  gross_value, burdened_by, total_fees, FeeBreakdown, Side, buy, sell, Fill, Position, Ledger,
  find_position, write_position, drop_position, burdened_total, average_in, open_position,
  close_out, handle_side,
}

module _ ⦃D : Decimals⦄ where
  abbrev cost : Position → ℤ
  cost p = D.mul p.burdened_cost_basis p.quantity

  -- What the open positions have cost.
  unfoldable pub book_value : List Position → ℤ
  book_value [] = zero_ℤ
  book_value (p ∷ ps) = cost p +ℤ book_value ps

  -- All the fees of a fill.
  abbrev charged : FeeBreakdown → ℤ
  charged x =
      x.commission +ℤ x.sec_fee +ℤ x.taf_fee +ℤ x.finra_fee +ℤ x.options_per_contract
      +ℤ x.options_exercise +ℤ x.crypto_spread +ℤ x.crypto_network +ℤ x.other

  -- The cash that a fill brings in: a purchase costs price times quantity and every fee, and a sale
  -- brings price times quantity less every fee.
  abbrev pub cash_flow : Side → Fill → ℤ
  cash_flow buy f = zero_ℤ -ℤ (D.mul f.price f.quantity +ℤ charged f.fees)
  cash_flow sell f = D.mul f.price f.quantity -ℤ charged f.fees

  -- The same by the code's `burdened_total`, for a fill of the side.
  burdened_flow : Side → Fill → ℤ
  burdened_flow buy f = zero_ℤ -ℤ burdened_total f
  burdened_flow sell f = burdened_total f

  burdened_flow-cash_flow : (s : Side) (f : Fill) → f.side ≡ s → burdened_flow s f ≡ cash_flow s f
  unfolding burdened_flow burdened_total gross_value burdened_by total_fees
  burdened_flow-cash_flow buy f e = rw e refl
  burdened_flow-cash_flow sell f e = rw e refl

  -- The quotient and the product that a purchase stores are exact.
  abbrev pub ExactBuy : Option Position → Fill → Type 0
  ExactBuy none f = D.mul (D.div (burdened_total f) f.quantity) f.quantity ≡ burdened_total f
  ExactBuy (some p) f =
      let total_cost = cost p +ℤ burdened_total f in
      let total_qty = p.quantity +ℤ f.quantity in
      (D.mul (D.div (burdened_total f) f.quantity) f.quantity ≡ burdened_total f)
      × (D.mul (D.div total_cost total_qty) total_qty ≡ total_cost)

  -- Taking the sold part off the cost of a position is exact.
  abbrev pub ExactSell : Option Position → Fill → Type 0
  ExactSell none f = Unit {0}
  ExactSell (some p) f =
      D.mul p.burdened_cost_basis (p.quantity -ℤ f.quantity)
      ≡ cost p -ℤ D.mul p.burdened_cost_basis f.quantity

  abbrev pub IsExact : Side → List Position → Fill → Type 0
  IsExact buy ps f = ExactBuy (find_position ps f.symbol) f
  IsExact sell ps f = ExactSell (find_position ps f.symbol) f

  book_value-append :
      (ps : List Position) (p : Position) → book_value (ps ++ p ∷ []) ≡ book_value ps +ℤ cost p
  unfolding book_value
  book_value-append [] p = omega int_laws
  book_value-append (q ∷ ps) p = rw (book_value-append ps p) (omega int_laws)

  book_value-write :
      (ps : List Position) (s : String) (p new : Position)
      → find_position ps s ≡ some p
      → book_value (write_position ps s new) ≡ book_value ps -ℤ cost p +ℤ cost new
  unfolding book_value find_position write_position
  book_value-write [] s p new e = cc
  book_value-write (q ∷ ps) s p new e = grind (int_laws, book_value-write ps s p new)

  book_value-drop :
      (ps : List Position) (s : String) (p : Position)
      → find_position ps s ≡ some p
      → book_value (drop_position ps s) ≡ book_value ps -ℤ cost p
  unfolding book_value find_position drop_position
  book_value-drop [] s p e = cc
  book_value-drop (q ∷ ps) s p e = grind (int_laws, book_value-drop ps s p)

  -- Profit less cost of what is held: what the fills have brought in.
  unfoldable pub net_cash : Ledger → ℤ
  net_cash l = l.realized_pnl -ℤ book_value l.open_positions

  average_in-net_cash :
      (l : Ledger) (f : Fill) (p : Position) (unit : ℤ)
      → find_position l.open_positions f.symbol ≡ some p
      → (average_in l f p unit).1 ≡ none
      → D.mul unit f.quantity ≡ burdened_total f
      → (let total_cost = cost p +ℤ burdened_total f in
          let total_qty = p.quantity +ℤ f.quantity in
          D.mul (D.div total_cost total_qty) total_qty ≡ total_cost)
      → net_cash (average_in l f p unit).0 ≡ net_cash l -ℤ burdened_total f
  unfolding net_cash average_in
  average_in-net_cash l f p unit e h u x =
      let total_qty = p.quantity +ℤ f.quantity in
      let total_cost = cost p +ℤ D.mul unit f.quantity in
      grind (
        int_laws,
        book_value-write l.open_positions f.symbol p
            (record p { burdened_cost_basis = D.div total_cost total_qty; quantity = total_qty }) e,
      )

  open_position-net_cash :
      (l : Ledger) (f : Fill) (unit : ℤ)
      → D.mul unit f.quantity ≡ burdened_total f
      → net_cash (open_position l f unit).0 ≡ net_cash l -ℤ burdened_total f
  unfolding net_cash open_position
  open_position-net_cash l f unit u = rw (book_value-append l.open_positions _, u) (omega int_laws)

  close_out-net_cash :
      (l : Ledger) (f : Fill) (p : Position)
      → find_position l.open_positions f.symbol ≡ some p
      → ExactSell (some p) f
      → net_cash (close_out l f p) ≡ net_cash l +ℤ burdened_total f
  unfolding net_cash close_out
  close_out-net_cash l f p e x =
      let remaining = p.quantity -ℤ f.quantity in
      grind (
        int_laws,
        book_value-drop l.open_positions f.symbol p e,
        book_value-write l.open_positions f.symbol p (record p { quantity = remaining }) e,
        -ℤ_zero p.quantity f.quantity,
      )

  handle_side-burdened :
      (s : Side) (l : Ledger) (f : Fill)
      → (handle_side s l f).1 ≡ none
      → IsExact s l.open_positions f
      → net_cash (handle_side s l f).0 ≡ net_cash l +ℤ burdened_flow s f
  unfolding handle_side burdened_flow
  handle_side-burdened buy l f h x =
      let unit = D.div (burdened_total f) f.quantity in
      elim (Option-cases (find_position l.open_positions f.symbol)) [
        | inl e ↦
            grind
              (arith, sub-as_add (net_cash l) (burdened_total f), open_position-net_cash l f unit)
        | inr (p, e) ↦
            grind
              (arith, sub-as_add (net_cash l) (burdened_total f), average_in-net_cash l f p unit e)
      ]
  handle_side-burdened sell l f h x =
      elim (Option-cases (find_position l.open_positions f.symbol)) [
        | inl e ↦ ground arith
        | inr (p, e) ↦ ground (arith, close_out-net_cash l f p e)
      ]

  pub handle_side-net_cash :
      (l : Ledger) (f : Fill)
      → (handle_side f.side l f).1 ≡ none
      → IsExact f.side l.open_positions f
      → net_cash (handle_side f.side l f).0 ≡ net_cash l +ℤ cash_flow f.side f
  handle_side-net_cash l f h x =
      handle_side-burdened f.side l f h x
      ∙ ap (λ z. net_cash l +ℤ z) (burdened_flow-cash_flow f.side f refl)
