-- ===== src/Ledger/Equity.antt =====
-- The accounting identity over a run of fills, and the high water mark.
use trading_strands.Prelude.{
  ◌≡◌, ◌⊎◌, refl, Option, none, some, List, [], ◌∷◌, arith, inl, inr, Option-cases, sym, ◌∙◌,
}
use trading_strands.Prelude.Int.{ℤ, ◌≤ℤ◌, ◌+ℤ◌, int_laws, ltb_ℤ→lt, ltb_ℤ→le}
use trading_strands.Decimal.{Decimals, zero_ℤ}
use trading_strands.Ledger.Model.{
  Side, buy, sell, Fill, Ledger, LedgerError, Outcome, new_ledger, equity, finish, log_fill,
  handle_side, record_fill, record_fills,
}
use trading_strands.Ledger.Fills.{finish-result, record_fill_error}
use trading_strands.Ledger.Accounts.{book_value, cash_flow, IsExact, net_cash, handle_side-net_cash}

module _ ⦃D : Decimals⦄ where
  finish-net_cash : (o : Outcome) → net_cash (finish o).0 ≡ net_cash o.0
  unfolding finish net_cash
  finish-net_cash (l, none) = ground arith
  finish-net_cash (l, some e) = refl

  -- An accepted fill moves profit less cost of holdings by exactly its cash flow, where its
  -- products and quotients are exact.
  pub net_cash-record_fill :
      (l : Ledger) (f : Fill)
      → IsExact f.side l.open_positions f
      → (record_fill l f).1 ≡ none
      → net_cash (record_fill l f).0 ≡ net_cash l +ℤ cash_flow f.side f
  unfolding record_fill net_cash
  net_cash-record_fill l f x h =
      let o = handle_side f.side (log_fill l f) f in
      finish-net_cash o ∙ handle_side-net_cash (log_fill l f) f (sym (finish-result o) ∙ h) x

  settled_by : Option LedgerError → ℤ → ℤ
  settled_by none c = c
  settled_by (some e) c = zero_ℤ

  -- The cash that the accepted fills of a run have brought in.
  pub total_settled : Ledger → List Fill → ℤ
  unfolding settled_by
  total_settled l [] = zero_ℤ
  total_settled l (f ∷ fs) =
      settled_by (record_fill l f).1 (cash_flow f.side f) +ℤ total_settled (record_fill l f).0 fs

  abbrev pub AreExact : Ledger → List Fill → Type 0
  AreExact l [] = Unit {0}
  AreExact l (f ∷ fs) = IsExact f.side l.open_positions f × AreExact (record_fill l f).0 fs

  net_cash-settled :
      (l : Ledger) (f : Fill)
      → IsExact f.side l.open_positions f
      → net_cash (record_fill l f).0
        ≡ net_cash l +ℤ settled_by (record_fill l f).1 (cash_flow f.side f)
  unfolding settled_by
  net_cash-settled l f x = elim (Option-cases (record_fill l f).1) [
    | inl ok ↦ rw ok (net_cash-record_fill l f x ok)
    | inr (e, h) ↦ rw (h, record_fill_error l f e h) (unfold net_cash log_fill in omega int_laws)
  ]

  net_cash-record_fills :
      (l : Ledger) (fs : List Fill)
      → AreExact l fs
      → net_cash (record_fills l fs) ≡ net_cash l +ℤ total_settled l fs
  unfolding record_fills total_settled
  net_cash-record_fills l [] x = omega int_laws
  net_cash-record_fills l (f ∷ fs) x =
      rw (net_cash-record_fills (record_fill l f).0 fs x.1, net_cash-settled l f x.0)
        (omega int_laws)

  handle_side-capital : (o : Outcome) → (finish o).0.starting_capital ≡ o.0.starting_capital
  unfolding finish
  handle_side-capital (l, none) = ground arith
  handle_side-capital (l, some e) = refl

  record_fill-capital :
      (l : Ledger) (f : Fill) → (record_fill l f).0.starting_capital ≡ l.starting_capital
  unfolding record_fill
  record_fill-capital l f = handle_side-capital (handle_side f.side (log_fill l f) f) ∙ ground arith

  record_fills-capital :
      (l : Ledger) (fs : List Fill) → (record_fills l fs).starting_capital ≡ l.starting_capital
  unfolding record_fills
  record_fills-capital l [] = refl
  record_fills-capital l (f ∷ fs) =
      record_fills-capital (record_fill l f).0 fs ∙ record_fill-capital l f

  accounts_of :
      (l : Ledger) (c t : ℤ)
      → l.starting_capital ≡ c
      → net_cash l ≡ t
      → equity l ≡ c +ℤ t +ℤ book_value l.open_positions
  unfolding net_cash equity
  accounts_of l c t s h = rw (← s, ← h) (omega int_laws)

  net_cash-new : (c t : ℤ) → net_cash (new_ledger c) +ℤ t ≡ t
  unfolding net_cash new_ledger book_value
  net_cash-new c t = omega int_laws

  -- After any run of fills, refused ones included, equity is the starting capital plus the cash
  -- that the accepted fills have brought in (price times quantity, less all fees of sales and with
  -- all fees of purchases) plus the cost of what is held, where the products and
  -- quotients of the run are exact.
  pub equity_accounts :
      (c : ℤ) (fs : List Fill)
      → AreExact (new_ledger c) fs
      → equity (record_fills (new_ledger c) fs)
        ≡ c
          +ℤ total_settled (new_ledger c) fs
          +ℤ book_value (record_fills (new_ledger c) fs).open_positions
  equity_accounts c fs x =
      accounts_of (record_fills (new_ledger c) fs) c (total_settled (new_ledger c) fs)
        (unfold new_ledger in record_fills-capital (new_ledger c) fs)
        (net_cash-record_fills (new_ledger c) fs x ∙ net_cash-new c _)

  finish-mark :
      (o : Outcome)
      → let l' = (finish o).0 in
        (o.0.high_water_mark ≤ℤ l'.high_water_mark)
        × ((o.1 ≡ none) → equity l' ≤ℤ l'.high_water_mark)
        × ((l'.high_water_mark ≡ o.0.high_water_mark) ⊎ (l'.high_water_mark ≡ equity l'))
  unfolding finish
  finish-mark (l, none) =
      ground (arith, ltb_ℤ→lt l.high_water_mark (equity l), ltb_ℤ→le l.high_water_mark (equity l))
  finish-mark (l, some e) = ground arith

  handle_side-mark :
      (s : Side) (l : Ledger) (f : Fill) → (handle_side s l f).0.high_water_mark ≡ l.high_water_mark
  unfolding handle_side
  handle_side-mark buy l f = ground arith
  handle_side-mark sell l f = ground arith

  -- The high water mark never falls; after an accepted fill it is not below the equity; and it is
  -- the old mark or the new equity.
  high_water_mark-record_fill :
      (l : Ledger) (f : Fill)
      → let l' = (record_fill l f).0 in
        (l.high_water_mark ≤ℤ l'.high_water_mark)
        × ((record_fill l f).1 ≡ none → equity l' ≤ℤ l'.high_water_mark)
        × ((l'.high_water_mark ≡ l.high_water_mark) ⊎ (l'.high_water_mark ≡ equity l'))
  unfolding record_fill
  high_water_mark-record_fill l f =
      let o = handle_side f.side (log_fill l f) f in
      ground (arith, finish-mark o, finish-result o, handle_side-mark f.side (log_fill l f) f)
