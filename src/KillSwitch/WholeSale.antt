-- ===== src/KillSwitch/WholeSale.antt =====
-- The sale of a whole position: what is left of the list of positions.
use trading_strands.Prelude.{
  ◌≡◌, refl, ap, ◌∙◌, Bool, none, some, List, [], ◌∷◌, ◌++◌, if◌then◌else◌, arith, eq_iff,
}
use trading_strands.Prelude.Int.{ -ℤ_self}
use trading_strands.Decimal.{Decimals}
use trading_strands.Ledger.Model.{
  Fill, Position, Ledger, find_position, drop_position, log_fill, handle_sell, record_fill,
}
use trading_strands.Ledger.Positions.{find-append}
use trading_strands.Ledger.Fills.{finish-result, finish-open_positions}
use trading_strands.Coordinator.Types.{OrderResult}
use trading_strands.KillSwitch.{sell_fill}

-- The positions that a test does not want sold, in their order.
unfoldable pub unwanted : (Position → Bool) → List Position → List Position
unwanted wanted [] = []
unwanted wanted (p ∷ ps) = if wanted p then unwanted wanted ps else p ∷ unwanted wanted ps

-- The positions of a list are of symbols that another list has not.
abbrev pub AreNew : List Position → List Position → Type 0
AreNew kept [] = Unit {0}
AreNew kept (p ∷ ps) = (find_position kept p.symbol ≡ none) × AreNew kept ps

find-middle :
    (kept : List Position) (p : Position) (ps : List Position)
    → find_position kept p.symbol ≡ none
    → find_position (kept ++ p ∷ ps) p.symbol ≡ some p
unfolding find_position
find-middle [] p ps n = ground (arith, eq_iff p.symbol p.symbol)
find-middle (q ∷ kept) p ps n = ground (arith, find-middle kept p ps)

drop-middle :
    (kept : List Position) (p : Position) (ps : List Position)
    → find_position kept p.symbol ≡ none
    → drop_position (kept ++ p ∷ ps) p.symbol ≡ kept ++ ps
unfolding find_position drop_position
drop-middle [] p ps n = ground (arith, eq_iff p.symbol p.symbol)
drop-middle (q ∷ kept) p ps n = ground (arith, drop-middle kept p ps)

module _ ⦃D : Decimals⦄ where
  handle_sell-covered :
      (l : Ledger) (f : Fill) (p : Position)
      → find_position l.open_positions f.symbol ≡ some p
      → f.quantity ≡ p.quantity
      → ((handle_sell l f).1 ≡ none)
        × ((handle_sell l f).0.open_positions ≡ drop_position l.open_positions f.symbol)
  unfolding handle_sell
  handle_sell-covered l f p e q = ground (arith, -ℤ_self p.quantity)

-- The ledger after the sale of a whole position: the position is gone, the others are as before.
module _ ⦃D : Decimals⦄ (kept : List Position) (p : Position) (ps : List Position) where
  handle_sell-whole :
      (l : Ledger) (f : Fill)
      → l.open_positions ≡ kept ++ p ∷ ps
      → find_position kept p.symbol ≡ none
      → f.symbol ≡ p.symbol
      → f.quantity ≡ p.quantity
      → ((handle_sell l f).1 ≡ none) × ((handle_sell l f).0.open_positions ≡ kept ++ ps)
  handle_sell-whole l f e n s q =
      let found =
        ap (λ qs. find_position qs f.symbol) e
        ∙ ap (find_position (kept ++ p ∷ ps)) s
        ∙ find-middle kept p ps n in
      let sold = handle_sell-covered l f p found q in
      (
        sold.0,
        sold.1
            ∙ ap (λ qs. drop_position qs f.symbol) e
            ∙ ap (drop_position (kept ++ p ∷ ps)) s
            ∙ drop-middle kept p ps n,
      )

  pub record_fill-whole :
      (l : Ledger) (r : OrderResult)
      → l.open_positions ≡ kept ++ p ∷ ps
      → find_position kept p.symbol ≡ none
      → r.filled_quantity ≡ p.quantity
      → ((record_fill l (sell_fill p r)).1 ≡ none)
        × ((record_fill l (sell_fill p r)).0.open_positions ≡ kept ++ ps)
  unfolding record_fill sell_fill
  record_fill-whole l r e n q =
      let f = sell_fill p r in
      let sold = handle_sell-whole (log_fill l f) f e n refl q in
      (
        finish-result (handle_sell (log_fill l f) f) ∙ sold.0,
        finish-open_positions (handle_sell (log_fill l f) f) ∙ sold.1,
      )

pub AreNew-append :
    (kept : List Position) (p : Position) (ps : List Position)
    → find_position ps p.symbol ≡ none
    → AreNew kept ps
    → AreNew (kept ++ p ∷ []) ps
unfolding find_position
AreNew-append kept p [] n h = tt
AreNew-append kept p (q ∷ ps) n h = ground (
  arith,
  AreNew-append kept p ps,
  find-append kept p q.symbol,
  eq_iff q.symbol p.symbol,
  eq_iff p.symbol q.symbol,
)

pub append_one :
    (kept : List Position) (p : Position) (ps : List Position)
    → (kept ++ p ∷ []) ++ ps ≡ kept ++ p ∷ ps
append_one [] p ps = refl
append_one (q ∷ kept) p ps = ap (λ r. q ∷ r) (append_one kept p ps)
