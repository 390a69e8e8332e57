-- ===== src/Ledger/Positions.antt =====
-- The list of open positions as a map from symbols: what is found after each update.
use trading_strands.Prelude.{
  String, ◌≡◌, refl, Option, none, some, List, [], ◌∷◌, ◌++◌, ◌==◌, eq_iff, arith, if◌then◌else◌,
}
use trading_strands.Prelude.Int.{ℤ, pos, ◌<ℤ◌}
use trading_strands.Ledger.Model.{Position, find_position, write_position, drop_position}

-- Every open position is of a positive quantity, and no symbol has two.
abbrev pub ArePositions : List Position → Type 0
ArePositions [] = Unit {0}
ArePositions (p ∷ ps) = (pos 0 <ℤ p.quantity) × (find_position ps p.symbol ≡ none) × ArePositions ps

abbrev pub quantity_of : Option Position → ℤ
quantity_of none = pos 0
quantity_of (some p) = p.quantity

-- The quantity held of a symbol.
unfoldable pub held : List Position → String → ℤ
held ps s = quantity_of (find_position ps s)

pub find-symbol :
    (ps : List Position) (s : String) (p : Position) → find_position ps s ≡ some p → p.symbol ≡ s
unfolding find_position
find-symbol [] s p h = cc
find-symbol (q ∷ ps) s p h = ground (arith, eq_iff q.symbol s, find-symbol ps s p)

pub find-positive :
    (ps : List Position) (s : String) (p : Position)
    → ArePositions ps
    → find_position ps s ≡ some p
    → pos 0 <ℤ p.quantity
unfolding find_position
find-positive [] s p v h = cc
find-positive (q ∷ ps) s p v h = ground (arith, find-positive ps s p)

pub find-append :
    (ps : List Position) (p : Position) (j : String)
    → find_position (ps ++ p ∷ []) j ≡ elim (find_position ps j) [
      | none ↦ if p.symbol == j then some p else none
      | some q ↦ some q
    ]
unfolding find_position
find-append [] p j = refl
find-append (q ∷ ps) p j = ground (arith, find-append ps p j)

pub find-write :
    (ps : List Position) (s j : String) (new : Position)
    → new.symbol ≡ s
    → find_position (write_position ps s new) j ≡ elim (find_position ps s) [
      | none ↦ find_position ps j
      | some _ ↦ if s == j then some new else find_position ps j
    ]
unfolding find_position write_position
find-write [] s j new h = refl
find-write (q ∷ ps) s j new h =
    ground (arith, find-write ps s j new h, eq_iff q.symbol s, eq_iff q.symbol j, eq_iff s j)

pub find-drop :
    (ps : List Position) (s j : String)
    → ArePositions ps
    → find_position (drop_position ps s) j ≡ (if s == j then none else find_position ps j)
unfolding find_position drop_position
find-drop [] s j v = ground arith
find-drop (q ∷ ps) s j v =
    ground (arith, find-drop ps s j, eq_iff q.symbol s, eq_iff q.symbol j, eq_iff s j)

pub append-ArePositions :
    (ps : List Position) (p : Position)
    → ArePositions ps
    → pos 0 <ℤ p.quantity
    → find_position ps p.symbol ≡ none
    → ArePositions (ps ++ p ∷ [])
unfolding find_position
append-ArePositions [] p v q n = (q, refl, tt)
append-ArePositions (r ∷ ps) p v q n = ground (
  arith,
  append-ArePositions ps p,
  find-append ps p r.symbol,
  eq_iff r.symbol p.symbol,
  eq_iff p.symbol r.symbol,
)

pub write-ArePositions :
    (ps : List Position) (s : String) (new : Position)
    → ArePositions ps
    → pos 0 <ℤ new.quantity
    → new.symbol ≡ s
    → ArePositions (write_position ps s new)
unfolding write_position
write-ArePositions [] s new v q h = tt
write-ArePositions (r ∷ ps) s new v q h = ground (
  arith,
  write-ArePositions ps s new,
  find-write ps s r.symbol new h,
  eq_iff r.symbol s,
  eq_iff s r.symbol,
)

pub drop-ArePositions :
    (ps : List Position) (s : String) → ArePositions ps → ArePositions (drop_position ps s)
unfolding drop_position
drop-ArePositions [] s v = tt
drop-ArePositions (r ∷ ps) s v = ground (arith, drop-ArePositions ps s, find-drop ps s r.symbol)
