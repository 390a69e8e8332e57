-- ===== src/Decimal.antt =====
-- Amounts of Python's `decimal`. A run of the program meets finitely many amounts, so they are
-- counted in one unit, a power of ten that is fine enough for all of them: an amount is an integer,
-- and sums, differences and comparisons are those of the integers (sums that need more than the 28
-- digits of the decimal context are outside the model). Products and quotients are rounded by the
-- context, so they are parameters, with the laws that rounding keeps.
use trading_strands.Prelude.{ℕ, suc, ◌/◌, ◌*◌, ◌≤◌, ◌<◌, arith}
use native.Mathlib.Nat.{le-div_iff_mul-le, div-mul-le_self, le_trans}
use trading_strands.Prelude.Int.{ℤ, pos, negsuc, sub_ℕ, ◌*ℤ◌, ◌≤ℤ◌, ◌<ℤ◌, pos_part}

pub record Decimals : Type 0 where
  pub mul : ℤ → ℤ → ℤ
  pub div : ℤ → ℤ → ℤ
  -- the amount 1, in units
  pub one : ℤ
  -- rounding is monotone, so multiplying by c ≥ 0 and dividing by c > 0 are
  pub mul_mono : (a b c : ℤ) → pos 0 ≤ℤ c → a ≤ℤ b → mul a c ≤ℤ mul b c
  pub div_mono : (a b c : ℤ) → pos 0 <ℤ c → a ≤ℤ b → div a c ≤ℤ div b c

abbrev pub zero_ℤ : ℤ
zero_ℤ = pos 0

-- An instance for tests: whole units, with the quotient rounded towards zero.
unfoldable pub quot_ℤ : ℤ → ℤ → ℤ
quot_ℤ (pos a) c = pos (a / pos_part c)
quot_ℤ (negsuc a) c = sub_ℕ 0 (suc a / pos_part c)

mul-le : (a b c : ℕ) → a ≤ b → a * c ≤ b * c
mul-le a b c h = grind arith

div-le : (a b c : ℕ) → 0 < c → a ≤ b → a / c ≤ b / c
div-le a b c p h = (le-div_iff_mul-le p).1 (le_trans (div-mul-le_self a c) h)

pub *ℤ_mono : (a b c : ℤ) → pos 0 ≤ℤ c → a ≤ℤ b → a *ℤ c ≤ℤ b *ℤ c
unfolding ◌*ℤ◌
*ℤ_mono (pos a) (pos b) (pos c) p h = ground (arith, mul-le a b c)
*ℤ_mono a b (negsuc c) p h = absurd (omega arith)
*ℤ_mono (pos a) (negsuc b) (pos c) p h = absurd (omega arith)
*ℤ_mono (negsuc a) (pos b) (pos c) p h = ground arith
*ℤ_mono (negsuc a) (negsuc b) (pos c) p h = ground (arith, mul-le (suc b) (suc a) c)

pub quot_ℤ_mono : (a b c : ℤ) → pos 0 <ℤ c → a ≤ℤ b → quot_ℤ a c ≤ℤ quot_ℤ b c
unfolding quot_ℤ
quot_ℤ_mono a b (negsuc c) p h = absurd (omega arith)
quot_ℤ_mono (pos a) (pos b) (pos c) p h = ground (arith, div-le a b c)
quot_ℤ_mono (pos a) (negsuc b) (pos c) p h = absurd (omega arith)
quot_ℤ_mono (negsuc a) (pos b) (pos c) p h = ground arith
quot_ℤ_mono (negsuc a) (negsuc b) (pos c) p h = ground (arith, div-le (suc b) (suc a) c)

-- The instance of the tests.
instance abbrev pub whole_units : Decimals
whole_units = record {
  mul = ◌*ℤ◌;
  div = quot_ℤ;
  one = pos 1;
  mul_mono = *ℤ_mono;
  div_mono = quot_ℤ_mono;
}
