-- ===== src/Float.antt =====
-- Floating-point scores. Python's `float` and numpy's scalars are not code of the repository: what
-- the program does with a score is this interface, and `IsOrdered` is the documented behaviour of
-- `<` on floats other than NaN.
use mathlib.Core.Path.{◌≡◌}
use nexusfeed.Prelude.{ℕ, ◌*◌, ◌/◌, ◌+◌, ◌-◌, Bool, true, false, ltb, arith}

pub record Float (W : Type 0) : Type 0 where
  pub lt : W → W → Bool
  -- a literal, as a numerator over a denominator: 1.10 is `lit 11 10`
  pub lit : ℕ → ℕ → W
  pub add : W → W → W
  pub sub : W → W → W
  pub mul : W → W → W
  pub div : W → W → W

abbrev pub zero_score : {W : Type 0} ⦃f : Float W⦄ → W
zero_score ⦃f⦄ = f.lit 0 1

-- On numbers `<` is a strict weak order.
pub record IsOrdered (W : Type 0) ⦃f : Float W⦄ : Type 0 where
  pub irrefl : (x : W) → f.lt x x ≡ false
  pub asym : (x y : W) → f.lt x y ≡ true → f.lt y x ≡ false
  pub co_trans : (x y z : W) → f.lt x y ≡ false → f.lt y z ≡ false → f.lt x z ≡ false

-- The laws can be met: hundredths, rounded down.
abbrev pub hundredths : Float ℕ
hundredths = record {
  lt = ltb;
  lit = λ n d. n * 100 / d;
  add = λ x y. x + y;
  sub = λ x y. x - y;
  mul = λ x y. x * y / 100;
  div = λ x y. x * 100 / y;
}

pub hundredths-IsOrdered : IsOrdered ℕ ⦃f = hundredths⦄
hundredths-IsOrdered = record {
  irrefl = λ x. ground arith;
  asym = λ x y h. ground arith;
  co_trans = λ x y z h k. ground arith;
}

-- A fraction of a count, rounded down, as `int(count * fraction)`.
pub record Fraction : Type 0 where
  pub numerator : ℕ
  pub denominator : ℕ

abbrev pub int_fraction : ℕ → Fraction → ℕ
int_fraction count q = count * q.numerator / q.denominator

-- Counts as sort keys.
abbrev pub counts : Float ℕ
counts = record {
  lt = ltb;
  lit = λ n d. n / d;
  add = λ x y. x + y;
  sub = λ x y. x - y;
  mul = λ x y. x * y;
  div = λ x y. x / y;
}

pub counts-IsOrdered : IsOrdered ℕ ⦃f = counts⦄
counts-IsOrdered = record {
  irrefl = λ x. ground arith;
  asym = λ x y h. ground arith;
  co_trans = λ x y z h k. ground arith;
}
