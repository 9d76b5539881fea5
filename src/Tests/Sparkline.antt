-- ===== src/Tests/Sparkline.antt =====
-- Sparklines of whole numbers: arithmetic that cuts every quotient down.
use cocodb.Base.{
  ℕ, ◌+◌, ◌-◌, ◌*◌, ◌/◌, ◌≤◌, ◌≡◌, refl, true, false, none, [], ◌∷◌, All, length, leb, ◌<◌, ◌==◌,
  arith,
}
use cocodb.Base.Text.{codes}
use cocodb.Base.Decimal.{decimal}
use native.Mathlib.Nat.{div_self, zero-div, div-mul-le_self, le-div_iff_mul-le, mul-le-mul_right}
use cocodb.Dashboard.Sparkline.{Doubles, Props, sparkline, paths, points}
use cocodb.Dashboard.Sparkline.Rounded.{IsRounded}
use cocodb.Dashboard.Sparkline.Box.{InBox, Rightwards, points-InBox}

abbrev whole : Doubles
whole = record {
  Real = ℕ;
  of_nat = λ n. n;
  plus = λ a b. a + b;
  minus = λ a b. a - b;
  times = λ a b. a * b;
  over = λ a b. a / b;
  at_most = leb;
  is_zero = λ a. a == 0;
  fixed = decimal;
  show = decimal;
}

leb→le : (a b : ℕ) → leb a b ≡ true → a ≤ b
leb→le a b h = ground arith

le→leb : (a b : ℕ) → a ≤ b → leb a b ≡ true
le→leb a b h = ground arith

positive : (c : ℕ) → (c == 0) ≡ false → 0 < c
positive c h = ground arith

quotients_grow : (a b c : ℕ) → (c == 0) ≡ false → a ≤ b → a / c ≤ b / c
quotients_grow a b c nz h =
    (le-div_iff_mul-le (positive c nz)).1
      (let e : a / c * c ≤ a = div-mul-le_self a c in omega arith)

whole-IsRounded : IsRounded whole
whole-IsRounded = record {
  le_refl = λ a. ground arith;
  le_trans = λ a b c h k. ground arith;
  le_total = λ a b h. ground arith;
  of_nat_mono = λ i j h. ground arith;
  of_nat_nonzero = λ n. ground arith;
  le-zero_of_is_zero = λ a h. ground arith;
  le-plus_one = λ a. ground arith;
  minus_self = λ a. omega arith;
  minus_zero = λ a. omega arith;
  minus_mono = λ a b c h. ground arith;
  minus_anti = λ a b c h. ground arith;
  zero_times = λ a. omega arith;
  one_times = λ a. omega arith;
  times_mono = λ a b c p h. le→leb (a * c) (b * c) (mul-le-mul_right c (leb→le a b h));
  zero_over = λ c nz. zero-div c;
  over_self = λ c nz. div_self (positive c nz);
  over_mono = λ a b c p nz h. le→leb (a / c) (b / c) (quotients_grow a b c nz (leb→le a b h));
}

abbrev rising : Props ℕ
rising = record {
  samples = 1 ∷ 4 ∷ 7 ∷ [];
  fill_color = [];
  height = 50;
  width = 240;
  custom_min = none;
  custom_max = none;
}

rising_line : sparkline whole rising ≡ paths none (codes "M 0,46 L 0,46 L 240,4")
unfolding sparkline points decimal
rising_line = refl

points-InBox_example :
    All (InBox whole whole-IsRounded rising) (points whole rising 1 (4 ∷ 7 ∷ []))
    × (length (points whole rising 1 (4 ∷ 7 ∷ [])) ≡ length rising.samples)
    × Rightwards whole whole-IsRounded (points whole rising 1 (4 ∷ 7 ∷ []))
points-InBox_example =
    points-InBox whole whole-IsRounded rising 1 4 (7 ∷ []) refl refl refl
      (λ m e. absurd (ground arith)) (λ m e. absurd (ground arith))
