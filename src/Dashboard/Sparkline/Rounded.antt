-- ===== src/Dashboard/Sparkline/Rounded.antt =====
-- Arithmetic that rounds, and the parts of a span in it.
use cocodb.Base.{ℕ, suc, ◌≤◌, ◌≡◌, subst, true, false, Bool-cases, inl, inr, arith}
use cocodb.Dashboard.Sparkline.{Doubles, span}

abbrev pub Le : (d : Doubles) → Doubles.Real d → Doubles.Real d → Type 0
Le d a b = Doubles.at_most d a b ≡ true

module _ (d : Doubles) where
  open d use {Real, of_nat, plus, minus, times, over, at_most, is_zero}

  -- What holds of finite doubles, rounded: each operation is monotone, and exact where it says so.
  pub record IsRounded : Type 0 where
    pub le_refl : (a : Real) → Le d a a
    pub le_trans : (a b c : Real) → Le d a b → Le d b c → Le d a c
    pub le_total : (a b : Real) → at_most a b ≡ false → Le d b a
    pub of_nat_mono : (i j : ℕ) → i ≤ j → Le d (of_nat i) (of_nat j)
    pub of_nat_nonzero : (n : ℕ) → is_zero (of_nat (suc n)) ≡ false
    pub le-zero_of_is_zero : (a : Real) → is_zero a ≡ true → Le d a (of_nat 0)
    pub le-plus_one : (a : Real) → Le d a (plus a (of_nat 1))
    pub minus_self : (a : Real) → minus a a ≡ of_nat 0
    pub minus_zero : (a : Real) → minus a (of_nat 0) ≡ a
    pub minus_mono : (a b c : Real) → Le d a b → Le d (minus a c) (minus b c)
    pub minus_anti : (a b c : Real) → Le d a b → Le d (minus c b) (minus c a)
    pub zero_times : (a : Real) → times (of_nat 0) a ≡ of_nat 0
    pub one_times : (a : Real) → times (of_nat 1) a ≡ a
    pub times_mono : (a b c : Real) → Le d (of_nat 0) c → Le d a b → Le d (times a c) (times b c)
    pub zero_over : (c : Real) → is_zero c ≡ false → over (of_nat 0) c ≡ of_nat 0
    pub over_self : (c : Real) → is_zero c ≡ false → over c c ≡ of_nat 1
    pub over_mono :
        (a b c : Real)
        → Le d (of_nat 0) c
        → is_zero c ≡ false
        → Le d a b
        → Le d (over a c) (over b c)

module _ (d : Doubles) (r : IsRounded d) where
  open d use {Real, of_nat, plus, minus, times, over, at_most, is_zero}
  open r use {
    le_refl, le_trans, le_total, of_nat_mono, of_nat_nonzero, le-zero_of_is_zero, le-plus_one,
    minus_self, minus_zero, minus_mono, minus_anti, zero_times, one_times, times_mono, zero_over,
    over_self, over_mono,
  }

  abbrev pub Within : Real → Real → Real → Type 0
  Within lo hi a = Le d lo a × Le d a hi

  -- A part of a whole that is not zero is between 0 and 1.
  pub over-Within :
      (a c : Real)
      → Le d (of_nat 0) c
      → is_zero c ≡ false
      → Within (of_nat 0) c a
      → Within (of_nat 0) (of_nat 1) (over a c)
  over-Within a c pos nz (lo, hi) = (
    subst (λ z. Le d z (over a c)) (zero_over c nz) (over_mono (of_nat 0) a c pos nz lo),
    subst (Le d (over a c)) (over_self c nz) (over_mono a c c pos nz hi),
  )

  pub times-Within :
      (t c : Real)
      → Le d (of_nat 0) c
      → Within (of_nat 0) (of_nat 1) t
      → Within (of_nat 0) c (times t c)
  times-Within t c pos (lo, hi) = (
    subst (λ z. Le d z (times t c)) (zero_times c) (times_mono (of_nat 0) t c pos lo),
    subst (Le d (times t c)) (one_times c) (times_mono t (of_nat 1) c pos hi),
  )

  -- What a span must be for the values between the bounds.
  pub record Spans (min max range : Real) : Type 0 where
    pub pos : Le d (of_nat 0) range
    pub nonzero : is_zero range ≡ false
    pub covers : (a : Real) → Within min max a → Within (of_nat 0) range (minus a min)

  above_min : (min max a : Real) → Within min max a → Le d (of_nat 0) (minus a min)
  above_min min max a (lo, hi) =
      subst (λ z. Le d z (minus a min)) (minus_self min) (minus_mono min a min lo)

  pub span-Spans : (min max : Real) → Le d min max → Spans min max (span d min max)
  unfolding span
  span-Spans min max h = elim (Bool-cases (is_zero (minus max min))) [
    | inl z ↦ rw z (record {
      pos = of_nat_mono 0 1 (omega arith);
      nonzero = of_nat_nonzero 0;
      covers = λ a w. (
        above_min min max a w,
        le_trans (minus a min) (minus max min) (of_nat 1) (minus_mono a max min w.1) (
            le_trans (minus max min) (of_nat 0) (of_nat 1) (le-zero_of_is_zero (minus max min) z)
              (of_nat_mono 0 1 (omega arith))),
      );
    })
    | inr z ↦ rw z (record {
      pos = above_min min max max (h, le_refl max);
      nonzero = z;
      covers = λ a w. (above_min min max a w, minus_mono a max min w.1);
    })
  ]
