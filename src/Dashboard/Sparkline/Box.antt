-- ===== src/Dashboard/Sparkline/Box.antt =====
-- The points of a sparkline stand in its box, from left to right.
use cocodb.Base.{
  ℕ, suc, ◌+◌, ◌-◌, ◌≤◌, ◌≡◌, refl, sym, ap, ◌∙◌, subst, false, some, List, [], ◌∷◌, length, All,
  arith,
}
use cocodb.Dashboard.Sparkline.{
  Doubles, Props, lower, upper, span, Point, point_x, point_y, points_from, points,
}
use cocodb.Dashboard.Sparkline.Rounded.{
  Le, IsRounded, Within, over-Within, times-Within, Spans, span-Spans,
}
use cocodb.Dashboard.Sparkline.Extremes.{lower-Le, upper-Le, All-Within}

module _ (d : Doubles) (r : IsRounded d) where
  open d use {Real, of_nat, plus, minus, times, over, at_most, is_zero}
  open r use {
    le_refl, le_trans, le_total, of_nat_mono, of_nat_nonzero, le-zero_of_is_zero, le-plus_one,
    minus_self, minus_zero, minus_mono, minus_anti, zero_times, one_times, times_mono, zero_over,
    over_self, over_mono,
  }

  -- The box: from side to side, and eight units lower than the component.
  abbrev pub InBox : Props Real → Point d → Type 0
  InBox p q =
      Le d (of_nat 0) q.0
      × Le d q.0 p.width
      × Le d (minus (minus p.height (minus p.height (of_nat 8))) (of_nat 4)) q.1
      × Le d q.1 (minus p.height (of_nat 4))

  abbrev pub Rightwards : List (Point d) → Type 0
  Rightwards [] = Unit
  Rightwards (a ∷ []) = Unit
  Rightwards (a ∷ (b ∷ ps)) = Le d a.0 b.0 × Rightwards (b ∷ ps)

  module _ (p : Props Real) (min max range : Real) (n : ℕ)
      (samples : length p.samples ≡ suc (suc n)) (wide : Le d (of_nat 0) p.width)
      (high : Le d (of_nat 0) (minus p.height (of_nat 8))) (spans : Spans d r min max range) where
    steps_nonzero : is_zero (of_nat (length p.samples - 1)) ≡ false
    steps_nonzero =
        rw samples (let e : suc (suc n) - 1 ≡ suc n = omega arith in rw e (of_nat_nonzero n))

    steps_pos : Le d (of_nat 0) (of_nat (length p.samples - 1))
    steps_pos = of_nat_mono 0 (length p.samples - 1) (omega arith)

    point_x-Within : (i : ℕ) → i ≤ suc n → Within d r (of_nat 0) p.width (point_x d p min range i)
    unfolding point_x
    point_x-Within i h =
        times-Within d r (over (of_nat i) (of_nat (length p.samples - 1))) p.width wide (
          over-Within d r (of_nat i) (of_nat (length p.samples - 1)) steps_pos steps_nonzero
            (of_nat_mono 0 i (omega arith), of_nat_mono i (length p.samples - 1) (omega arith)))

    point_x_mono : (i : ℕ) → Le d (point_x d p min range i) (point_x d p min range (suc i))
    unfolding point_x
    point_x_mono i =
        times_mono (over (of_nat i) (of_nat (length p.samples - 1)))
          (over (of_nat (suc i)) (of_nat (length p.samples - 1))) p.width wide
          (over_mono (of_nat i) (of_nat (suc i)) (of_nat (length p.samples - 1)) steps_pos
            steps_nonzero (of_nat_mono i (suc i) (omega arith)))

    point_y-Within :
        (val : Real)
        → Within d r min max val
        → Within d r
            (minus (minus p.height (minus p.height (of_nat 8))) (of_nat 4))
            (minus p.height (of_nat 4))
            (point_y d p min range val)
    unfolding point_y
    point_y-Within val w =
        let inner = minus p.height (of_nat 8) in
        let t = times (over (minus val min) range) inner in
        let (lo, hi) =
          times-Within d r (over (minus val min) range) inner high
            (over-Within d r (minus val min) range spans.pos spans.nonzero (spans.covers val w)) in
        (
          minus_mono (minus p.height inner) (minus p.height t) (of_nat 4)
              (minus_anti t inner p.height hi),
          minus_mono (minus p.height t) p.height (of_nat 4) (
              subst (Le d (minus p.height t)) (minus_zero p.height)
                (minus_anti (of_nat 0) t p.height lo)),
        )

    point-InBox :
        (i : ℕ) (val : Real)
        → i ≤ suc n
        → Within d r min max val
        → InBox p (point_x d p min range i, point_y d p min range val)
    point-InBox i val h w =
        let (left, right) = point_x-Within i h in
        let (top, bottom) = point_y-Within val w in (left, right, top, bottom)

    points_from-InBox :
        (i : ℕ) (vals : List Real)
        → i + length vals ≤ suc (suc n)
        → All (Within d r min max) vals
        → All (InBox p) (points_from d p min range i vals)
          × (length (points_from d p min range i vals) ≡ length vals)
          × Rightwards (points_from d p min range i vals)
    unfolding points_from
    points_from-InBox i [] h w = (tt, refl, tt)
    points_from-InBox i (v ∷ []) h (w, ws) = ((point-InBox i v (omega arith) w, tt), refl, tt)
    points_from-InBox i (v ∷ (u ∷ us)) h (w, ws) =
        let (boxed, counted, ordered) = points_from-InBox (suc i) (u ∷ us) (omega arith) ws in
        ((point-InBox i v (omega arith) w, boxed), ap suc counted, (point_x_mono i, ordered))

  -- In arithmetic that rounds, let the width and the height less eight not be negative, and let each
  -- bound that is given hold of the samples. Then every one of two samples or more gets a point, the
  -- points go from left to right, x is from 0 to the width, and y is from (height - (height - 8)) - 4
  -- to height - 4.
  pub points-InBox :
      (p : Props Real) (x y : Real) (ys : List Real)
      → p.samples ≡ x ∷ (y ∷ ys)
      → Le d (of_nat 0) p.width
      → Le d (of_nat 0) (minus p.height (of_nat 8))
      → ((m : Real) → p.custom_min ≡ some m → All (Le d m) (x ∷ (y ∷ ys)))
      → ((m : Real) → p.custom_max ≡ some m → All (λ v. Le d v m) (x ∷ (y ∷ ys)))
      → All (InBox p) (points d p x (y ∷ ys))
        × (length (points d p x (y ∷ ys)) ≡ length p.samples)
        × Rightwards (points d p x (y ∷ ys))
  unfolding points
  points-InBox p x y ys samples wide high above below =
      let min = lower d p.custom_min x (y ∷ ys) in
      let max = upper d p.custom_max min (x ∷ (y ∷ ys)) in
      let w =
        All-Within d r min max (x ∷ (y ∷ ys)) (lower-Le d r p.custom_min x (y ∷ ys) above)
          (upper-Le d r p.custom_max min (x ∷ (y ∷ ys)) below) in
      let counted = ap (λ (l : List Real). length l) samples in
      let spans = span-Spans d r min max (le_trans min x max (w.0).0 (w.0).1) in
      let (boxed, same, ordered) =
        points_from-InBox p min max (span d min max) (length ys) counted wide high spans 0
          (x ∷ (y ∷ ys)) (omega arith) w in
      (boxed, same ∙ sym counted, ordered)
