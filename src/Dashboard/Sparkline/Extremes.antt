-- ===== src/Dashboard/Sparkline/Extremes.antt =====
-- The bounds of a sparkline hold of its samples.
use cocodb.Base.{◌≡◌, refl, Option, none, some, List, [], ◌∷◌, All, All-mono, Bool-cases, inl, inr}
use cocodb.Dashboard.Sparkline.{Doubles, lesser, greater, smallest, largest, lower, upper}
use cocodb.Dashboard.Sparkline.Rounded.{Le, IsRounded, Within}

module _ (d : Doubles) (r : IsRounded d) where
  open d use {Real, of_nat, plus, minus, times, over, at_most, is_zero}
  open r use {
    le_refl, le_trans, le_total, of_nat_mono, of_nat_nonzero, le-zero_of_is_zero, le-plus_one,
    minus_self, minus_zero, minus_mono, minus_anti, zero_times, one_times, times_mono, zero_over,
    over_self, over_mono,
  }

  lesser-Le : (a b : Real) → Le d (lesser d a b) a × Le d (lesser d a b) b
  lesser-Le a b = elim (Bool-cases (at_most a b)) [
    | inl h ↦ rw h (le_refl a, h)
    | inr h ↦ rw h (le_total a b h, le_refl b)
  ]

  greater-Le : (a b : Real) → Le d a (greater d a b) × Le d b (greater d a b)
  greater-Le a b = elim (Bool-cases (at_most a b)) [
    | inl h ↦ rw h (h, le_refl b)
    | inr h ↦ rw h (le_refl a, le_total a b h)
  ]

  smallest-Le : (x : Real) (xs : List Real) → All (Le d (smallest d x xs)) (x ∷ xs)
  unfolding smallest
  smallest-Le x [] = (le_refl x, tt)
  smallest-Le x (y ∷ ys) =
      let s = smallest d x ys in
      let (by_y, by_s) = lesser-Le y s in
      let (hx, hys) = smallest-Le x ys in
      let weaken = λ (v : Real) (h : Le d s v). le_trans (lesser d y s) s v by_s h in
      (weaken x hx, (by_y, All-mono (Le d s) (Le d (lesser d y s)) weaken ys hys))

  largest-Le :
      (xs : List Real) (last : Real)
      → All (λ v. Le d v (largest d xs last)) xs × Le d last (largest d xs last)
  unfolding largest
  largest-Le [] last = (tt, le_refl last)
  largest-Le (x ∷ xs) last =
      let s = largest d xs last in
      let (by_x, by_s) = greater-Le x s in
      let (hxs, hl) = largest-Le xs last in
      let weaken = λ (v : Real) (h : Le d v s). le_trans v s (greater d x s) h by_s in
      ((by_x, All-mono (λ v. Le d v s) (λ v. Le d v (greater d x s)) weaken xs hxs), weaken last hl)

  pub lower-Le :
      (o : Option Real) (x : Real) (xs : List Real)
      → ((m : Real) → o ≡ some m → All (Le d m) (x ∷ xs))
      → All (Le d (lower d o x xs)) (x ∷ xs)
  unfolding lower
  lower-Le none x xs h = smallest-Le x xs
  lower-Le (some m) x xs h = h m refl

  pub upper-Le :
      (o : Option Real) (min : Real) (xs : List Real)
      → ((m : Real) → o ≡ some m → All (λ v. Le d v m) xs)
      → All (λ v. Le d v (upper d o min xs)) xs
  unfolding upper
  upper-Le none min xs h = (largest-Le xs (plus min (of_nat 1))).0
  upper-Le (some m) min xs h = h m refl

  pub All-Within :
      (lo hi : Real) (xs : List Real)
      → All (Le d lo) xs
      → All (λ v. Le d v hi) xs
      → All (Within d r lo hi) xs
  All-Within lo hi [] hl hh = tt
  All-Within lo hi (x ∷ xs) (l, ls) (h, hs) = ((l, h), All-Within lo hi xs ls hs)
