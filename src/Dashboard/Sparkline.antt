-- ===== src/Dashboard/Sparkline.antt =====
-- dashboard/frontend/src/components/Sparkline.tsx: the points and the paths of a sparkline.
pub mod Rounded
pub mod Extremes
pub mod Box
use cocodb.Base.{
  ℕ, suc, ◌-◌, Bool, true, false, Option, none, some, List, [], ◌∷◌, ◌++◌, map, if◌then◌else◌,
  length, ltb,
}
use cocodb.Base.Text.{Text, codes, is_empty}

-- The arithmetic of doubles, as far as the component uses it. `fixed` is `toFixed(1)`, `show` is how
-- a template shows a number.
pub record Doubles : Type 1 where
  pub Real : Type 0
  pub of_nat : ℕ → Real
  pub plus : Real → Real → Real
  pub minus : Real → Real → Real
  pub times : Real → Real → Real
  pub over : Real → Real → Real
  pub at_most : Real → Real → Bool
  pub is_zero : Real → Bool
  pub fixed : Real → Text
  pub show : Real → Text

-- The properties that bear on the paths; a property that is left out is `none`.
pub record Props (Real : Type 0) : Type 0 where
  pub samples : List Real
  pub fill_color : Text
  pub height : Real
  pub width : Real
  pub custom_min : Option Real
  pub custom_max : Option Real

pub data Drawing : Type 0 where
  collecting : Drawing
  paths : (fill : Option Text) (line : Text) → Drawing

-- `ts.join(' L ')`.
joined : List Text → Text
joined [] = []
joined (t ∷ []) = t
joined (t ∷ (u ∷ us)) = t ++ (codes " L " ++ joined (u ∷ us))

module _ (d : Doubles) where
  open d use {Real, of_nat, plus, minus, times, over, at_most, is_zero, fixed, show}

  abbrev pub lesser : Real → Real → Real
  lesser a b = if at_most a b then a else b

  abbrev pub greater : Real → Real → Real
  greater a b = if at_most a b then b else a

  -- `Math.min(first, ...others)` and `Math.max(...samples, last)`, of numbers.
  pub smallest : Real → List Real → Real
  smallest first [] = first
  smallest first (x ∷ xs) = lesser x (smallest first xs)

  pub largest : List Real → Real → Real
  largest [] last = last
  largest (x ∷ xs) last = greater x (largest xs last)

  unfoldable pub lower : Option Real → Real → List Real → Real
  unfolding smallest
  lower (some m) first others = m
  lower none first others = smallest first others

  unfoldable pub upper : Option Real → Real → List Real → Real
  unfolding largest
  upper (some m) min samples = m
  upper none min samples = largest samples (plus min (of_nat 1))

  -- `max - min || 1`.
  unfoldable pub span : Real → Real → Real
  span min max = if is_zero (minus max min) then of_nat 1 else minus max min

  abbrev pub Point : Type 0
  Point = Real × Real

  module _ (p : Props Real) (min range : Real) where
    unfoldable pub point_x : ℕ → Real
    point_x i = times (over (of_nat i) (of_nat (length p.samples - 1))) p.width

    unfoldable pub point_y : Real → Real
    point_y val =
        minus (minus p.height (times (over (minus val min) range) (minus p.height (of_nat 8))))
          (of_nat 4)

    pub points_from : ℕ → List Real → List Point
    unfolding point_x point_y
    points_from i [] = []
    points_from i (val ∷ vals) = (point_x i, point_y val) ∷ points_from (suc i) vals

  -- The component's values from two samples on; the list is `first ∷ others`.
  unfoldable pub points : Props Real → Real → List Real → List Point
  unfolding lower upper span points_from
  points p first others =
      let min = lower p.custom_min first others in
      let max = upper p.custom_max min (first ∷ others) in
      points_from p min (span min max) 0 (first ∷ others)

  point_text : Point → Text
  point_text (x, y) = fixed x ++ (codes "," ++ fixed y)

  line_path : List Point → Text
  unfolding joined point_text
  line_path ps = codes "M " ++ joined (map point_text ps)

  fill_path : Props Real → List Point → Text
  unfolding joined point_text
  fill_path p ps =
      codes "M 0,"
      ++ (show p.height
          ++ (codes " L "
              ++ (joined (map point_text ps)
                  ++ (codes " L "
                      ++ (show p.width ++ (codes "," ++ (show p.height ++ codes " Z")))))))

  drawing : Props Real → List Real → Drawing
  unfolding line_path fill_path points
  drawing p [] = collecting
  drawing p (x ∷ []) = collecting
  drawing p (x ∷ (y ∷ ys)) =
      let ps = points p x (y ∷ ys) in
      paths (if is_empty p.fill_color then none else some (fill_path p ps)) (line_path ps)

  unfoldable pub sparkline : Props Real → Drawing
  unfolding drawing
  sparkline p = drawing p p.samples
