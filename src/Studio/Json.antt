-- ===== src/Studio/Json.antt =====
-- The values that the studio exchanges with its server: what JSON can carry.
use cocodb.Base.{ℕ, Bool, true, false, Option, none, some, List, [], ◌∷◌, ◌==◌, if◌then◌else◌}
use cocodb.Base.Text.{Text, text_eq, is_empty}
use mathlib.Core.Bool.{not}

-- A number as its literal states it, ±mantissa × 10^(±exponent); the rounding of a double is left
-- out. The literals Infinity and -Infinity are numbers too; NaN is not.
pub data Number : Type 0 where
  finite : (negative : Bool) (mantissa : ℕ) (small : Bool) (exponent : ℕ) → Number
  infinite : (negative : Bool) → Number

abbrev pub nat : ℕ → Number
nat n = finite false n false 0

mutual
  pub data Json : Type 0 where
    null : Json
    boolean : Bool → Json
    number : Number → Json
    string : Text → Json
    array : Items → Json
    object : Fields → Json

  pub data Items : Type 0 where
    nil : Items
    item : Json → Items → Items

  pub data Fields : Type 0 where
    end : Fields
    field : Text → Json → Fields → Fields

-- `Object.keys`.
unfoldable pub keys : Fields → List Text
keys end = []
keys (field k v fs) = k ∷ keys fs

-- A property read; `none` is undefined.
unfoldable pub property : Text → Fields → Option Json
property k end = none
property k (field j v fs) = if text_eq j k then some v else property k fs

-- An object literal's entry whose value may be undefined: `JSON.stringify` leaves it out.
abbrev pub optional : Text → Option Json → Fields → Fields
optional k none fs = fs
optional k (some v) fs = field k v fs

unfoldable pub is_zero : Number → Bool
is_zero (finite negative m small e) = m == 0
is_zero (infinite negative) = false

-- The truth value of a JSON value in a condition.
unfoldable pub truthy : Json → Bool
unfolding is_zero
truthy null = false
truthy (boolean b) = b
truthy (number n) = not (is_zero n)
truthy (string s) = not (is_empty s)
truthy (array xs) = true
truthy (object fs) = true
