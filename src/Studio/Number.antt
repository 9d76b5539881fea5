-- ===== src/Studio/Number.antt =====
-- `Number(text)` of JavaScript, and the value that a filter's text stands for
-- (studio/frontend/src/views/CollectionsView.tsx and QueryConsoleView.tsx).
pub mod Coercion
pub mod Integer
use cocodb.Base.{
  ℕ, ◌+◌, ◌-◌, ◌*◌, ◌<◌, Bool, true, false, ◌&&◌, ◌||◌, not, Option, none, some, List, [], ◌∷◌,
  ◌++◌, ltb, leb, ◌==◌, if◌then◌else◌, length,
}
use cocodb.Base.Text.{Text, codes, text_eq, is_empty, trim}
use cocodb.Base.Decimal.{digits_value}
use cocodb.Studio.Json.{Number, finite, infinite, nat, Json, boolean, number, string}

unfoldable pub is_digit : ℕ → Bool
is_digit c = leb b'0' c && leb c b'9'

-- The digits in front, and what follows them.
unfoldable pub span_digits : Text → Text × Text
unfolding is_digit
span_digits [] = ([], [])
span_digits (c ∷ s) =
    let (ds, rest) = span_digits s in if is_digit c then (c ∷ ds, rest) else ([], c ∷ s)

-- The exponent part behind a mantissa: its sign and its digits, up to the end of the text.
exponent_digits : (negative : Bool) → Text → Option (Bool × ℕ)
unfolding span_digits
exponent_digits negative s =
    let (ds, rest) = span_digits s in
    if is_empty ds || not (is_empty rest) then none else some (negative, digits_value 0 ds)

exponent_signed : Text → Option (Bool × ℕ)
unfolding exponent_digits
exponent_signed [] = none
exponent_signed (c ∷ s) =
    if c == b'-'
    then exponent_digits true s
    else if c == b'+'
    then exponent_digits false s
    else exponent_digits false (c ∷ s)

exponent : Text → Option (Bool × ℕ)
unfolding exponent_signed
exponent [] = some (false, 0)
exponent (c ∷ s) = if c == b'e' || c == b'E' then exponent_signed s else none

-- A fraction of that many digits moves the point.
shifted : (negative : Bool) (mantissa places : ℕ) → Bool × ℕ → Number
shifted negative m places (true, e) = finite negative m true (e + places)
shifted negative m places (false, e) =
    if leb places e
    then finite negative m false (e - places)
    else finite negative m true (places - e)

scaled : (negative : Bool) (mantissa places : ℕ) → Option (Bool × ℕ) → Option Number
unfolding shifted
scaled negative m places none = none
scaled negative m places (some e) = some (shifted negative m places e)

-- The fraction behind a point, if there is one: its digits and the rest.
fraction : Text → Text × Text
unfolding span_digits
fraction [] = ([], [])
fraction (c ∷ s) = if c == b'.' then span_digits s else ([], c ∷ s)

unfoldable pub unsigned : (negative : Bool) → Text → Option Number
unfolding span_digits fraction exponent scaled
unsigned negative s =
    if text_eq s (codes "Infinity")
    then some (infinite negative)
    else let (whole, r) = span_digits s in
      let (part, rest) = fraction r in
      let ds = whole ++ part in
      if is_empty ds
      then none
      else scaled negative (digits_value 0 ds) (length part) (exponent rest)

-- A digit of base 2, 8 or 16; 16 stands for no digit.
unfoldable pub digit : ℕ → ℕ
digit c =
    if leb b'0' c && leb c b'9'
    then c - 48
    else if leb b'a' c && leb c b'f'
    then c - 87
    else if leb b'A' c && leb c b'F'
    then c - 55
    else 16

in_base : (base acc : ℕ) → Text → Option Number
unfolding digit
in_base base acc [] = some (nat acc)
in_base base acc (c ∷ s) =
    let rest = in_base base (acc * base + digit c) s in if ltb (digit c) base then rest else none

base_of : ℕ → ℕ
base_of c =
    if c == b'x' || c == b'X'
    then 16
    else if c == b'o' || c == b'O'
    then 8
    else if c == b'b' || c == b'B'
    then 2
    else 0

-- The text without the white space around it.
unfoldable pub literal : Text → Option Number
unfolding unsigned in_base base_of
literal [] = some (nat 0)
literal (c ∷ []) = unsigned false (c ∷ [])
literal (c ∷ d ∷ []) =
    if c == b'-'
    then unsigned true (d ∷ [])
    else if c == b'+'
    then unsigned false (d ∷ [])
    else unsigned false (c ∷ d ∷ [])
literal (c ∷ d ∷ e ∷ s) =
    if c == b'-'
    then unsigned true (d ∷ e ∷ s)
    else if c == b'+'
    then unsigned false (d ∷ e ∷ s)
    else if c == b'0' && ltb 0 (base_of d)
    then in_base (base_of d) 0 (e ∷ s)
    else unsigned false (c ∷ d ∷ e ∷ s)

-- `none` is NaN.
unfoldable pub to_number : Text → Option Number
unfolding literal
to_number s = literal (trim s)

-- What the views make of the text in a filter's value field.
unfoldable pub coerce : Text → Json
unfolding to_number
coerce v =
    if text_eq v (codes "true")
    then boolean true
    else if text_eq v (codes "false")
    then boolean false
    else elim (to_number v) [
      | none ↦ string v
      | some n ↦ if is_empty (trim v) then string v else number n
    ]
