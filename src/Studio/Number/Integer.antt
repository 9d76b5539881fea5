-- ===== src/Studio/Number/Integer.antt =====
-- `parseInt(text)` of JavaScript (studio/frontend/src/views/QueueView.tsx).
use cocodb.Base.{
  ℕ, ◌+◌, ◌*◌, Bool, true, false, ◌||◌, ◌&&◌, Option, none, some, [], ◌∷◌, if◌then◌else◌, ltb, ◌==◌,
}
use cocodb.Base.Text.{Text, is_empty, trim}
use cocodb.Base.Decimal.{digits_value}
use cocodb.Studio.Json.{Number, finite}
use cocodb.Studio.Number.{span_digits, digit}

-- `parseInt(text)`, NaN as `none`: a sign, then hexadecimal digits after 0x or decimal ones.
hex_value : ℕ → Text → ℕ
hex_value acc [] = acc
hex_value acc (c ∷ s) =
    let rest = hex_value (acc * 16 + digit c) s in if ltb (digit c) 16 then rest else acc

hexadecimal : (negative : Bool) → Text → Option Number
unfolding hex_value
hexadecimal negative [] = none
hexadecimal negative (c ∷ s) =
    if ltb (digit c) 16 then some (finite negative (hex_value 0 (c ∷ s)) false 0) else none

unfoldable pub decimal_digits : (negative : Bool) → Text → Option Number
decimal_digits negative s =
    let (ds, rest) = span_digits s in
    if is_empty ds then none else some (finite negative (digits_value 0 ds) false 0)

unfoldable pub whole : (negative : Bool) → Text → Option Number
unfolding hexadecimal decimal_digits
whole negative [] = none
whole negative (c ∷ []) = decimal_digits negative (c ∷ [])
whole negative (c ∷ d ∷ s) =
    if c == b'0' && (d == b'x' || d == b'X')
    then hexadecimal negative s
    else decimal_digits negative (c ∷ d ∷ s)

unfoldable pub signed : Text → Option Number
unfolding whole
signed [] = none
signed (c ∷ s) =
    if c == b'-' then whole true s else if c == b'+' then whole false s else whole false (c ∷ s)

unfoldable pub parse_int : Text → Option Number
unfolding signed
parse_int s = signed (trim s)
