-- ===== src/Base/Decimal.antt =====
-- A number written in decimal digits, as a template literal prints it.
use Prim.Native.Nat.{ℕ, zero, suc, ◌+◌, ◌-◌, ◌*◌, ◌/◌, ◌%◌, ◌≤◌, ◌<◌}
use mathlib.Core.Path.{◌≡◌, refl}
use mathlib.Core.Bool.{false}
use mathlib.Core.List.{[], ◌∷◌}
use native.Mathlib.Omega.{arith}
use cocodb.Base.Tests.{ltb, if◌then◌else◌}
use cocodb.Base.Lists.{All}
use cocodb.Base.Text.{Text, is_empty}

-- The digits in front of `acc`; `fuel` above the number is enough.
digits_from : ℕ → ℕ → Text → Text
digits_from zero n acc = acc
digits_from (suc fuel) n acc =
    let d = (48 + n % 10) ∷ acc in
    let more = digits_from fuel (n / 10) d in if ltb n 10 then d else more

unfoldable pub decimal : ℕ → Text
unfolding digits_from
decimal n = digits_from (suc n) n []

abbrev pub IsDigit : ℕ → Type 0
IsDigit c = (48 ≤ c) × (c ≤ 57)

digits_from-IsDigit :
    (fuel n : ℕ) (acc : Text) → All IsDigit acc → All IsDigit (digits_from fuel n acc)
unfolding digits_from
digits_from-IsDigit zero n acc h = h
digits_from-IsDigit (suc fuel) n acc h =
    ground (
      arith,
      digits_from-IsDigit fuel (n / 10) ((48 + n % 10) ∷ acc) ((omega arith, omega arith), h),
    )

pub decimal-IsDigit : (n : ℕ) → All IsDigit (decimal n)
unfolding decimal
decimal-IsDigit n = digits_from-IsDigit (suc n) n [] tt

-- The value of a list of digits behind `acc`.
unfoldable pub digits_value : ℕ → Text → ℕ
digits_value acc [] = acc
digits_value acc (c ∷ s) = digits_value (acc * 10 + (c - 48)) s

digits_value-digits_from :
    (fuel n : ℕ) (acc : Text)
    → n < fuel
    → digits_value 0 (digits_from fuel n acc) ≡ digits_value n acc
unfolding digits_value digits_from
digits_value-digits_from zero n acc h = elim h [ ]
digits_value-digits_from (suc fuel) n acc h =
    ground (arith, digits_value-digits_from fuel (n / 10) ((48 + n % 10) ∷ acc))

-- The digits read back as the number.
pub digits_value-decimal : (n : ℕ) → digits_value 0 (decimal n) ≡ n
unfolding decimal digits_value
digits_value-decimal n = digits_value-digits_from (suc n) n [] (omega arith)

is_empty-digits_from : (fuel n c : ℕ) (acc : Text) → is_empty (digits_from fuel n (c ∷ acc)) ≡ false
unfolding digits_from
is_empty-digits_from zero n c acc = refl
is_empty-digits_from (suc fuel) n c acc =
    ground (arith, is_empty-digits_from fuel (n / 10) (48 + n % 10) (c ∷ acc))

pub is_empty-decimal : (n : ℕ) → is_empty (decimal n) ≡ false
unfolding decimal
is_empty-decimal n = ground (arith, is_empty-digits_from n (n / 10) (48 + n % 10) [])
