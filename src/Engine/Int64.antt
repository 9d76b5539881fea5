-- ===== src/Engine/Int64.antt =====
-- Go's int64, and its conversions from and to uint64.
use cocodb.Base.{ℕ, ◌+◌, not, ◌-◌, ◌%◌, ◌<◌, ◌≡◌, Bool, true, false, if◌then◌else◌, ltb, leb, arith}

-- `negsuc n` is -1 - n.
pub data ℤ : Type 0 where
  pos negsuc : ℕ → ℤ

unfoldable pub at_most : ℤ → ℤ → Bool
at_most (pos m) (pos n) = leb m n
at_most (pos m) (negsuc n) = false
at_most (negsuc m) (pos n) = true
at_most (negsuc m) (negsuc n) = leb n m

abbrev pub IsInt64 : ℤ → Type 0
IsInt64 (pos n) = n < 9223372036854775808
IsInt64 (negsuc n) = n < 9223372036854775808

-- `uint64(x)` and `int64(u)`.
unfoldable pub to_uint64 : ℤ → ℕ
to_uint64 (pos n) = n % 18446744073709551616
to_uint64 (negsuc n) = 18446744073709551615 - n % 18446744073709551616

unfoldable pub of_uint64 : ℕ → ℤ
of_uint64 u = if ltb u 9223372036854775808 then pos u else negsuc (18446744073709551615 - u)

-- `x + y` and `x < y`.
unfoldable pub plus : ℤ → ℤ → ℤ
unfolding of_uint64 to_uint64
plus x y = of_uint64 ((to_uint64 x + to_uint64 y) % 18446744073709551616)

unfoldable pub less : ℤ → ℤ → Bool
unfolding at_most
less x y = not (at_most y x)

-- Where x is before z and y is not, y is not before x.
pub less_weak : (x y z : ℤ) → less x z ≡ true → less y z ≡ false → less y x ≡ false
unfolding less at_most
less_weak (pos a) (pos b) (pos c) h k = ground arith
less_weak (pos a) (pos b) (negsuc c) h k = ground arith
less_weak (pos a) (negsuc b) (pos c) h k = ground arith
less_weak (pos a) (negsuc b) (negsuc c) h k = ground arith
less_weak (negsuc a) (pos b) (pos c) h k = ground arith
less_weak (negsuc a) (pos b) (negsuc c) h k = ground arith
less_weak (negsuc a) (negsuc b) (pos c) h k = ground arith
less_weak (negsuc a) (negsuc b) (negsuc c) h k = ground arith

pub less_irrefl : (x : ℤ) → less x x ≡ false
unfolding less at_most
less_irrefl (pos a) = ground arith
less_irrefl (negsuc a) = ground arith

pub to_uint64-bound : (x : ℤ) → to_uint64 x < 18446744073709551616
unfolding to_uint64
to_uint64-bound (pos n) = omega arith
to_uint64-bound (negsuc n) = omega arith

pub of_uint64-to_uint64 : (x : ℤ) → IsInt64 x → of_uint64 (to_uint64 x) ≡ x
unfolding of_uint64 to_uint64
of_uint64-to_uint64 (pos n) h = ground arith
of_uint64-to_uint64 (negsuc n) h = ground arith
