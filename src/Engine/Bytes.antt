-- ===== src/Engine/Bytes.antt =====
-- Go's encoding/binary: unsigned integers as bytes, the most significant one first.
use cocodb.Base.{
  ℕ, zero, suc, ◌+◌, ◌*◌, ◌/◌, ◌%◌, ◌<◌, ◌≡◌, refl, List, [], ◌∷◌, ◌++◌, length, length-append,
  take, drop, arith,
}

abbrev pub Bytes : Type 0
Bytes = List ℕ

-- The numbers that `k` bytes hold are below `limit k`.
abbrev pub limit : ℕ → ℕ
limit zero = 1
limit (suc k) = 256 * limit k

-- `PutUint16`, `PutUint32` and `PutUint64`: the last `k` digits.
unfoldable pub put_uint : ℕ → ℕ → Bytes
put_uint zero n = []
put_uint (suc k) n = put_uint k (n / 256) ++ n % 256 ∷ []

get_from : ℕ → Bytes → ℕ
get_from acc [] = acc
get_from acc (b ∷ bs) = get_from (acc * 256 + b) bs

-- `Uint16`, `Uint32` and `Uint64` of as many bytes.
unfoldable pub get_uint : Bytes → ℕ
unfolding get_from
get_uint bs = get_from 0 bs

get_from-append :
    (acc : ℕ) (bs : Bytes) (b : ℕ) → get_from acc (bs ++ b ∷ []) ≡ get_from acc bs * 256 + b
unfolding get_from
get_from-append acc [] b = refl
get_from-append acc (c ∷ bs) b = get_from-append (acc * 256 + c) bs b

pub get_uint-put_uint : (k n : ℕ) → n < limit k → get_uint (put_uint k n) ≡ n
unfolding get_uint put_uint
get_uint-put_uint zero n h = omega arith
get_uint-put_uint (suc k) n h =
    rw (get_from-append 0 (put_uint k (n / 256)) (n % 256))
      (omega (arith, get_uint-put_uint k (n / 256) (omega arith)))

pub length-put_uint : (k n : ℕ) → length (put_uint k n) ≡ k
unfolding put_uint
length-put_uint zero n = refl
length-put_uint (suc k) n =
    omega (arith, length-append (put_uint k (n / 256)) (n % 256 ∷ []), length-put_uint k (n / 256))

pub take_prefix : (bs rest : Bytes) → take (length bs) (bs ++ rest) ≡ bs
take_prefix [] rest = refl
take_prefix (b ∷ bs) rest = rw (take_prefix bs rest) refl

pub drop_prefix : (bs rest : Bytes) → drop (length bs) (bs ++ rest) ≡ rest
drop_prefix [] rest = refl
drop_prefix (b ∷ bs) rest = drop_prefix bs rest
