-- ===== src/Base/Flight.antt =====
-- Requests that a disabled button keeps apart: the flag of the button and the number of requests.
use cocodb.Base.Tests.{if◌then◌else◌}
use Prim.Native.Nat.{ℕ, suc, ◌-◌}
use mathlib.Core.Path.{◌≡◌}
use mathlib.Core.Bool.{Bool, true, false}
use native.Mathlib.Omega.{arith}

-- The flag is on exactly while a request is pending, and then one is.
abbrev pub Flight : Bool → ℕ → Type 0
Flight loading pending = pending ≡ (if loading then 1 else 0)

-- A request that starts while its flag is off, and its end.
pub Flight-suc : (b : Bool) (n : ℕ) → b ≡ false → Flight b n → Flight true (suc n)
Flight-suc b n e h = ground arith

pub Flight-pred : (b : Bool) (n : ℕ) → Flight b n → Flight false (n - 1)
Flight-pred b n h = ground arith
