-- ===== src/Base/Text.antt =====
-- Texts as lists of Unicode code points, and the string operations that the sources use.
use mathlib.Core.Logic.{◌≢◌}
use Prim.Native.Char.{code}
use Prim.Native.String.{String}
use cocodb.Base.Tests.{◌==◌, leb, if◌then◌else◌}
use cocodb.Base.Lists.{All, All-append}
use Prim.Native.Nat.{ℕ}
use mathlib.Core.Path.{◌≡◌, refl}
use mathlib.Core.Logic.{◌↔◌}
use mathlib.Core.Bool.{Bool, true, false, ◌&&◌, ◌||◌}
use mathlib.Core.List.{List, [], ◌∷◌, reverse, reverse-cons, reverse-reverse}
use native.Mathlib.Omega.{arith}

abbrev pub Text : Type 0
Text = List ℕ

-- A literal of the source.
abbrev pub codes : String → Text
codes String.[] = []
codes (String.◌∷◌ c s) = code c ∷ codes s

-- The strict equality of strings.
unfoldable pub text_eq : Text → Text → Bool
text_eq [] [] = true
text_eq [] (d ∷ t) = false
text_eq (c ∷ s) [] = false
text_eq (c ∷ s) (d ∷ t) = c == d && text_eq s t

pub text_eq_iff : (s t : Text) → (text_eq s t ≡ true) ↔ (s ≡ t)
unfolding text_eq
text_eq_iff [] [] = ground arith
text_eq_iff [] (d ∷ t) = ground arith
text_eq_iff (c ∷ s) [] = ground arith
text_eq_iff (c ∷ s) (d ∷ t) = ground (arith, text_eq_iff s t)

pub text_eq_refl : (s : Text) → text_eq s s ≡ true
text_eq_refl s = (text_eq_iff s s).1 refl

-- The truth value of a string: false for the empty one only.
abbrev pub is_empty {ℓ} : {A : Type ℓ} → List A → Bool
is_empty [] = true
is_empty (c ∷ s) = false

-- `message || fallback`.
abbrev pub or_text : Text → Text → Text
or_text [] d = d
or_text (c ∷ s) d = c ∷ s

-- `s.startsWith(p)` and `s.includes(p)`.
pub starts_with : Text → Text → Bool
starts_with [] s = true
starts_with (c ∷ p) [] = false
starts_with (c ∷ p) (d ∷ s) = c == d && starts_with p s

unfoldable pub includes : Text → Text → Bool
unfolding starts_with
includes p [] = is_empty p
includes p (c ∷ s) = starts_with p (c ∷ s) || includes p s

-- White space and line ends of ECMAScript, which `trim` removes.
unfoldable pub is_space : ℕ → Bool
is_space c =
    (leb 9 c && leb c 13)
    || c == 32
    || c == 160
    || c == 5760
    || (leb 8192 c && leb c 8202)
    || c == 8232
    || c == 8233
    || c == 8239
    || c == 8287
    || c == 12288
    || c == 65279

trim_start : Text → Text
trim_start [] = []
trim_start (c ∷ s) = if is_space c then trim_start s else c ∷ s

unfoldable pub trim : Text → Text
unfolding trim_start is_space
trim s = reverse (trim_start (reverse (trim_start s)))

All-reverse {ℓ} : (P : ℕ → Type ℓ) (s : Text) → All P s → All P (reverse s)
All-reverse P [] h = tt
All-reverse P (c ∷ s) (h, k) =
    rw (reverse-cons c s) (All-append P (reverse s) (c ∷ []) (All-reverse P s k) (h, tt))

abbrev pub IsInk : ℕ → Type 0
IsInk c = is_space c ≡ false

trim_start_of_IsInk : (s : Text) → All IsInk s → trim_start s ≡ s
unfolding trim_start
trim_start_of_IsInk [] h = refl
trim_start_of_IsInk (c ∷ s) (h, k) = rw h

-- A text with no white space is left as it is.
pub trim_of_IsInk : (s : Text) → All IsInk s → trim s ≡ s
unfolding trim
trim_of_IsInk s h =
    rw (trim_start_of_IsInk s h, trim_start_of_IsInk (reverse s) (All-reverse IsInk s h))
      (reverse-reverse s)

pub text_eq_of_ne : (s u : Text) → s ≢ u → text_eq s u ≡ false
text_eq_of_ne s u n = ground (arith, text_eq_iff s u)
