-- ===== src/Studio/Uri/Bytes.antt =====
-- What the encoder's output is made of.
use cocodb.Base.{
  ℕ, ◌/◌, ◌<◌, ◌≡◌, ◌≢◌, refl, [], ◌∷◌, ◌++◌, arith, All, All-append, flat_map-append, All-flat_map,
}
use cocodb.Base.Text.{Text}
use cocodb.Studio.Uri.{utf8_char, utf8, encode_byte, encode_uri_component}

-- A code point of Unicode, up to 0x10ffff, which is no surrogate: those are 0xd800 to 0xdfff, and
-- 0xd800 is 27 * 0x800.
abbrev pub IsScalar : ℕ → Type 0
IsScalar c = (c < 0x110000) × (c / 0x800 ≢ 27)

abbrev pub IsByte : ℕ → Type 0
IsByte b = b < 256

utf8_char-IsByte : (c : ℕ) → IsScalar c → All IsByte (utf8_char c)
unfolding utf8_char
utf8_char-IsByte c h = ground arith

pub utf8-IsByte : (t : Text) → All IsScalar t → All IsByte (utf8 t)
unfolding utf8
utf8-IsByte [] h = tt
utf8-IsByte (c ∷ t) (h, k) =
    All-append IsByte (utf8_char c) _ (utf8_char-IsByte c h) (utf8-IsByte t k)

-- A character that stands neither for a separator of paths and queries nor for a space.
pub record IsOpaque (c : ℕ) : Type 0 where
  pub no_slash : c ≢ 47
  pub no_question : c ≢ 63
  pub no_ampersand : c ≢ 38
  pub no_equals : c ≢ 61
  pub no_plus : c ≢ 43
  pub no_hash : c ≢ 35
  pub no_semicolon : c ≢ 59

encode_byte-IsOpaque : (b : ℕ) → All IsOpaque (encode_byte b)
unfolding encode_byte
encode_byte-IsOpaque b = ground arith

pub encode_uri_component-IsOpaque : (t : Text) → All IsOpaque (encode_uri_component t)
unfolding encode_uri_component
encode_uri_component-IsOpaque t = All-flat_map encode_byte IsOpaque encode_byte-IsOpaque (utf8 t)

-- The bytes of a text hold a slash only if the text does.
abbrev pub NoSlash : ℕ → Type 0
NoSlash c = c ≢ 47

utf8_char-NoSlash : (c : ℕ) → NoSlash c → All NoSlash (utf8_char c)
unfolding utf8_char
utf8_char-NoSlash c h = ground arith

pub utf8-NoSlash : (t : Text) → All NoSlash t → All NoSlash (utf8 t)
unfolding utf8
utf8-NoSlash [] h = tt
utf8-NoSlash (c ∷ t) (h, k) =
    All-append NoSlash (utf8_char c) _ (utf8_char-NoSlash c h) (utf8-NoSlash t k)

pub utf8-append : (s t : Text) → utf8 (s ++ t) ≡ utf8 s ++ utf8 t
unfolding utf8
utf8-append s t = flat_map-append utf8_char s t

is_empty-utf8_char : (c : ℕ) (t : Text) → utf8_char c ++ t ≢ []
unfolding utf8_char
is_empty-utf8_char c t = ground arith

-- A byte of ASCII comes from the character that it stands for.
utf8_char_ascii : (c d : ℕ) (r s : Text) → d < 128 → utf8_char c ++ r ≡ d ∷ s → (c ≡ d) × (r ≡ s)
unfolding utf8_char
utf8_char_ascii c d r s l e = ground arith

pub utf8_ascii : (t s : Text) → All (λ d. d < 128) s → utf8 t ≡ s → t ≡ s
unfolding utf8
utf8_ascii [] [] l e = refl
utf8_ascii [] (d ∷ s) l e = absurd cc
utf8_ascii (c ∷ t) [] l e = absurd (is_empty-utf8_char c (utf8 t) e)
utf8_ascii (c ∷ t) (d ∷ s) (l, k) e =
    let (f, g) = utf8_char_ascii c d (utf8 t) s l e in let h = utf8_ascii t s k g in cc
