-- ===== src/Studio/Uri.antt =====
-- `encodeURIComponent`, with which studio/frontend/src/api.ts writes names and keys into a URL.
-- A text is a list of code points. This is the function on texts without lone surrogates, `IsScalar`
-- in Bytes. On others it throws before `fetch` is called, which a view handles as a request that
-- failed.
pub mod Bytes
use cocodb.Base.{
  ℕ, ◌+◌, ◌*◌, ◌/◌, ◌%◌, Bool, ◌||◌, ◌&&◌, List, [], ◌∷◌, ltb, leb, ◌==◌, if◌then◌else◌, flat_map,
}
use cocodb.Base.Text.{Text}

-- The bytes of one code point in UTF-8.
unfoldable pub utf8_char : ℕ → List ℕ
utf8_char c =
    if ltb c 0x80
    then c ∷ []
    else if ltb c 0x800
    then (192 + c / 64) ∷ (128 + c % 64) ∷ []
    else if ltb c 0x10000
    then (224 + c / 4096) ∷ (128 + c / 64 % 64) ∷ (128 + c % 64) ∷ []
    else (240 + c / 262144) ∷ (128 + c / 4096 % 64) ∷ (128 + c / 64 % 64) ∷ (128 + c % 64) ∷ []

unfoldable pub utf8 : Text → List ℕ
utf8 = flat_map utf8_char

-- Letters, digits and the marks - _ . ! ~ * ' ( ) stand for themselves.
unfoldable pub is_unreserved : ℕ → Bool
is_unreserved b =
    (leb b'A' b && leb b b'Z')
    || (leb b'a' b && leb b b'z')
    || (leb b'0' b && leb b b'9')
    || b == 45
    || b == 95
    || b == 46
    || b == 33
    || b == 126
    || b == 42
    || b == 39
    || b == 40
    || b == 41

unfoldable pub hex_digit : ℕ → ℕ
hex_digit n = if ltb n 10 then 48 + n else 55 + n

-- Any other byte is written %XX.
unfoldable pub encode_byte : ℕ → Text
unfolding is_unreserved hex_digit
encode_byte b =
    if is_unreserved b then b ∷ [] else 37 ∷ hex_digit (b / 16) ∷ hex_digit (b % 16) ∷ []

unfoldable pub encode_uri_component : Text → Text
unfolding encode_byte utf8 utf8_char
encode_uri_component t = flat_map encode_byte (utf8 t)
