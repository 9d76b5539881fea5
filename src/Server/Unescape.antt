-- ===== src/Server/Unescape.antt =====
-- How Go's net/url reads what `encodeURIComponent` wrote: `unescape` of a path and of a query.
use cocodb.Base.{
  ℕ, ◌+◌, ◌-◌, ◌*◌, ◌/◌, ◌%◌, ◌<◌, ◌≡◌, ◌≢◌, refl, ap, inl, inr, Bool-cases, ◌∙◌, Bool, ◌&&◌, ◌||◌,
  true, false, Option, none, some, List, [], ◌∷◌, ◌++◌, arith, leb, ◌==◌, if◌then◌else◌, All,
  flat_map, append_assoc, append-nil,
}
use mathlib.Core.Option
use cocodb.Base.Text.{Text}
use cocodb.Studio.Uri.{utf8, is_unreserved, hex_digit, encode_byte, encode_uri_component}
use cocodb.Studio.Uri.Bytes.{IsByte, IsScalar, utf8-IsByte}

-- `ishex` and `unhex`.
is_hex : ℕ → Bool
is_hex c = (leb b'0' c && leb c b'9') || (leb b'a' c && leb c b'f') || (leb b'A' c && leb c b'F')

unhex : ℕ → ℕ
unhex c = if leb c b'9' then c - 48 else if leb c b'F' then c - 55 else c - 87

-- In a query, and nowhere else, a plus sign is a space.
plain : (is_query : Bool) → ℕ → ℕ
plain is_query c = if is_query && c == 43 then 32 else c

-- `none` is the error for a bad escape; the result is a Go string, that is, bytes.
unfoldable pub unescape : (is_query : Bool) → Text → Option (List ℕ)
unfolding plain is_hex unhex
unescape q [] = some []
unescape q (c ∷ []) = if c == 37 then none else some (plain q c ∷ [])
unescape q (c ∷ h ∷ []) = if c == 37 then none else Option.map (plain q c ∷◌) (unescape q (h ∷ []))
unescape q (c ∷ h ∷ l ∷ r) = elim (c == 37) [
  | true ↦
      if is_hex h && is_hex l then Option.map ((unhex h * 16 + unhex l) ∷◌) (unescape q r) else none
  | false ↦ Option.map (plain q c ∷◌) (unescape q (h ∷ l ∷ r))
]

hex_digit-is_hex : (n : ℕ) → n < 16 → is_hex (hex_digit n) ≡ true
unfolding is_hex hex_digit
hex_digit-is_hex n h = ground arith

unhex-hex_digit : (n : ℕ) → n < 16 → unhex (hex_digit n) ≡ n
unfolding unhex hex_digit
unhex-hex_digit n h = ground arith

plain_of_unreserved : (q : Bool) (b : ℕ) → is_unreserved b ≡ true → plain q b ≡ b
unfolding plain is_unreserved
plain_of_unreserved q b h = ground arith

ne-percent : (b : ℕ) → is_unreserved b ≡ true → (b == 37) ≡ false
unfolding is_unreserved
ne-percent b h = ground arith

-- A character that is not a percent sign is read by itself, whatever follows.
unescape-cons :
    (q : Bool) (c : ℕ) (r : Text)
    → (c == 37) ≡ false
    → unescape q (c ∷ r) ≡ Option.map (plain q c ∷◌) (unescape q r)
unfolding unescape
unescape-cons q c [] e = rw e
unescape-cons q c (h ∷ []) e = rw e
unescape-cons q c (h ∷ l ∷ r) e = rw (e, unescape)

unescape-escape :
    (q : Bool) (b : ℕ) (r : Text)
    → b < 256
    → unescape q (37 ∷ hex_digit (b / 16) ∷ hex_digit (b % 16) ∷ r)
      ≡ Option.map (b ∷◌) (unescape q r)
unfolding unescape
unescape-escape q b r h =
    rw
      (
        hex_digit-is_hex (b / 16) (omega arith),
        hex_digit-is_hex (b % 16) (omega arith),
        unhex-hex_digit (b / 16) (omega arith),
        unhex-hex_digit (b % 16) (omega arith),
      )
      (ap (λ (d : ℕ). Option.map (d ∷◌) (unescape q r)) (omega arith))

unescape-encode_byte :
    (q : Bool) (b : ℕ) (r : Text)
    → b < 256
    → unescape q (encode_byte b ++ r) ≡ Option.map (b ∷◌) (unescape q r)
unfolding encode_byte
unescape-encode_byte q b r h = elim (Bool-cases (is_unreserved b)) [
  | inl e ↦ rw (e, unescape-cons q b r (ne-percent b e)) (rw (plain_of_unreserved q b e))
  | inr e ↦ rw e (unescape-escape q b r h)
]

map-append-nil : (o : Option (List ℕ)) → o ≡ Option.map ([] ++◌) o
map-append-nil none = refl
map-append-nil (some bs) = refl

map-cons-append :
    (b : ℕ) (bs : List ℕ) (o : Option (List ℕ))
    → Option.map (b ∷◌) (Option.map (bs ++◌) o) ≡ Option.map ((b ∷ bs) ++◌) o
map-cons-append b bs none = refl
map-cons-append b bs (some r) = refl

unescape-encode_bytes :
    (q : Bool) (bs : List ℕ) (r : Text)
    → All IsByte bs
    → unescape q (flat_map encode_byte bs ++ r) ≡ Option.map (bs ++◌) (unescape q r)
unescape-encode_bytes q [] r h = map-append-nil (unescape q r)
unescape-encode_bytes q (b ∷ bs) r (h, k) =
    rw
      (
        append_assoc (encode_byte b) (flat_map encode_byte bs) r,
        unescape-encode_byte q b (flat_map encode_byte bs ++ r) h,
        unescape-encode_bytes q bs r k,
      )
      (map-cons-append b bs (unescape q r))

-- The server reads an encoded text of code points back as its bytes in UTF-8, from the path and
-- from the query alike, whatever follows it.
pub unescape-encode_uri_component :
    (q : Bool) (t r : Text)
    → All IsScalar t
    → unescape q (encode_uri_component t ++ r) ≡ Option.map (utf8 t ++◌) (unescape q r)
unfolding encode_uri_component
unescape-encode_uri_component q t r h = unescape-encode_bytes q (utf8 t) r (utf8-IsByte t h)

-- In a path, characters other than the percent sign stand for themselves.
pub unescape-append :
    (s r : Text)
    → All (λ c. c ≢ 37) s
    → unescape false (s ++ r) ≡ Option.map (s ++◌) (unescape false r)
unfolding plain
unescape-append [] r h = map-append-nil (unescape false r)
unescape-append (c ∷ s) r (h, k) =
    unescape-cons false c (s ++ r) (ground arith)
    ∙ (ap (Option.map (c ∷◌)) (unescape-append s r k) ∙ map-cons-append c s (unescape false r))

-- So do they in a query, but for the plus sign.
pub unescape_query : (s : Text) → All (λ c. (c ≢ 37) × (c ≢ 43)) s → unescape true s ≡ some s
unfolding plain
unescape_query [] h = unfold unescape in refl
unescape_query (c ∷ s) (h, k) =
    unescape-cons true c s (ground arith)
    ∙ (ap (Option.map (plain true c ∷◌)) (unescape_query s k) ∙ ground arith)

pub unescape_plain : (s : Text) → All (λ c. c ≢ 37) s → unescape false s ≡ some s
unfolding unescape
unescape_plain s h = rw append-nil at (unescape-append s [] h)

pub unescape-encode_uri_component_end :
    (q : Bool) (t : Text) → All IsScalar t → unescape q (encode_uri_component t) ≡ some (utf8 t)
unfolding unescape
unescape-encode_uri_component_end q t h =
    simp append-nil at (unescape-encode_uri_component q t [] h)
