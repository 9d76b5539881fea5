-- ===== src/Studio/FullText/Tokens.antt =====
-- SearchPlaygroundView.tsx: the preview of the terms of a query.
use cocodb.Base.{
  ℕ, ◌+◌, Bool, true, false, not, ◌&&◌, ◌||◌, List, [], ◌∷◌, map, filter, if◌then◌else◌, leb, ltb,
  ◌==◌,
}
use cocodb.Base.Text.{Text, is_empty}

abbrev pub is_upper : ℕ → Bool
is_upper c = leb b'A' c && leb c b'Z'

abbrev pub is_lower : ℕ → Bool
is_lower c = leb b'a' c && leb c b'z'

abbrev pub is_digit : ℕ → Bool
is_digit c = leb b'0' c && leb c b'9'

-- The class `\w` of a regular expression.
unfoldable pub is_word : ℕ → Bool
is_word c = is_lower c || is_upper c || is_digit c || c == b'_'

unfoldable pub lower_ascii : ℕ → ℕ
lower_ascii c = if is_upper c then c + 32 else c

unfoldable pub is_ascii : Text → Bool
is_ascii [] = true
is_ascii (c ∷ s) = ltb c 128 && is_ascii s

-- `text.toLowerCase()` and Go's `strings.ToLower(text)`. What Unicode says of a text that is not
-- ASCII is the parameter `beyond`.
unfoldable pub to_lower : (Text → Text) → Text → Text
unfolding is_ascii lower_ascii
to_lower beyond t = if is_ascii t then map lower_ascii t else beyond t

unfoldable pub prepend : ℕ → List Text → List Text
prepend c [] = (c ∷ []) ∷ []
prepend c (p ∷ ps) = (c ∷ p) ∷ ps

-- `s.split(/\W+/)`: `inside` says that the character before was one of a separator.
unfoldable pub parts : Bool → Text → List Text
unfolding is_word prepend
parts inside [] = [] ∷ []
parts inside (c ∷ s) =
    let rest = parts (not (is_word c)) s in
    if is_word c then prepend c rest else if inside then rest else [] ∷ rest

-- `.filter(Boolean)`.
unfoldable pub nonempty : List Text → List Text
nonempty ps = filter (λ p. not (is_empty p)) ps

unfoldable pub query_tokens : (Text → Text) → Text → List Text
unfolding to_lower parts nonempty
query_tokens beyond text = nonempty (parts false (to_lower beyond text))
