-- ===== src/Engine/Tokenizer.antt =====
-- internal/text/tokenizer.go: the terms that the index has of a text.
pub mod Preview
use cocodb.Base.{
  ℕ, Bool, true, false, not, ◌||◌, Option, none, some, List, [], ◌∷◌, ◌++◌, if◌then◌else◌, ltb,
}
use cocodb.Base.Text.{Text}
use cocodb.Studio.FullText.Tokens.{is_upper, is_lower, is_digit, to_lower}

-- The loop's variables: `start` has the text from the index `start` on, or is none for -1.
pub record Scan : Type 0 where
  pub tokens : List Text
  pub start : Option Text
  pub has_upper : Bool

grown : Option Text → ℕ → Text
grown none c = c ∷ []
grown (some cur) c = cur ++ c ∷ []

-- `hasUpper` is reset where a token starts.
upper_so_far : Option Text → Bool → Bool
upper_so_far none up = false
upper_so_far (some cur) up = up

grow : Bool → Scan → ℕ → Scan
unfolding grown
grow up st c = record st { start = some (grown st.start c); has_upper = up }

-- `letter` is `unicode.IsLetter(r) || unicode.IsDigit(r)` beyond ASCII.
module _ (letter : ℕ → Bool) (beyond : Text → Text) where
  ended : Scan → Option Text → Scan
  ended st none = st
  ended st (some cur) = record st {
    tokens = st.tokens ++ (if not st.has_upper then cur else to_lower beyond cur) ∷ [];
    start = none;
  }

  -- Behind a character that is not ASCII, the token is lowered whatever it has.
  ended_lower : Scan → Option Text → Scan
  ended_lower st none = st
  ended_lower st (some cur) = record st {
    tokens = st.tokens ++ to_lower beyond cur ∷ [];
    start = none;
  }

  unfoldable pub scan_step : Scan → ℕ → Scan
  unfolding grow upper_so_far ended ended_lower
  scan_step st c =
      if ltb c 128
      then if is_lower c || is_digit c
        then grow (upper_so_far st.start st.has_upper) st c
        else if is_upper c
        then grow true st c
        else ended st st.start
      else if letter c
      then grow true st c
      else ended_lower st st.start

  scan : Scan → Text → Scan
  scan st [] = st
  scan st (c ∷ s) = scan (scan_step st c) s

  unfoldable pub tokenize : Text → List Text
  unfolding scan ended
  tokenize text =
      let st = scan (record { tokens = []; start = none; has_upper = false }) text in
      (ended st st.start).tokens
