-- ===== src/Tests/Engine.antt =====
-- The terms of a text and the matching of topics, in the engine and in the studio.
use cocodb.Base.{ℕ, ◌≡◌, ◌↔◌, refl, Bool, true, false, [], ◌∷◌, ◌++◌, All, arith}
use cocodb.Base.Text.{Text, codes, text_eq}
use cocodb.Server.Route.{split}
use cocodb.Studio.FullText.Tokens.{query_tokens, to_lower, is_ascii, lower_ascii}
use cocodb.Engine.Tokenizer.{tokenize, scan_step}
use cocodb.Engine.Tokenizer.Preview.{Plain, query_tokens-tokenize}
use cocodb.Engine.Matching.{match_topic}
use cocodb.Engine.Matching.Decided.{Matches, match_topic_iff}

-- No letters beyond ASCII, and no case of theirs.
abbrev no_letter : ℕ → Bool
no_letter c = false

abbrev unchanged : Text → Text
unchanged t = t

abbrev title : Text
title = codes "B+Tree pages, 16KiB"

title-Plain : All Plain title
title-Plain = omega arith

terms_of_title :
    tokenize no_letter unchanged title
    ≡ codes "b" ∷ codes "tree" ∷ codes "pages" ∷ codes "16kib" ∷ []
unfolding tokenize scan_step to_lower is_ascii lower_ascii
terms_of_title = refl

query_tokens-tokenize_example : query_tokens unchanged title ≡ tokenize no_letter unchanged title
query_tokens-tokenize_example =
    query_tokens-tokenize no_letter unchanged unchanged title title-Plain

-- The underscore is a part of a term only in the preview.
previewed : query_tokens unchanged (codes "snake_case") ≡ codes "snake_case" ∷ []
unfolding query_tokens to_lower is_ascii lower_ascii
previewed = refl

indexed : tokenize no_letter unchanged (codes "snake_case") ≡ codes "snake" ∷ codes "case" ∷ []
unfolding tokenize scan_step to_lower is_ascii lower_ascii
indexed = refl

one_segment : match_topic (codes "sensors.*.temp") (codes "sensors.iot.temp") ≡ true
unfolding match_topic text_eq
one_segment = refl

not_two : match_topic (codes "sensors.*") (codes "sensors.iot.temp") ≡ false
unfolding match_topic text_eq
not_two = refl

match_topic_iff_example :
    ((match_topic (codes "events.>") (codes "events.user.login") ≡ true)
      ↔ Matches (split b'.' (codes "events.>")) (split b'.' (codes "events.user.login")))
    × (match_topic (codes "events.user.login" ++ codes ".>") (codes "events.user.login") ≡ true)
match_topic_iff_example = match_topic_iff (codes "events.>") (codes "events.user.login")
