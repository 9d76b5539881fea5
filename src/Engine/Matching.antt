-- ===== src/Engine/Matching.antt =====
-- internal/pubsub/topic.go: how a topic is matched with the pattern of a subscription.
pub mod Decided
use cocodb.Base.{Bool, true, false, not, ◌&&◌, ◌||◌, List, [], ◌∷◌, if◌then◌else◌}
use cocodb.Base.Text.{Text, codes, text_eq}
use cocodb.Server.Route.{split}

-- The wildcards of one segment and of the rest.
abbrev pub star : Text
star = codes "*"

abbrev pub rest_of : Text
rest_of = codes ">"

-- The loop over the parts of the pattern, and the comparison of the lengths behind it.
match_parts : List Text → List Text → Bool
match_parts [] [] = true
match_parts [] (t ∷ ts) = false
match_parts (p ∷ ps) [] = text_eq p rest_of
match_parts (p ∷ ps) (t ∷ ts) =
    let later = match_parts ps ts in
    if text_eq p rest_of
    then true
    else if not (text_eq p star) && not (text_eq p t)
    then false
    else later

unfoldable pub match_topic : Text → Text → Bool
unfolding match_parts split
match_topic pattern topic =
    if text_eq pattern topic || text_eq pattern rest_of
    then true
    else match_parts (split b'.' pattern) (split b'.' topic)
