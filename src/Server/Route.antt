-- ===== src/Server/Route.antt =====
-- Which bucket and which action the server takes from a URL (studio/handlers.go). Of Go's library:
-- `strings.Split`, `TrimPrefix` and `Cut`, and `Query().Get` of net/url; of ServeMux, that it redirects a path that
-- is not clean.
pub mod Address
pub mod Agreement
use cocodb.Base.{
  ℕ, Bool, not, ◌||◌, ◌&&◌, true, false, Option, none, some, List, [], ◌∷◌, ◌==◌, if◌then◌else◌,
}
use cocodb.Base.Text.{Text, codes, text_eq, is_empty}
use cocodb.Server.Unescape.{unescape}

infixl 5 ◌>>=◌
abbrev pub ◌>>=◌ {ℓ κ} : {A : Type ℓ} {B : Type κ} → Option A → (A → Option B) → Option B
none >>= k = none
some a >>= k = k a

-- `strings.Cut`: what stands before the first separator, and what behind it.
unfoldable pub cut : ℕ → Text → Text × Text
cut sep [] = ([], [])
cut sep (c ∷ s) =
    let (before, after) = cut sep s in if c == sep then ([], s) else (c ∷ before, after)

abbrev onto : ℕ → List Text → List Text
onto c [] = (c ∷ []) ∷ []
onto c (p ∷ ps) = (c ∷ p) ∷ ps

-- `strings.Split` at one character.
unfoldable pub split : ℕ → Text → List Text
split sep [] = [] ∷ []
split sep (c ∷ s) = let rest = split sep s in if c == sep then [] ∷ rest else onto c rest

unfoldable pub starts : Text → Text → Option Text
starts [] s = some s
starts (c ∷ p) [] = none
starts (c ∷ p) (d ∷ s) = if c == d then starts p s else none

unfoldable pub trim_prefix : Text → Text → Text
unfolding starts
trim_prefix p s = elim (starts p s) [ none ↦ s | some rest ↦ rest ]

unfoldable pub contains : ℕ → Text → Bool
contains c [] = false
contains c (d ∷ s) = c == d || contains c s

-- One setting of a query; what cannot be read is skipped.
query_pair : Text → Option (List ℕ × List ℕ)
unfolding cut contains
query_pair s =
    let (key, value) = cut 61 s in
    if is_empty s || contains 59 s
    then none
    else do k ← unescape true key; v ← unescape true value; some (k, v)

-- The value of the first setting of that name, or the empty string.
query_value : List ℕ → List Text → List ℕ
unfolding query_pair
query_value name [] = []
query_value name (s ∷ ss) =
    let rest = query_value name ss in
    elim (query_pair s) [ none ↦ rest | some (k, v) ↦ if text_eq k name then v else rest ]

unfoldable pub query_get : Text → List ℕ → List ℕ
unfolding query_value split
query_get query name = query_value name (split 38 query)

-- What `handleKVRoute` and `handleDocRoute` decide before they act.
pub data Decision : Type 0 where
  bad_format : Decision
  routed : (name action : List ℕ) → Decision

unfoldable pub parts_decision : List Text → Decision
parts_decision [] = bad_format
parts_decision (name ∷ []) = bad_format
parts_decision (name ∷ action ∷ _) = routed name action

unfoldable pub route : Text → List ℕ → Decision
unfolding parts_decision trim_prefix split
route prefix path = parts_decision (split 47 (trim_prefix prefix path))

-- The decoded path and the raw query of a URL.
unfoldable pub url_parts : Text → Option (List ℕ × Text)
unfolding cut
url_parts url = do let (path, query) = cut 63 url; p ← unescape false path; some (p, query)

abbrev pub kv_prefix : Text
kv_prefix = codes "/api/kv/"

abbrev pub doc_prefix : Text
doc_prefix = codes "/api/doc/"

-- The action with the parameters that its case reads.
pub data KvAction : Type 0 where
  scan : (prefix : List ℕ) → KvAction
  get : (key : List ℕ) → KvAction
  put incr unknown : KvAction
  delete : (key : List ℕ) → KvAction

unfoldable pub kv_action : List ℕ → Text → KvAction
unfolding text_eq
kv_action action query =
    if text_eq action (codes "scan")
    then scan (query_get query (codes "prefix"))
    else if text_eq action (codes "get")
    then get (query_get query (codes "key"))
    else if text_eq action (codes "put")
    then put
    else if text_eq action (codes "delete")
    then delete (query_get query (codes "key"))
    else if text_eq action (codes "incr")
    then incr
    else unknown

-- `.` and `..`, which `cleanPath` of net/http and the browser's `fetch` resolve.
unfoldable pub is_dotted : Text → Bool
is_dotted s = text_eq s (codes ".") || text_eq s (codes "..")

-- The segments behind the first slash; an empty one stands at the end only.
unfoldable pub are_clean : List Text → Bool
unfolding is_dotted
are_clean [] = true
are_clean (s ∷ []) = not (is_dotted s)
are_clean (s ∷ t ∷ ss) = not (is_empty s || is_dotted s) && are_clean (t ∷ ss)

-- The path as it was sent, still encoded, is the one that `cleanPath` makes of it.
unfoldable pub is_clean : Text → Bool
unfolding are_clean split
is_clean [] = false
is_clean (c ∷ path) = c == 47 && are_clean (split 47 path)

-- `elsewhere`: the browser sends the request to the cleaned path, or ServeMux redirects it there.
pub data KvCall : Type 0 where
  bad_request elsewhere : KvCall
  call : (bucket : List ℕ) → KvAction → KvCall

decided : Decision → Text → KvCall
unfolding kv_action
decided bad_format query = bad_request
decided (routed bucket action) query = call bucket (kv_action action query)

-- The path of a URL as it was sent.
unfoldable pub sent_path : Text → Text
sent_path url = (cut 63 url).0

unfoldable pub serve_path : (sent : Text) → List ℕ × Text → KvCall
unfolding decided route
serve_path sent (path, query) =
    if is_clean sent then decided (route kv_prefix path) query else elsewhere

unfoldable pub serve_kv : Text → Option KvCall
unfolding serve_path url_parts is_clean sent_path cut
serve_kv url = do p ← url_parts url; some (serve_path (sent_path url) p)
