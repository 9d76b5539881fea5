-- ===== src/Tests/Server.antt =====
-- The client's URLs, written and read.
use cocodb.Base.{◌≡◌, refl, true, none, some, [], ◌∷◌, ◌++◌, arith}
use cocodb.Base.Text.{Text, codes, text_eq, trim}
use cocodb.Base.Decimal.{decimal, digits_value}
use cocodb.Studio.Json.{nat, boolean, number, string}
use cocodb.Studio.Number.{coerce}
use cocodb.Studio.Uri.{utf8, encode_uri_component}
use cocodb.Studio.Api.Endpoints.{scan_bucket, get_kv, put_kv, delete_kv, increment_kv}
use cocodb.Server.Unescape.{unescape}
use cocodb.Server.Route.{
  call, elsewhere, scan, get, put, incr, delete, kv_action, query_get, serve_kv,
}
use cocodb.Server.Route.Address.{IsSegment}
use cocodb.Server.Route.Agreement.{serve_kv-agrees, serve_kv-slash}

-- "a/b c" with an umlaut.
abbrev odd_key : Text
odd_key = codes "a/ü c"

encoded_key : encode_uri_component odd_key ≡ codes "a%2F%C3%BC%20c"
unfolding encode_uri_component
encoded_key = refl

scan_url :
    (scan_bucket (codes "users") (codes "u:") 100).url
    ≡ codes "/api/kv/users/scan?prefix=u%3A&limit=100"
unfolding scan_bucket encode_uri_component decimal
scan_url = refl

served :
    serve_kv (codes "/api/kv/users/get?key=a%2Fb+c")
    ≡ some (call (codes "users") (get (codes "a/b c")))
unfolding serve_kv unescape query_get
served = refl

abbrev users : Text
users = codes "users"

users-IsSegment : IsSegment users
users-IsSegment = ((λ e. cc), (λ e. cc), (λ e. cc))

-- A bucket named `..` is out of reach: its requests go to another path.
dotted_bucket : serve_kv (increment_kv (codes "..") (codes "k") (nat 1)).url ≡ some elsewhere
unfolding serve_kv unescape increment_kv encode_uri_component text_eq
dotted_bucket = refl

serve_kv-agrees_example :
    (serve_kv (scan_bucket users odd_key 100).url ≡ some (call (utf8 users) (scan (utf8 odd_key))))
    × (serve_kv (get_kv users odd_key).url ≡ some (call (utf8 users) (get (utf8 odd_key))))
    × (serve_kv (put_kv users odd_key [] none).url ≡ some (call (utf8 users) put))
    × (serve_kv (delete_kv users odd_key).url ≡ some (call (utf8 users) (delete (utf8 odd_key))))
    × (serve_kv (increment_kv users odd_key (nat 1)).url ≡ some (call (utf8 users) incr))
serve_kv-agrees_example =
    serve_kv-agrees users (omega arith, omega arith) users-IsSegment odd_key odd_key [] 100 none
      (nat 1) (omega arith) (omega arith)

serve_kv-slash_example :
    serve_kv (increment_kv (codes "users" ++ 47 ∷ codes "delete") (codes "k") (nat 1)).url
    ≡ some (call (utf8 users) (kv_action (utf8 (codes "delete")) []))
serve_kv-slash_example =
    serve_kv-slash users (codes "delete") (omega arith, omega arith) (omega arith, omega arith)
      (codes "k") (nat 1)

coerced :
    (coerce (codes "true") ≡ boolean true)
    × (coerce (codes " 12 ") ≡ number (nat 12))
    × (coerce (codes "0x1F") ≡ number (nat 31))
    × (coerce (codes "  ") ≡ string (codes "  "))
    × (coerce (codes "1_000") ≡ string (codes "1_000"))
unfolding coerce text_eq trim digits_value
coerced = (refl, refl, refl, refl, refl)
