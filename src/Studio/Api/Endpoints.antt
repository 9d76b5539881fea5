-- ===== src/Studio/Api/Endpoints.antt =====
-- The members of `api` in studio/frontend/src/api.ts: path, query, method and body of each.
use cocodb.Base.{ℕ, Bool, Option, none, some, ◌++◌}
use cocodb.Base.Text.{Text, codes}
use cocodb.Base.Decimal.{decimal}
use cocodb.Studio.Uri.{encode_uri_component}
use cocodb.Studio.Json.{Number, Json, boolean, number, string, object, Fields, end, field, optional}
use cocodb.Studio.Api.{Method, HttpRequest, no_options, fetch_call}

-- A request with no options, which is a GET.
unfoldable pub plain : Text → HttpRequest
unfolding fetch_call
plain path = fetch_call path no_options

-- A POST with a JSON object, or with no body, and a DELETE.
unfoldable pub post_json : Text → Json → HttpRequest
unfolding fetch_call
post_json path body =
    fetch_call path (record { method = some Method.post; headers = none; body = some body })

unfoldable pub post_nothing : Text → HttpRequest
unfolding fetch_call
post_nothing path =
    fetch_call path (record { method = some Method.post; headers = none; body = none })

unfoldable pub delete : Text → HttpRequest
unfolding fetch_call
delete path = fetch_call path (record { method = some Method.delete; headers = none; body = none })

pub get_stats : HttpRequest
get_stats = plain (codes "/stats")

pub get_catalog : HttpRequest
get_catalog = plain (codes "/catalog")

pub list_time_series : HttpRequest
list_time_series = plain (codes "/timeseries/list")

pub record TimeSeriesQuery : Type 0 where
  pub series : Text
  pub start : Option Text
  pub finish : Option Text
  pub tags : Fields
  pub limit : Number
  pub descending : Bool

abbrev text? : Option Text → Option Json
text? none = none
text? (some t) = some (string t)

unfoldable pub query_time_series : TimeSeriesQuery → HttpRequest
query_time_series q = post_json (codes "/timeseries/query") (
    object (
      field (codes "series") (string q.series) (
        optional (codes "start") (text? q.start) (
          optional (codes "end") (text? q.finish) (
            field (codes "tags") (object q.tags) (
              field (codes "limit") (number q.limit)
                (field (codes "descending") (boolean q.descending) end)))))))

pub record Point : Type 0 where
  pub timestamp : Text
  pub tags : Fields
  pub fields : Fields

abbrev point_json : Point → Json
point_json p = object (
    field (codes "Timestamp") (string p.timestamp)
      (field (codes "Tags") (object p.tags) (field (codes "Fields") (object p.fields) end)))

pub write_time_series : Text → Point → HttpRequest
write_time_series series p =
    post_json (codes "/timeseries/write")
      (object (field (codes "series") (string series) (field (codes "point") (point_json p) end)))

pub prune_time_series : Text → Text → HttpRequest
prune_time_series series before =
    post_json (codes "/timeseries/prune")
      (object (field (codes "series") (string series) (field (codes "before") (string before) end)))

-- The buckets. `scan` writes the limit that the server does not read.
kv_path : Text → Text → Text
kv_path bucket rest = codes "/kv/" ++ (encode_uri_component bucket ++ (codes "/" ++ rest))

unfoldable pub scan_bucket : Text → Text → ℕ → HttpRequest
unfolding kv_path plain
scan_bucket bucket prefix limit = plain (
    kv_path bucket
      (codes "scan?prefix=" ++ (encode_uri_component prefix ++ (codes "&limit=" ++ decimal limit))))

unfoldable pub get_kv : Text → Text → HttpRequest
unfolding kv_path plain
get_kv bucket key = plain (kv_path bucket (codes "get?key=" ++ encode_uri_component key))

number? : Option Number → Option Json
number? none = none
number? (some n) = some (number n)

unfoldable pub put_kv : Text → Text → Text → Option Number → HttpRequest
unfolding kv_path post_json number?
put_kv bucket key value ttl = post_json (kv_path bucket (codes "put")) (
    object (
      field (codes "key") (string key)
        (field (codes "value") (string value) (optional (codes "ttl") (number? ttl) end))))

unfoldable pub delete_kv : Text → Text → HttpRequest
unfolding kv_path delete
delete_kv bucket key = delete (kv_path bucket (codes "delete?key=" ++ encode_uri_component key))

unfoldable pub increment_kv : Text → Text → Number → HttpRequest
unfolding kv_path post_json
increment_kv bucket key delta =
    post_json (kv_path bucket (codes "incr"))
      (object (field (codes "key") (string key) (field (codes "delta") (number delta) end)))
