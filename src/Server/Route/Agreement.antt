-- ===== src/Server/Route/Agreement.antt =====
-- The URLs of studio/frontend/src/api.ts against the routes of studio/handlers.go.
use cocodb.Base.{
  ℕ, ◌≡◌, refl, ◌∙◌, ap, sym, subst, ◌≢◌, true, false, Option, some, List, [], ◌∷◌, ◌++◌, arith,
  All, All-append, All-mono, append_assoc,
}
use cocodb.Base.Text.{Text, codes, text_eq, text_eq_refl, is_empty}
use cocodb.Studio.Json.{Number}
use cocodb.Studio.Uri.{utf8, utf8_char, encode_uri_component}
use cocodb.Studio.Uri.Bytes.{
  IsScalar, IsOpaque, NoSlash, utf8-NoSlash, utf8-append, encode_uri_component-IsOpaque,
}
use cocodb.Studio.Api.Endpoints.{scan_bucket, get_kv, put_kv, delete_kv, increment_kv}
use cocodb.Server.Unescape.{unescape_query, unescape-encode_uri_component_end}
use cocodb.Server.Route.Address.{
  cut-append, trim_prefix-append, split-append, split-none, contains-none, IsPlain, IsSegment,
  address, cut-query, cut-plain, url_parts_query, url_parts_plain, route-address, is_clean-address,
}
use cocodb.Server.Route.{
  split, route, routed, query_pair, query_value, query_get, kv_prefix, scan, get, put, incr, delete,
  kv_action, call, decided, is_dotted, is_clean, sent_path, url_parts, serve_path, serve_kv,
}

-- The name of a setting as the client writes it.
abbrev IsKey : ℕ → Type 0
IsKey c = (c ≢ 37) × (c ≢ 43) × (c ≢ 61) × (c ≢ 38) × (c ≢ 59)

abbrev setting : Text → Text → Text
setting key t = key ++ 61 ∷ encode_uri_component t

is_empty-setting : (key t : Text) → is_empty (setting key t) ≡ false
is_empty-setting [] t = refl
is_empty-setting (c ∷ key) t = refl

module _ (key t : Text) (plain_key : All IsKey key) (points : All IsScalar t) where
  setting-All :
      (c : ℕ)
      → c ≢ 61
      → ((d : ℕ) → IsKey d → d ≢ c)
      → ((d : ℕ) → IsOpaque d → d ≢ c)
      → All (λ d. d ≢ c) (setting key t)
  setting-All c e h k =
      All-append (λ d. d ≢ c) key _ (All-mono IsKey (λ d. d ≢ c) h key plain_key)
        ((λ q. e (sym q)), All-mono IsOpaque (λ d. d ≢ c) k _ (encode_uri_component-IsOpaque t))

  no_ampersand : All (λ d. d ≢ 38) (setting key t)
  no_ampersand = setting-All 38 (omega arith) (λ d h. h.3) (λ d h. h.no_ampersand)

  query_pair-setting : query_pair (setting key t) ≡ some (key, utf8 t)
  unfolding query_pair
  query_pair-setting = rw (
    is_empty-setting key t,
    cut-append 61 key (encode_uri_component t)
        (All-mono IsKey (λ d. d ≢ 61) (λ d h. h.2) key plain_key),
    contains-none 59 (setting key t)
        (setting-All 59 (omega arith) (λ d h. h.4) (λ d h. h.no_semicolon)),
    unescape_query key
        (All-mono IsKey (λ d. (d ≢ 37) × (d ≢ 43)) (λ d h. (h.0, h.1)) key plain_key),
    unescape-encode_uri_component_end true t points,
  )

  query_value-setting : (ss : List Text) → query_value key (setting key t ∷ ss) ≡ utf8 t
  unfolding query_value
  query_value-setting ss = rw (query_pair-setting, query_value, text_eq_refl key)

  -- The first setting of a query, and the only one.
  query_get-first : (rest : Text) → query_get (setting key t ++ 38 ∷ rest) key ≡ utf8 t
  unfolding query_get
  query_get-first rest =
      rw (split-append 38 (setting key t) rest no_ampersand) (query_value-setting (split 38 rest))

  query_get-only : query_get (setting key t) key ≡ utf8 t
  unfolding query_get
  query_get-only = rw (split-none 38 (setting key t) no_ampersand) (query_value-setting [])

-- A request on a clean path reaches the handler.
serve_kv_clean :
    (url sent query : Text) (path : List ℕ)
    → url_parts url ≡ some (path, query)
    → sent_path url ≡ sent
    → is_clean sent ≡ true
    → serve_kv url ≡ some (decided (route kv_prefix path) query)
unfolding serve_kv serve_path
serve_kv_clean url sent query path e f c = rw (e, f, c)

abbrev IsName : Text → Type 0
IsName name = All IsScalar name × All NoSlash name

module _ (bucket : Text) (ok : IsName bucket) (segment : IsSegment bucket) where
  -- A request with a query, on any action.
  serve_kv_query :
      (action query : Text)
      → All IsPlain action
      → All NoSlash action
      → is_dotted action ≡ false
      → serve_kv (address kv_prefix (encode_uri_component bucket) (action ++ 63 ∷ query))
        ≡ some (call (utf8 bucket) (kv_action action query))
  unfolding sent_path decided
  serve_kv_query action query plain slash d =
      serve_kv_clean _ _ query _
        (url_parts_query kv_prefix bucket action (omega arith) ok.0 plain query)
        (ap (λ p. p.0) (cut-query kv_prefix bucket action (omega arith) ok.0 plain query))
        (is_clean-address bucket action ok.0 segment slash d)
      ∙ ap (λ r. some (decided r query))
          (route-address kv_prefix bucket action (omega arith) ok.0 plain ok.1 slash)

  serve_kv_plain :
      (action : Text)
      → All IsPlain action
      → All NoSlash action
      → is_dotted action ≡ false
      → serve_kv (address kv_prefix (encode_uri_component bucket) action)
        ≡ some (call (utf8 bucket) (kv_action action []))
  unfolding sent_path decided
  serve_kv_plain action plain slash d =
      serve_kv_clean _ _ [] _ (url_parts_plain kv_prefix bucket action (omega arith) ok.0 plain)
        (ap (λ p. p.0) (cut-plain kv_prefix bucket action (omega arith) ok.0 plain))
        (is_clean-address bucket action ok.0 segment slash d)
      ∙ ap (λ r. some (decided r []))
          (route-address kv_prefix bucket action (omega arith) ok.0 plain ok.1 slash)

  scan_action :
      (prefix rest : Text)
      → All IsScalar prefix
      → kv_action (codes "scan") (setting (codes "prefix") prefix ++ 38 ∷ rest) ≡ scan (utf8 prefix)
  unfolding kv_action
  scan_action prefix rest h = ap scan (query_get-first (codes "prefix") prefix (omega arith) h rest)

  key_action :
      (key : Text)
      → All IsScalar key
      → (kv_action (codes "get") (setting (codes "key") key) ≡ get (utf8 key))
        × (kv_action (codes "delete") (setting (codes "key") key) ≡ delete (utf8 key))
  unfolding kv_action
  key_action key h =
      let e = query_get-only (codes "key") key (omega arith) h in (ap get e, ap delete e)

  -- For a bucket whose name is of code points without a slash, and is not empty, `.` or `..`, and a
  -- prefix and a key of code points, surrogates left out everywhere: every request that the studio makes about the bucket reaches the action of its name,
  -- on that bucket, with that prefix or key; only the limit of a scan is lost on the way.
  pub serve_kv-agrees :
      (prefix key value : Text) (limit : ℕ) (ttl : Option Number) (delta : Number)
      → All IsScalar prefix
      → All IsScalar key
      → (serve_kv (scan_bucket bucket prefix limit).url
          ≡ some (call (utf8 bucket) (scan (utf8 prefix))))
        × (serve_kv (get_kv bucket key).url ≡ some (call (utf8 bucket) (get (utf8 key))))
        × (serve_kv (put_kv bucket key value ttl).url ≡ some (call (utf8 bucket) put))
        × (serve_kv (delete_kv bucket key).url ≡ some (call (utf8 bucket) (delete (utf8 key))))
        × (serve_kv (increment_kv bucket key delta).url ≡ some (call (utf8 bucket) incr))
  unfolding scan_bucket get_kv put_kv delete_kv increment_kv kv_action is_dotted text_eq
  serve_kv-agrees prefix key value limit ttl delta h k = (
    serve_kv_query (codes "scan") (setting (codes "prefix") prefix ++ 38 ∷ _) (omega arith)
          (omega arith) refl
        ∙ ap (λ a. some (call (utf8 bucket) a)) (scan_action prefix _ h),
    serve_kv_query (codes "get") (setting (codes "key") key) (omega arith) (omega arith) refl
        ∙ ap (λ a. some (call (utf8 bucket) a)) (key_action key k).0,
    serve_kv_plain (codes "put") (omega arith) (omega arith) refl,
    serve_kv_query (codes "delete") (setting (codes "key") key) (omega arith) (omega arith) refl
        ∙ ap (λ a. some (call (utf8 bucket) a)) (key_action key k).1,
    serve_kv_plain (codes "incr") (omega arith) (omega arith) refl,
  )

-- A name with a slash in it: the server splits the path after it has decoded it.
utf8-slash : (a b : Text) → utf8 (a ++ 47 ∷ b) ≡ utf8 a ++ 47 ∷ utf8 b
utf8-slash a b = utf8-append a (47 ∷ b) ∙ (unfold utf8 utf8_char in refl)

module _ (a b : Text) (first : IsName a) (second : IsName b) where
  has_slash : (s : Text) → All NoSlash s → a ++ 47 ∷ b ≢ s
  has_slash s h e = (All-split a (subst (All NoSlash) (sym e) h)) refl
    where
      All-split : (c : Text) → All NoSlash (c ++ 47 ∷ b) → NoSlash 47
      All-split [] (n, h) = n
      All-split (d ∷ c) (n, h) = All-split c h

  slash-IsSegment : IsSegment (a ++ 47 ∷ b)
  slash-IsSegment =
      (has_slash [] tt, has_slash (codes ".") (omega arith), has_slash (codes "..") (omega arith))

  slash_points : All IsScalar (a ++ 47 ∷ b)
  slash_points = All-append IsScalar a (47 ∷ b) first.0 (omega arith, second.0)

  route-slash :
      (action : Text)
      → route kv_prefix (address kv_prefix (utf8 (a ++ 47 ∷ b)) action) ≡ routed (utf8 a) (utf8 b)
  unfolding route
  route-slash action = rw (
    utf8-slash a b,
    trim_prefix-append kv_prefix ((utf8 a ++ 47 ∷ utf8 b) ++ 47 ∷ action),
    append_assoc (utf8 a) (47 ∷ utf8 b) (47 ∷ action),
    split-append 47 (utf8 a) (utf8 b ++ 47 ∷ action) (utf8-NoSlash a first.1),
    split-append 47 (utf8 b) action (utf8-NoSlash b second.1),
  )

  -- For texts a and b of code points, no surrogates, without a slash: an increment in the bucket `a/b` reaches the
  -- bucket a, and there the action that b names.
  pub serve_kv-slash :
      (key : Text) (delta : Number)
      → serve_kv (increment_kv (a ++ 47 ∷ b) key delta).url
        ≡ some (call (utf8 a) (kv_action (utf8 b) []))
  unfolding increment_kv is_dotted text_eq sent_path decided
  serve_kv-slash key delta =
      let name = a ++ 47 ∷ b in
      serve_kv_clean _ _ [] _
        (url_parts_plain kv_prefix name (codes "incr") (omega arith) slash_points (omega arith))
        (ap (λ p. p.0)
          (cut-plain kv_prefix name (codes "incr") (omega arith) slash_points (omega arith)))
        (is_clean-address name (codes "incr") slash_points slash-IsSegment (omega arith) refl)
      ∙ ap (λ r. some (decided r [])) (route-slash (codes "incr"))
