-- ===== src/Server/Route/Address.antt =====
-- How the server takes apart a path that `encodeURIComponent` went into: the lemmas on
-- `strings.Cut`, `strings.Split`, `TrimPrefix` and the decoded path.
use cocodb.Base.{
  ℕ, ◌<◌, ◌≡◌, refl, sym, ap, ◌∙◌, ◌≢◌, true, false, some, [], ◌∷◌, ◌++◌, arith, All, All-append,
  All-mono, append_assoc,
}
use cocodb.Base.Text.{Text, codes, is_empty, text_eq, text_eq_of_ne}
use cocodb.Studio.Uri.{utf8, encode_uri_component}
use cocodb.Studio.Uri.Bytes.{
  IsScalar, IsOpaque, NoSlash, utf8-NoSlash, utf8_ascii, encode_uri_component-IsOpaque,
}
use cocodb.Server.Unescape.{
  unescape, unescape-append, unescape_plain, unescape-encode_uri_component,
  unescape-encode_uri_component_end,
}
use cocodb.Server.Route.{
  cut, split, starts, trim_prefix, contains, routed, route, url_parts, kv_prefix, is_dotted,
  are_clean, is_clean,
}

pub cut-append : (sep : ℕ) (s t : Text) → All (λ c. c ≢ sep) s → cut sep (s ++ sep ∷ t) ≡ (s, t)
unfolding cut
cut-append sep [] t h = ground arith
cut-append sep (c ∷ s) t (h, k) = ground (arith, cut-append sep s t k)

pub cut-none : (sep : ℕ) (s : Text) → All (λ c. c ≢ sep) s → cut sep s ≡ (s, [])
unfolding cut
cut-none sep [] h = refl
cut-none sep (c ∷ s) (h, k) = ground (arith, cut-none sep s k)

pub split-append :
    (sep : ℕ) (s t : Text) → All (λ c. c ≢ sep) s → split sep (s ++ sep ∷ t) ≡ s ∷ split sep t
unfolding split
split-append sep [] t h = ground arith
split-append sep (c ∷ s) t (h, k) = ground (arith, split-append sep s t k)

pub split-none : (sep : ℕ) (s : Text) → All (λ c. c ≢ sep) s → split sep s ≡ s ∷ []
unfolding split
split-none sep [] h = refl
split-none sep (c ∷ s) (h, k) = ground (arith, split-none sep s k)

pub contains-none : (c : ℕ) (s : Text) → All (λ d. d ≢ c) s → contains c s ≡ false
unfolding contains
contains-none c [] h = refl
contains-none c (d ∷ s) (h, k) = ground (arith, contains-none c s k)

starts-append : (p s : Text) → starts p (p ++ s) ≡ some s
unfolding starts
starts-append [] s = refl
starts-append (c ∷ p) s = ground (arith, starts-append p s)

pub trim_prefix-append : (p s : Text) → trim_prefix p (p ++ s) ≡ s
unfolding trim_prefix
trim_prefix-append p s = rw (starts-append p s, trim_prefix)

-- The mount point of a family of routes, as /api/kv/: nothing in it is escaped or ends the path.
abbrev pub IsPlain : ℕ → Type 0
IsPlain c = (c ≢ 37) × (c ≢ 63)

-- A name that the encoder does not turn into a text of plain characters, unless it is that text.
encode_uri_component-ne :
    (t s : Text)
    → All IsScalar t
    → All (λ d. d < 128) s
    → All (λ d. d ≢ 37) s
    → t ≢ s
    → encode_uri_component t ≢ s
encode_uri_component-ne t s points ascii plain n e =
    let read : some (utf8 t) ≡ some s =
      sym (unescape-encode_uri_component_end false t points)
      ∙ (ap (unescape false) e ∙ unescape_plain s plain) in
    n (utf8_ascii t s ascii cc)

is_empty_of_ne : (s : Text) → s ≢ [] → is_empty s ≡ false
is_empty_of_ne [] n = absurd (n refl)
is_empty_of_ne (c ∷ s) n = refl

-- A name that is kept as a segment of a path.
abbrev pub IsSegment : Text → Type 0
IsSegment t = (t ≢ []) × (t ≢ codes ".") × (t ≢ codes "..")

segment_kept :
    (t : Text)
    → All IsScalar t
    → IsSegment t
    → (is_empty (encode_uri_component t) ≡ false) × (is_dotted (encode_uri_component t) ≡ false)
unfolding is_dotted
segment_kept t points (a, b, c) = (
  is_empty_of_ne _ (encode_uri_component-ne t [] points tt tt a),
  rw
      (
        text_eq_of_ne _ _
            (encode_uri_component-ne t (codes ".") points (omega arith) (omega arith) b),
        text_eq_of_ne _ _
            (encode_uri_component-ne t (codes "..") points (omega arith) (omega arith) c),
      )
      refl,
)

-- A path: mount point, name and action.
abbrev pub address : Text → Text → Text → Text
address prefix name action = prefix ++ (name ++ (47 ∷ action))

address-append :
    (prefix name action t : Text)
    → address prefix name (action ++ t) ≡ address prefix name action ++ t
address-append prefix name action t = simp append_assoc

module _ (prefix name action : Text) (plain_prefix : All IsPlain prefix)
    (points : All IsScalar name) (plain_action : All IsPlain action) where
  no_question : All (λ c. c ≢ 63) (address prefix (encode_uri_component name) action)
  no_question =
      All-append (λ c. c ≢ 63) prefix _
        (All-mono IsPlain (λ c. c ≢ 63) (λ c h. h.1) prefix plain_prefix)
        (All-append (λ c. c ≢ 63) (encode_uri_component name) _
          (All-mono IsOpaque (λ c. c ≢ 63) (λ c h. h.no_question) _
            (encode_uri_component-IsOpaque name))
          (omega arith, All-mono IsPlain (λ c. c ≢ 63) (λ c h. h.1) action plain_action))

  no_percent : All (λ c. c ≢ 37) (47 ∷ action)
  no_percent = (omega arith, All-mono IsPlain (λ c. c ≢ 37) (λ c h. h.0) action plain_action)

  unescape-address :
      unescape false (address prefix (encode_uri_component name) action)
      ≡ some (address prefix (utf8 name) action)
  unescape-address = rw (
    unescape-append prefix (encode_uri_component name ++ (47 ∷ action))
        (All-mono IsPlain (λ c. c ≢ 37) (λ c h. h.0) prefix plain_prefix),
    unescape-encode_uri_component false name (47 ∷ action) points,
    unescape_plain (47 ∷ action) no_percent,
  )

  -- The path as it is sent, where a query follows or none.
  pub cut-query :
      (query : Text)
      → cut 63 (address prefix (encode_uri_component name) (action ++ 63 ∷ query))
        ≡ (address prefix (encode_uri_component name) action, query)
  cut-query query =
      rw (address-append prefix (encode_uri_component name) action (63 ∷ query))
        (cut-append 63 (address prefix (encode_uri_component name) action) query no_question)

  pub cut-plain :
      cut 63 (address prefix (encode_uri_component name) action)
      ≡ (address prefix (encode_uri_component name) action, [])
  cut-plain = cut-none 63 _ no_question

  -- The path that the server sees.
  pub url_parts_query :
      (query : Text)
      → url_parts (address prefix (encode_uri_component name) (action ++ 63 ∷ query))
        ≡ some (address prefix (utf8 name) action, query)
  unfolding url_parts
  url_parts_query query = rw (cut-query query, unescape-address)

  pub url_parts_plain :
      url_parts (address prefix (encode_uri_component name) action)
      ≡ some (address prefix (utf8 name) action, [])
  unfolding url_parts
  url_parts_plain = rw (cut-plain, unescape-address)

  pub route-address :
      All NoSlash name
      → All NoSlash action
      → route prefix (address prefix (utf8 name) action) ≡ routed (utf8 name) action
  unfolding route
  route-address n a = rw (
    trim_prefix-append prefix (utf8 name ++ 47 ∷ action),
    split-append 47 (utf8 name) action (utf8-NoSlash name n),
    split-none 47 action a,
  )

encode_uri_component-NoSlash : (name : Text) → All NoSlash (encode_uri_component name)
encode_uri_component-NoSlash name =
    All-mono IsOpaque NoSlash (λ c h. h.no_slash) _ (encode_uri_component-IsOpaque name)

-- Below /api/kv/ a name that is a segment and an action make a clean path.
split-kv_prefix :
    (r : Text) → split 47 (codes "api/kv/" ++ r) ≡ codes "api" ∷ codes "kv" ∷ split 47 r
split-kv_prefix r =
    split-append 47 (codes "api") (codes "kv/" ++ r) (omega arith)
    ∙ ap (codes "api" ∷◌) (split-append 47 (codes "kv") r (omega arith))

are_clean-segments :
    (name action : Text)
    → is_empty name ≡ false
    → is_dotted name ≡ false
    → is_dotted action ≡ false
    → are_clean (codes "api" ∷ codes "kv" ∷ name ∷ action ∷ []) ≡ true
unfolding are_clean is_dotted text_eq
are_clean-segments name action e f d = ground arith

pub is_clean-address :
    (name action : Text)
    → All IsScalar name
    → IsSegment name
    → All NoSlash action
    → is_dotted action ≡ false
    → is_clean (address kv_prefix (encode_uri_component name) action) ≡ true
unfolding is_clean
is_clean-address name action points segment slash d =
    let (e, f) = segment_kept name points segment in
    ap are_clean (
      split-kv_prefix (encode_uri_component name ++ 47 ∷ action)
      ∙ ap (λ ss. codes "api" ∷ codes "kv" ∷ ss)
          (split-append 47 (encode_uri_component name) action (encode_uri_component-NoSlash name)
            ∙ ap (λ ss. encode_uri_component name ∷ ss) (split-none 47 action slash)))
    ∙ are_clean-segments (encode_uri_component name) action e f d
