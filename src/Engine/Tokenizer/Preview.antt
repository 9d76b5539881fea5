-- ===== src/Engine/Tokenizer/Preview.antt =====
-- The terms that the studio previews are the terms that the index has, for plain queries.
use cocodb.Base.{
  ℕ, ◌<◌, ◌≡◌, ◌≢◌, ◌∙◌, refl, ap, sym, Bool, true, false, not, ◌||◌, Option, none, some, List, [],
  ◌∷◌, ◌++◌, append_assoc, append-nil, map, map-append, if◌then◌else◌, lt→ltb, inl, inr, Bool-cases,
  All, All-append, arith,
}
use mathlib.Core.List.{concat-ne-nil}
use cocodb.Base.Text.{Text}
use cocodb.Studio.FullText.Tokens.{
  is_upper, is_lower, is_digit, is_word, lower_ascii, is_ascii, to_lower, prepend, parts, nonempty,
  query_tokens,
}
use cocodb.Engine.Tokenizer.{Scan, grown, upper_so_far, grow, scan_step, scan, ended, tokenize}

-- A character of ASCII other than the underscore, which only the studio takes for a letter.
abbrev pub Plain : ℕ → Type 0
Plain c = (c < 128) × (c ≢ b'_')

abbrev is_token : ℕ → Bool
is_token c = is_lower c || is_digit c || is_upper c

is_word-lower_ascii : (c : ℕ) → Plain c → is_word (lower_ascii c) ≡ is_token c
unfolding is_word lower_ascii
is_word-lower_ascii c (h, k) = ground arith

is_ascii-Plain : (t : Text) → All Plain t → is_ascii t ≡ true
unfolding is_ascii
is_ascii-Plain [] h = refl
is_ascii-Plain (c ∷ t) ((h, _), k) = ground (arith, is_ascii-Plain t k)

to_lower-map :
    (beyond : Text → Text) (t : Text) → All Plain t → to_lower beyond t ≡ map lower_ascii t
unfolding to_lower
to_lower-map beyond t h = rw (is_ascii-Plain t h) refl

-- A token that is going on, in front of the first part.
attach : Text → List Text → List Text
attach p [] = p ∷ []
attach p (q ∷ qs) = (p ++ q) ∷ qs

attach-prepend :
    (p : Text) (c : ℕ) (ps : List Text) → attach p (prepend c ps) ≡ attach (p ++ c ∷ []) ps
unfolding attach prepend
attach-prepend p c [] = refl
attach-prepend p c (q ∷ qs) = ap (λ r. r ∷ qs) (sym (append_assoc p (c ∷ []) q))

prepend-attach : (c : ℕ) (ps : List Text) → prepend c ps ≡ attach (c ∷ []) ps
unfolding attach prepend
prepend-attach c [] = refl
prepend-attach c (q ∷ qs) = refl

-- What the studio has of the rest of a text, behind a token that is going on or none.
following : Option Text → Text → List Text
following none s = nonempty (parts true (map lower_ascii s))
following (some cur) s = nonempty (attach (map lower_ascii cur) (parts false (map lower_ascii s)))

following-token :
    (start : Option Text) (c : ℕ) (s : Text)
    → Plain c
    → is_token c ≡ true
    → following start (c ∷ s) ≡ following (some (grown start c)) s
unfolding following parts grown
following-token none c s h t = rw (is_word-lower_ascii c h, t) (rw prepend-attach refl)
following-token (some cur) c s h t =
    rw (is_word-lower_ascii c h, t, attach-prepend, map-append) refl

following-gap :
    (c : ℕ) (s : Text) → Plain c → is_token c ≡ false → following none (c ∷ s) ≡ following none s
unfolding following parts
following-gap c s h t = rw (is_word-lower_ascii c h, t) refl

following-end :
    (d : ℕ) (cur : Text) (c : ℕ) (s : Text)
    → Plain c
    → is_token c ≡ false
    → following (some (d ∷ cur)) (c ∷ s) ≡ map lower_ascii (d ∷ cur) ∷ following none s
unfolding following parts attach nonempty
following-end d cur c s h t = rw (is_word-lower_ascii c h, t, append-nil) refl

abbrev at : List Text → Option Text → Bool → Scan
at ts start up = record { tokens = ts; start = start; has_upper = up }

-- The token that is going on is plain, not empty, and in lower case where no capital was met.
abbrev Sound : Option Text → Bool → Type 0
Sound none up = Unit {0}
Sound (some cur) up = All Plain cur × (cur ≢ []) × (up ≡ false → map lower_ascii cur ≡ cur)

module _ (letter : ℕ → Bool) (beyond : Text → Text) where
  tokens_at : Scan → List Text
  unfolding ended
  tokens_at st = (ended letter beyond st st.start).tokens

  Sound-grown :
      (start : Option Text) (up up' : Bool) (c : ℕ)
      → Plain c
      → Sound start up
      → (up' ≡ false → (map lower_ascii (grown start c) ≡ grown start c))
      → Sound (some (grown start c)) up'
  unfolding grown
  Sound-grown none up up' c p h low = ((p, tt), (λ e. cc), low)
  Sound-grown (some cur) up up' c p (h, ne, l) low =
      (All-append Plain cur (c ∷ []) h (p, tt), concat-ne-nil c cur, low)

  emitted :
      (up : Bool) (cur : Text)
      → Sound (some cur) up
      → (if not up then cur else to_lower beyond cur) ≡ map lower_ascii cur
  emitted true cur (h, ne, l) = to_lower-map beyond cur h
  emitted false cur (h, ne, l) = sym (l refl)

  tokens_at-end :
      (ts : List Text) (start : Option Text) (up : Bool)
      → Sound start up
      → tokens_at (at ts start up) ≡ ts ++ following start []
  unfolding tokens_at ended following parts attach nonempty
  tokens_at-end ts none up h = sym (append-nil ts)
  tokens_at-end ts (some []) up (h, ne, l) = absurd (ne refl)
  tokens_at-end ts (some (d ∷ cur)) up h = rw (emitted up (d ∷ cur) h, append-nil) refl

  lowered :
      (start : Option Text) (up : Bool) (c : ℕ)
      → (is_lower c || is_digit c) ≡ true
      → Sound start up
      → upper_so_far start up ≡ false
      → map lower_ascii (grown start c) ≡ grown start c
  unfolding grown upper_so_far lower_ascii
  lowered none up c t h e = ground arith
  lowered (some cur) up c t (h, ne, l) e =
      rw (map-append lower_ascii cur (c ∷ []), l e) (ground arith)

  -- What a character that ends a token leaves.
  gap-following :
      (ts : List Text) (start : Option Text) (up : Bool) (c : ℕ) (s : Text)
      → Sound start up
      → Plain c
      → is_token c ≡ false
      → (tokens : List Text) × (ended letter beyond (at ts start up) start ≡ at tokens none up)
        × (tokens ++ following none s ≡ ts ++ following start (c ∷ s))
  unfolding ended
  gap-following ts none up c s h p t = (ts, refl, rw (following-gap c s p t) refl)
  gap-following ts (some []) up c s (h, ne, l) p t = absurd (ne refl)
  gap-following ts (some (d ∷ cur)) up c s h p t = (
    ts ++ map lower_ascii (d ∷ cur) ∷ [],
    ap (λ r. at (ts ++ r ∷ []) none up) (emitted up (d ∷ cur) h),
    rw (following-end d cur c s p t)
        (append_assoc ts (map lower_ascii (d ∷ cur) ∷ []) (following none s)),
  )

  scan-following :
      (s : Text) (ts : List Text) (start : Option Text) (up : Bool)
      → Sound start up
      → All Plain s
      → tokens_at (scan letter beyond (at ts start up) s) ≡ ts ++ following start s
  unfolding scan scan_step grow
  scan-following [] ts start up h p = tokens_at-end ts start up h
  scan-following (c ∷ s) ts start up h (p, ps) = elim (Bool-cases (is_lower c || is_digit c)) [
    | inl low ↦
        rw (lt→ltb c 128 p.0, low)
          (scan-following s ts (some (grown start c)) (upper_so_far start up)
              (Sound-grown start up (upper_so_far start up) c p h (lowered start up c low h)) ps
            ∙ ap (λ r. ts ++ r) (sym (following-token start c s p (ground arith))))
    | inr high ↦ elim (Bool-cases (is_upper c)) [
      | inl capital ↦
          rw (lt→ltb c 128 p.0, high, capital)
            (scan-following s ts (some (grown start c)) true
                (Sound-grown start up true c p h (λ e. cc)) ps
              ∙ ap (λ r. ts ++ r) (sym (following-token start c s p (ground arith))))
      | inr other ↦
          let (tokens, left, rest) = gap-following ts start up c s h p (ground arith) in
          rw (lt→ltb c 128 p.0, high, other, left) (scan-following s tokens none up tt ps ∙ rest)
    ]
  ]

nonempty-parts : (s : Text) → nonempty (parts true s) ≡ nonempty (parts false s)
unfolding nonempty parts
nonempty-parts [] = refl
nonempty-parts (c ∷ s) = elim (Bool-cases (is_word c)) [ inl w ↦ rw w refl | inr w ↦ rw w refl ]

-- For a query of ASCII without underscores the studio previews exactly the terms, in their order,
-- that the index has of the same text, whatever Unicode says of other characters.
pub query_tokens-tokenize :
    (letter : ℕ → Bool) (beyond beyond' : Text → Text) (text : Text)
    → All Plain text
    → query_tokens beyond text ≡ tokenize letter beyond' text
unfolding query_tokens tokenize tokens_at following
query_tokens-tokenize letter beyond beyond' text h = rw (to_lower-map beyond text h) (
    sym (
      scan-following letter beyond' text [] none false tt h
      ∙ nonempty-parts (map lower_ascii text)))
