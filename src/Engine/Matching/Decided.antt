-- ===== src/Engine/Matching/Decided.antt =====
-- What a pattern means, segment by segment, and that `matchTopic` decides it.
use cocodb.Base.{◌≡◌, ◌↔◌, refl, true, List, [], ◌∷◌, ◌++◌, inl, inr, Bool-cases, ◌==◌, arith}
use cocodb.Base.Text.{Text, codes, text_eq, text_eq_iff}
use cocodb.Server.Route.{split}
use cocodb.Engine.Matching.{star, rest_of, match_parts, match_topic}

-- `*` stands for one segment, `>` for all that are left, which may be none.
pub data Matches : List Text → List Text → Type 0 where
  done : Matches [] []
  remaining : {p : Text} {ps ts : List Text} → p ≡ rest_of → Matches (p ∷ ps) ts
  wildcard : {p t : Text} {ps ts : List Text} → p ≡ star → Matches ps ts → Matches (p ∷ ps) (t ∷ ts)
  segment : {p t : Text} {ps ts : List Text} → p ≡ t → Matches ps ts → Matches (p ∷ ps) (t ∷ ts)

match_parts-Matches : (ps ts : List Text) → match_parts ps ts ≡ true → Matches ps ts
unfolding match_parts
match_parts-Matches [] [] h = done
match_parts-Matches [] (t ∷ ts) h = absurd (cc)
match_parts-Matches (p ∷ ps) [] h = remaining ((text_eq_iff p rest_of).0 h)
match_parts-Matches (p ∷ ps) (t ∷ ts) h = elim (Bool-cases (text_eq p rest_of)) [
  | inl r ↦ remaining ((text_eq_iff p rest_of).0 r)
  | inr r ↦ elim (Bool-cases (text_eq p star)) [
    | inl s ↦ wildcard ((text_eq_iff p star).0 s) (match_parts-Matches ps ts (ground arith))
    | inr s ↦ elim (Bool-cases (text_eq p t)) [
      | inl e ↦ segment ((text_eq_iff p t).0 e) (match_parts-Matches ps ts (ground arith))
      | inr e ↦ absurd (ground arith)
    ]
  ]
]

match_parts_remaining :
    (p : Text) (ps ts : List Text) → p ≡ rest_of → match_parts (p ∷ ps) ts ≡ true
unfolding match_parts
match_parts_remaining p ps [] e = (text_eq_iff p rest_of).1 e
match_parts_remaining p ps (t ∷ ts) e = rw ((text_eq_iff p rest_of).1 e) refl

Matches-match_parts : {ps ts : List Text} → Matches ps ts → match_parts ps ts ≡ true
unfolding match_parts
Matches-match_parts done = refl
Matches-match_parts (remaining {p} {ps} {ts} e) = match_parts_remaining p ps ts e
Matches-match_parts (wildcard {p} {t} {ps} {ts} e m) =
    ground (arith, text_eq_iff p star, Matches-match_parts m)
Matches-match_parts (segment {p} {t} {ps} {ts} e m) =
    ground (arith, text_eq_iff p t, Matches-match_parts m)

Matches-self : (ts : List Text) → Matches ts ts
Matches-self [] = done
Matches-self (t ∷ ts) = segment refl (Matches-self ts)

Matches-rest : (ts : List Text) → Matches (ts ++ rest_of ∷ []) ts
Matches-rest [] = remaining refl
Matches-rest (t ∷ ts) = segment refl (Matches-rest ts)

split_shape : (s : Text) → (p : Text) × (ps : List Text) × (split b'.' s ≡ p ∷ ps)
unfolding split
split_shape [] = ([], [], refl)
split_shape (c ∷ s) =
    let (p, ps, e) = split_shape s in
    elim (Bool-cases (c == b'.')) [
      | inl d ↦ ([], split b'.' s, rw d refl)
      | inr d ↦ (c ∷ p, ps, rw (d, e) refl)
    ]

split-rest : (topic : Text) → split b'.' (topic ++ codes ".>") ≡ split b'.' topic ++ rest_of ∷ []
unfolding split
split-rest [] = refl
split-rest (c ∷ s) =
    let (p, ps, e) = split_shape s in
    elim (Bool-cases (c == b'.')) [
      | inl d ↦ rw (d, split-rest s) refl
      | inr d ↦ rw (d, split-rest s, e) refl
    ]

match_topic_iff_parts :
    (pattern topic : Text)
    → (match_topic pattern topic ≡ true) ↔ Matches (split b'.' pattern) (split b'.' topic)
unfolding match_topic
match_topic_iff_parts pattern topic = elim (Bool-cases (text_eq pattern topic)) [
  | inl e ↦
      (λ h. rw ((text_eq_iff pattern topic).0 e) (Matches-self (split b'.' topic)), λ m. rw e refl)
  | inr e ↦ elim (Bool-cases (text_eq pattern rest_of)) [
    | inl r ↦ (λ h. rw ((text_eq_iff pattern rest_of).0 r) (remaining refl), λ m. rw (e, r) refl)
    | inr r ↦ (
      λ h. match_parts-Matches (split b'.' pattern) (split b'.' topic) (ground arith),
      λ m. rw (e, r) (Matches-match_parts m),
    )
  ]
]

-- A pattern and a topic match exactly where, segment by segment, `*` stands for one segment, `>` for
-- all that are left, and every other one for itself; so a topic matches itself with `.>` behind it,
-- where `>` stands for no segment at all.
pub match_topic_iff :
    (pattern topic : Text)
    → ((match_topic pattern topic ≡ true) ↔ Matches (split b'.' pattern) (split b'.' topic))
      × (match_topic (topic ++ codes ".>") topic ≡ true)
match_topic_iff pattern topic = (
  match_topic_iff_parts pattern topic,
  (match_topic_iff_parts (topic ++ codes ".>") topic).1
      (rw (split-rest topic) (Matches-rest (split b'.' topic))),
)
