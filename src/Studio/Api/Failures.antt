-- ===== src/Studio/Api/Failures.antt =====
-- studio/frontend/src/api.ts: what a request is rejected with when the server answers with an error.
use cocodb.Base.{
  ◌≡◌, ◌≢◌, refl, Bool-cases, Option-cases, true, false, some, [], ◌∷◌, ◌++◌, inl, inr,
}
use cocodb.Base.Text.{Text, codes}
use cocodb.Base.Decimal.{decimal}
use cocodb.Base.Result.{Result, ok, err}
use cocodb.Studio.Json.{
  Json, null, boolean, number, string, array, object, Fields, property, truthy,
}
use cocodb.Studio.Api.{Response, message_of, error_message, settle}

-- A promise that is rejected with a message that is not empty.
pub Explained : Result Json → Type 0
Explained (ok v) = ⊥
Explained (err m) = m ≢ []

unfoldable pub NotArray : Json → Type 0
NotArray (array xs) = ⊥
NotArray v = v ≡ v

-- The text of the status, which the message starts as.
abbrev status_line : Response → Text
status_line res = codes "HTTP Error " ++ decimal res.status ++ codes ": " ++ res.status_text

module _ (display : Json → Text)
    (shown : (v : Json) → truthy v ≡ true → NotArray v → display v ≢ []) where
  message_of-shown : (v : Json) → truthy v ≡ true → NotArray v → message_of display v ≢ []
  unfolding truthy message_of
  message_of-shown (string []) h plain = λ e. cc
  message_of-shown (string (c ∷ s)) h plain = λ e. cc
  message_of-shown null h plain = shown null h plain
  message_of-shown (boolean b) h plain = shown (boolean b) h plain
  message_of-shown (number n) h plain = shown (number n) h plain
  message_of-shown (object fs) h plain = shown (object fs) h plain
  message_of-shown (array xs) h plain = shown (array xs) h plain

  object-shown :
      (otherwise : Text) (fs : Fields)
      → otherwise ≢ []
      → ((v : Json) → property (codes "error") fs ≡ some v → NotArray v)
      → error_message display otherwise (ok (object fs)) ≢ []
  unfolding error_message
  object-shown otherwise fs nonempty plain = elim (Option-cases (property (codes "error") fs)) [
    | inl h ↦ rw (error_message, h) nonempty
    | inr (v, h) ↦
        rw (error_message, h)
          (elim (Bool-cases (truthy v)) [
            | inl t ↦ rw t (message_of-shown v t (plain v h))
            | inr t ↦ rw t nonempty
          ])
  ]

  error_message-shown :
      (otherwise : Text) (json : Result Json)
      → otherwise ≢ []
      → ((fs : Fields) (v : Json)
          → json ≡ ok (object fs)
          → property (codes "error") fs ≡ some v
          → NotArray v)
      → error_message display otherwise json ≢ []
  unfolding error_message
  error_message-shown otherwise (ok (object fs)) nonempty plain =
      object-shown otherwise fs nonempty (λ v h. plain fs v refl h)
  error_message-shown otherwise (err e) nonempty plain = nonempty
  error_message-shown otherwise (ok null) nonempty plain = nonempty
  error_message-shown otherwise (ok (boolean b)) nonempty plain = nonempty
  error_message-shown otherwise (ok (number n)) nonempty plain = nonempty
  error_message-shown otherwise (ok (string s)) nonempty plain = nonempty
  error_message-shown otherwise (ok (array xs)) nonempty plain = nonempty

  -- Where `String` shows some text for every value that counts as true and is not an array, a response
  -- that is not ok rejects the request with a message that is not empty, whatever its body is, also if
  -- that is not JSON, unless the `error` in an object is an array.
  pub settle-Explained :
      (res : Response)
      → res.is_ok ≡ false
      → ((fs : Fields) (v : Json)
          → res.json ≡ ok (object fs)
          → property (codes "error") fs ≡ some v
          → NotArray v)
      → Explained (settle display res)
  unfolding settle Explained
  settle-Explained res h plain =
      rw h (error_message-shown (status_line res) res.json (λ e. cc) plain)
