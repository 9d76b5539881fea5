-- ===== src/Studio/Api.antt =====
-- studio/frontend/src/api.ts: `request`, and the HTTP request that each member of `api` makes.
pub mod Endpoints
pub mod Documents
pub mod Failures
use cocodb.Base.{ℕ, Bool, true, false, Option, none, some, List, [], ◌∷◌, ◌++◌, if◌then◌else◌}
use cocodb.Base.Text.{Text, codes}
use cocodb.Base.Decimal.{decimal}
use cocodb.Base.Result.{Result, ok, err}
use cocodb.Studio.Json.{Json, null, boolean, number, string, array, object, property, truthy}

pub data Method : Type 0 where
  get post delete : Method

pub record Header : Type 0 where
  pub name : Text
  pub value : Text

-- The options of `fetch` that the client sets; a missing one is `none`.
pub record RequestInit : Type 0 where
  pub method : Option Method
  pub headers : Option (List Header)
  pub body : Option Json

abbrev pub no_options : RequestInit
no_options = record { method = none; headers = none; body = none }

pub record HttpRequest : Type 0 where
  pub url : Text
  pub init : RequestInit

abbrev pub json_header : Header
json_header = record { name = codes "Content-Type"; value = codes "application/json" }

abbrev spread : List Header → Option (List Header) → List Header
spread hs none = hs
spread hs (some more) = hs ++ more

-- A later property of an object literal replaces an earlier one of its name.
abbrev override {ℓ} : {A : Type ℓ} → A → Option A → A
override a none = a
override a (some b) = b

-- The call of `fetch`: `{ headers: { 'Content-Type': …, ...options.headers }, ...options }`.
unfoldable pub fetch_call : Text → RequestInit → HttpRequest
fetch_call path options = record {
  url = codes "/api" ++ path;
  init = record options {
    headers = some (override (spread (json_header ∷ []) options.headers) options.headers);
  };
}

-- What comes back; `json` is what the promise of `res.json()` settles with.
pub record Response : Type 0 where
  pub is_ok : Bool
  pub status : ℕ
  pub status_text : Text
  pub json : Result Json

-- `String(value)`, which `new Error` applies to a message that is no string, stays a parameter.
module _ (display : Json → Text) where
  unfoldable pub message_of : Json → Text
  message_of (string s) = s
  message_of v = display v

  -- The error's own text if there is one: `if (data.error) errorMsg = data.error`. Reading the
  -- property of null throws, which the catch ignores; other values than objects have none.
  unfoldable pub error_message : Text → Result Json → Text
  error_message otherwise (err e) = otherwise
  error_message otherwise (ok (object fs)) = elim (property (codes "error") fs) [
    | none ↦ otherwise
    | some v ↦ if truthy v then message_of v else otherwise
  ]
  error_message otherwise (ok v) = otherwise

  -- The rest of `request`, once the response is there.
  unfoldable pub settle : Response → Result Json
  unfolding error_message message_of
  settle res =
      if res.is_ok
      then res.json
      else err (
          error_message (codes "HTTP Error " ++ decimal res.status ++ codes ": " ++ res.status_text)
            res.json)
