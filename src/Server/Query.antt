-- ===== src/Server/Query.antt =====
-- The answer to a query of documents: the action `query` of studio/handlers.go, and `All` of
-- document/query.go. `found` is what the plan gives without a limit.
use cocodb.Base.{ℕ, Bool, false, Option, none, some, List, [], ◌∷◌, if◌then◌else◌, ◌==◌, take}
use cocodb.Base.Text.{Text, codes, text_eq}
use cocodb.Studio.Json.{Json, boolean, number, object, Fields, Number, property}
use cocodb.Studio.Api.{HttpRequest}
use cocodb.Studio.Console.{QueryResult}

-- A nil slice, which is written as null, stays one where nothing is appended.
unfoldable pub appended : List Fields → Option (List Fields)
appended [] = none
appended (d ∷ ds) = some (d ∷ ds)

-- `All`: with a limit the slice is made first, and the plan's last operator is that limit.
unfoldable pub all : (limit : ℕ) → List Fields → Option (List Fields)
unfolding appended
all limit found = if limit == 0 then appended found else some (take limit found)

body_property : Text → Option Json → Option Json
unfolding property text_eq
body_property k (some (object fs)) = property k fs
body_property k b = none

-- A value of another kind is an error of the decoder that is dropped.
explain_of : Option Json → Bool
explain_of (some (boolean b)) = b
explain_of v = false

-- `to_int` is how encoding/json reads a number into an int; 0 stands for all that are not above 0,
-- and for those that it refuses.
module _ (to_int : Number → ℕ) where
  limit_of : Option Json → ℕ
  limit_of (some (number n)) = to_int n
  limit_of v = 0

  unfoldable pub asked_limit : HttpRequest → ℕ
  unfolding limit_of body_property
  asked_limit r = limit_of (body_property (codes "limit") r.init.body)

  unfoldable pub asked_explain : HttpRequest → Bool
  unfolding explain_of body_property
  asked_explain r = explain_of (body_property (codes "explain") r.init.body)

  unfoldable pub serve_query : List Fields → (plan : Text) → HttpRequest → QueryResult
  unfolding all
  serve_query found plan r = record {
    documents = if asked_explain r then some [] else all (asked_limit r) found;
    execution_plan = some plan;
  }
