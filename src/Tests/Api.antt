-- ===== src/Tests/Api.antt =====
-- The studio's client, when the server answers with an error.
use cocodb.Base.{◌≡◌, ◌≢◌, refl, ap, sym, subst, ◌∙◌, true, false, none, some, [], Option}
use cocodb.Base.Text.{Text, codes, text_eq}
use cocodb.Base.Decimal.{decimal}
use cocodb.Base.Result.{Result, ok, err}
use cocodb.Studio.Json.{
  Json, null, boolean, number, string, array, object, Fields, field, end, property, truthy,
}
use cocodb.Studio.Api.{Response, settle}
use cocodb.Studio.Api.Failures.{Explained, NotArray, settle-Explained}

-- An array is shown as no text, like `[]`.
abbrev display : Json → Text
display (array xs) = []
display (boolean b) = codes "true"
display (number n) = codes "1"
display v = codes "[object Object]"

display-shown : (v : Json) → truthy v ≡ true → NotArray v → display v ≢ []
unfolding NotArray
display-shown (array xs) h plain = elim plain [ ]
display-shown null h plain = λ e. cc
display-shown (boolean b) h plain = λ e. cc
display-shown (number n) h plain = λ e. cc
display-shown (string s) h plain = λ e. cc
display-shown (object fs) h plain = λ e. cc

abbrev missing : Fields
missing = field (codes "error") (string (codes "bucket not found")) end

abbrev not_found : Response
not_found = record {
  is_ok = false;
  status = 404;
  status_text = codes "Not Found";
  json = ok (object missing);
}

own_text : settle display not_found ≡ err (codes "bucket not found")
unfolding settle property truthy text_eq
own_text = refl

gateway :
    settle display (record not_found { json = err (codes "Unexpected token <") })
    ≡ err (codes "HTTP Error 404: Not Found")
unfolding settle decimal
gateway = refl

missing-text : property (codes "error") missing ≡ some (string (codes "bucket not found"))
unfolding property text_eq
missing-text = refl

abbrev payload : Result Json → Fields
payload (ok (object fs)) = fs
payload v = end

abbrev read_text : Option Json → Json
read_text none = null
read_text (some v) = v

missing-plain :
    (fs : Fields) (v : Json)
    → not_found.json ≡ ok (object fs)
    → property (codes "error") fs ≡ some v
    → NotArray v
unfolding NotArray
missing-plain fs v same found =
    subst NotArray
      (ap read_text
        (sym missing-text ∙ ap (λ r. property (codes "error") (payload r)) same ∙ found))
      refl

settle-Explained_example : Explained (settle display not_found)
settle-Explained_example = settle-Explained display display-shown not_found refl missing-plain
