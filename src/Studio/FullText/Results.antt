-- ===== src/Studio/FullText/Results.antt =====
-- SearchPlaygroundView.tsx: the chips of the previewed terms and the box of ranked results.
use cocodb.Base.{ℕ, suc, ◌+◌, Option, none, some, List, [], ◌∷◌, ◌++◌, if◌then◌else◌, ◌==◌, length}
use cocodb.Base.Text.{Text, codes, or_text}
use cocodb.Base.Decimal.{decimal}
use cocodb.Studio.Json.{Number, Fields}
use cocodb.Studio.FullText.{TextSearchResult, View}
use cocodb.Studio.FullText.Tokens.{query_tokens}

-- The chips are there only with a term.
pub data Chips : Type 0 where
  no_chips : Chips
  chips : List Text → Chips

chips_of : List Text → Chips
chips_of [] = no_chips
chips_of (t ∷ ts) = chips (t ∷ ts)

unfoldable pub token_chips : (Text → Text) → View → Chips
unfolding chips_of
token_chips beyond v = chips_of (query_tokens beyond v.query_text)

pub record Row : Type 0 where
  pub key : ℕ
  pub rank : ℕ
  pub label : Text
  pub score : Text
  pub document : Option Text

pub data ResultsBox : Type 0 where
  scanning enter_keywords : ResultsBox
  ranked : List Row → ResultsBox

unfoldable pub results_title : View → Text
results_title v = codes "Ranked Search Results (" ++ (decimal (length v.results) ++ codes ")")

-- `fixed` is `toFixed(3)`, `stringify` is `JSON.stringify` with an indent of two.
module _ (fixed : Number → Text) (stringify : Fields → Text) where
  shown_document : Option Fields → Option Text
  shown_document none = none
  shown_document (some fs) = some (stringify fs)

  row : ℕ → TextSearchResult → Row
  unfolding shown_document
  row i res = record {
    key = if res.record_id == 0 then i else res.record_id;
    rank = i + 1;
    label = codes "Doc ID: " ++ or_text res.doc_id (codes "#" ++ decimal res.record_id);
    score = codes "Score: " ++ fixed res.score;
    document = shown_document res.document;
  }

  rows : ℕ → List TextSearchResult → List Row
  unfolding row
  rows i [] = []
  rows i (res ∷ more) = row i res ∷ rows (suc i) more

  ranked_results : List TextSearchResult → ResultsBox
  unfolding rows
  ranked_results [] = enter_keywords
  ranked_results (res ∷ more) = ranked (rows 0 (res ∷ more))

  unfoldable pub results_box : View → ResultsBox
  unfolding ranked_results
  results_box v = if v.loading then scanning else ranked_results v.results
