-- ===== src/Studio/Vector/Results.antt =====
-- VectorPlaygroundView.tsx: the box of the nearest neighbours.
use cocodb.Base.{ℕ, suc, ◌+◌, Option, none, some, List, [], ◌∷◌, ◌++◌, if◌then◌else◌, ◌==◌}
use cocodb.Base.Text.{Text, codes, or_text}
use cocodb.Base.Decimal.{decimal}
use cocodb.Studio.Json.{Number, Fields}
use cocodb.Studio.Vector.{VectorSearchResult, View}

pub record Match : Type 0 where
  pub key : ℕ
  pub rank : ℕ
  pub label : Text
  pub distance : Text
  pub similarity : Text
  pub bar_width : Text
  pub document : Option Text

pub data ResultsBox : Type 0 where
  traversing enter_vector : ResultsBox
  nearest : List Match → ResultsBox

unfoldable pub results_title : View → Text
results_title v = codes "Top-" ++ (decimal v.k ++ codes " Nearest Neighbors")

-- The conversions of numbers: `toFixed(4)`, `toFixed(1)`, how a template shows one, and
-- `Math.max(5, n)`; and `JSON.stringify` with an indent of two.
module _ (fixed_4 fixed_1 show : Number → Text) (at_least_5 : Number → Number)
    (stringify : Fields → Text) where
  shown_document : Option Fields → Option Text
  shown_document none = none
  shown_document (some fs) = some (stringify fs)

  one_match : ℕ → VectorSearchResult → Match
  unfolding shown_document
  one_match i m = record {
    key = if m.id == 0 then i else m.id;
    rank = i + 1;
    label = codes "Doc ID: " ++ or_text m.doc_id (codes "#" ++ decimal m.id);
    distance = codes "Dist: " ++ fixed_4 m.distance;
    similarity = fixed_1 m.similarity_pct ++ codes "%";
    bar_width = show (at_least_5 m.similarity_pct) ++ codes "%";
    document = shown_document m.document;
  }

  matches : ℕ → List VectorSearchResult → List Match
  unfolding one_match
  matches i [] = []
  matches i (m ∷ ms) = one_match i m ∷ matches (suc i) ms

  nearest_matches : List VectorSearchResult → ResultsBox
  unfolding matches
  nearest_matches [] = enter_vector
  nearest_matches (m ∷ ms) = nearest (matches 0 (m ∷ ms))

  unfoldable pub results_box : View → ResultsBox
  unfolding nearest_matches
  results_box v = if v.loading then traversing else nearest_matches v.results
