-- ===== src/Studio/Queues/Cards/Clicked.antt =====
-- A click on a queue's card lights that card alone, and the bar shows the card's counts.
use cocodb.Base.{
  ℕ, zero, suc, ◌≡◌, ◌≢◌, refl, sym, subst, false, some, List, [], ◌∷◌, map, filter, All, get_elem?,
  arith,
}
use cocodb.Base.Text.{Text, text_eq, text_eq_iff, text_eq_refl}
use cocodb.Studio.Queues.{QueueItem, View, current_queue_info, step, select}
use cocodb.Studio.Queues.Cards.{counts_of, metrics_bar, QueueCard, queue_card}

-- No two queues have one name.
abbrev pub DistinctNames : List QueueItem → Type 0
DistinctNames [] = Unit {0}
DistinctNames (q ∷ qs) = All (λ r. r.name ≢ q.name) qs × DistinctNames qs

abbrev pub selected_cards : Text → List QueueItem → List QueueCard
selected_cards name qs = filter (λ c. c.selected) (map (queue_card name) qs)

text_eq_of_ne : (s t : Text) → s ≢ t → text_eq s t ≡ false
text_eq_of_ne s t h = ground (arith, text_eq_iff s t)

name-ne_of_elem :
    (n : Text) (qs : List QueueItem) (i : ℕ) (q : QueueItem)
    → All (λ r. r.name ≢ n) qs
    → get_elem? qs i ≡ some q
    → q.name ≢ n
name-ne_of_elem n [] i q h e = absurd (ground arith)
name-ne_of_elem n (r ∷ rs) zero q (h, hs) e =
    let same : r ≡ q = ground arith in subst (λ (x : QueueItem). x.name ≢ n) same h
name-ne_of_elem n (r ∷ rs) (suc i) q (h, hs) e = name-ne_of_elem n rs i q hs e

none_selected :
    (n : Text) (qs : List QueueItem) → All (λ r. r.name ≢ n) qs → selected_cards n qs ≡ []
unfolding queue_card
none_selected n [] h = refl
none_selected n (q ∷ qs) (h, hs) =
    rw (text_eq_of_ne n q.name (λ e. h (sym e))) (none_selected n qs hs)

-- The name of a queue selects it in the bar, and its card alone.
abbrev Selects : QueueItem → List QueueItem → Type 0
Selects q qs =
    (current_queue_info q.name qs ≡ some q) × (selected_cards q.name qs ≡ queue_card q.name q ∷ [])

selected_first :
    (q : QueueItem) (qs : List QueueItem) → All (λ r. r.name ≢ q.name) qs → Selects q (q ∷ qs)
unfolding current_queue_info queue_card
selected_first q qs h = rw (text_eq_refl q.name, none_selected q.name qs h) (refl, refl)

selected_of_elem :
    (qs : List QueueItem) (i : ℕ) (q : QueueItem)
    → DistinctNames qs
    → get_elem? qs i ≡ some q
    → Selects q qs
unfolding current_queue_info queue_card
selected_of_elem [] i q d e = absurd (ground arith)
selected_of_elem (r ∷ rs) zero q (h, hs) e =
    let same : r ≡ q = ground arith in
    subst (λ (x : QueueItem). Selects x (r ∷ rs)) same (selected_first r rs h)
selected_of_elem (r ∷ rs) (suc i) q (h, hs) e =
    let apart = name-ne_of_elem r.name rs i q h e in
    let (info, cards) = selected_of_elem rs i q hs e in
    rw (text_eq_of_ne r.name q.name (λ x. apart (sym x)), text_eq_of_ne q.name r.name apart)
      (info, cards)

-- Where no two queues have one name, a click on a queue's card makes the bar show the counts of that
-- queue, and its card, with the same counts, is the only one that is lit.
pub clicked_card :
    (v : View) (i : ℕ) (q : QueueItem)
    → DistinctNames v.queues
    → get_elem? v.queues i ≡ some q
    → let w = step v (select q.name) in
      (metrics_bar w ≡ counts_of q.stats)
      × (selected_cards w.selected_queue w.queues ≡ queue_card q.name q ∷ [])
      × ((queue_card q.name q).counts ≡ metrics_bar w)
unfolding step metrics_bar queue_card
clicked_card v i q d e =
    let (info, cards) = selected_of_elem v.queues i q d e in rw info (refl, cards, refl)
