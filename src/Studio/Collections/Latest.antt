-- ===== src/Studio/Collections/Latest.antt =====
-- The guard of `loadDocuments` against overtaken requests: what the view shows, as a machine with
-- at most one request, whose answer alone reaches the table.
use cocodb.Base.{
  ℕ, zero, suc, ◌≤◌, ◌<◌, ◌≡◌, refl, ◌≢◌, ◌⊎◌, inl, inr, Bool, true, false, Option, none, some,
  List, [], ◌∷◌, arith, ◌==◌, if◌then◌else◌, get_elem?, erase_idx,
}
use cocodb.Base.Text.{Text}
use cocodb.Base.Result.{Result, ok, err}
use cocodb.Studio.Json.{Fields}
use cocodb.Studio.Api.{HttpRequest}
use cocodb.Studio.Collections.{
  Task, loading_documents, saving, deleting, deferred, View, Closure, load_documents,
  documents_loaded,
}

-- The pending request of that number.
unfoldable pub find_load : ℕ → List Task → Option HttpRequest
find_load n [] = none
find_load n (loading_documents id r ∷ ts) = if id == n then some r else find_load n ts
find_load n (saving c r ∷ ts) = find_load n ts
find_load n (deleting c r ∷ ts) = find_load n ts
find_load n (deferred c ∷ ts) = find_load n ts

-- The numbers fall along the tasks, from below `n`.
abbrev pub Below : ℕ → List Task → Type 0
Below n [] = Unit {0}
Below n (loading_documents id r ∷ ts) = (id < n) × Below id ts
Below n (saving c r ∷ ts) = Below n ts
Below n (deleting c r ∷ ts) = Below n ts
Below n (deferred c ∷ ts) = Below n ts

abbrev pub is_some {ℓ} : {A : Type ℓ} → Option A → Bool
is_some none = false
is_some (some a) = true

abbrev pub current : View → Option HttpRequest
current v = find_load v.latest_request v.tasks

pub record Inv (v : View) : Type 0 where
  pub fresh : Below (suc v.latest_request) v.tasks
  pub busy : v.loading ≡ is_some (current v)

Below-mono : {m n : ℕ} (ts : List Task) → m ≤ n → Below m ts → Below n ts
Below-mono [] h b = tt
Below-mono (loading_documents id r ∷ ts) h b = (omega arith, b.1)
Below-mono (saving c r ∷ ts) h b = Below-mono ts h b
Below-mono (deleting c r ∷ ts) h b = Below-mono ts h b
Below-mono (deferred c ∷ ts) h b = Below-mono ts h b

pub find_load_above : (k n : ℕ) (ts : List Task) → Below n ts → n ≤ k → find_load k ts ≡ none
unfolding find_load
find_load_above k n [] b h = refl
find_load_above k n (loading_documents id r ∷ ts) b h = ground (arith, find_load_above k id ts b.1)
find_load_above k n (saving c r ∷ ts) b h = find_load_above k n ts b h
find_load_above k n (deleting c r ∷ ts) b h = find_load_above k n ts b h
find_load_above k n (deferred c ∷ ts) b h = find_load_above k n ts b h

pub erase_idx-Below : (n i : ℕ) (ts : List Task) → Below n ts → Below n (erase_idx ts i)
erase_idx-Below n i [] b = tt
erase_idx-Below n zero (loading_documents id r ∷ ts) b = Below-mono {m = id} ts (omega arith) b.1
erase_idx-Below n zero (saving c r ∷ ts) b = b
erase_idx-Below n zero (deleting c r ∷ ts) b = b
erase_idx-Below n zero (deferred c ∷ ts) b = b
erase_idx-Below n (suc i) (loading_documents id r ∷ ts) b = (b.0, erase_idx-Below id i ts b.1)
erase_idx-Below n (suc i) (saving c r ∷ ts) b = erase_idx-Below n i ts b
erase_idx-Below n (suc i) (deleting c r ∷ ts) b = erase_idx-Below n i ts b
erase_idx-Below n (suc i) (deferred c ∷ ts) b = erase_idx-Below n i ts b

-- The number of a task that loads documents.
abbrev pub load_id : Task → Option (ℕ × HttpRequest)
load_id (loading_documents id r) = some (id, r)
load_id (saving c r) = none
load_id (deleting c r) = none
load_id (deferred c) = none

-- Taking out the task of another number, or one that loads nothing, leaves the request `k`;
-- taking out its own task leaves none.
pub find_load-erase_idx :
    (k n i : ℕ) (ts : List Task) (t : Task)
    → Below n ts
    → get_elem? ts i ≡ some t
    → ((load_id t ≡ none) × (find_load k (erase_idx ts i) ≡ find_load k ts))
      ⊎ ((id : ℕ) × (r : HttpRequest) × (load_id t ≡ some (id, r))
          × (find_load k (erase_idx ts i) ≡ (if id == k then none else find_load k ts))
          × (find_load id ts ≡ some r)
          × (id < n))
unfolding find_load
find_load-erase_idx k n i [] t b e = cc
find_load-erase_idx k n zero (loading_documents id r ∷ ts) t b e =
    inr (id, r, ground arith, ground (arith, find_load_above k id ts b.1), ground arith, b.0)
find_load-erase_idx k n zero (saving c r ∷ ts) t b e = inl (ground arith, refl)
find_load-erase_idx k n zero (deleting c r ∷ ts) t b e = inl (ground arith, refl)
find_load-erase_idx k n zero (deferred c ∷ ts) t b e = inl (ground arith, refl)
find_load-erase_idx k n (suc i) (loading_documents id r ∷ ts) t b e =
    elim (find_load-erase_idx k id i ts t b.1 e) [
      | inl (p, q) ↦ inl (p, rw q)
      | inr (x, q, p, gone, found, below) ↦ inr (x, q, p, ground arith, ground arith, omega arith)
    ]
find_load-erase_idx k n (suc i) (saving c r ∷ ts) t b e = find_load-erase_idx k n i ts t b e
find_load-erase_idx k n (suc i) (deleting c r ∷ ts) t b e = find_load-erase_idx k n i ts t b e
find_load-erase_idx k n (suc i) (deferred c ∷ ts) t b e = find_load-erase_idx k n i ts t b e

pub load_documents-Inv :
    (c : Closure) (name : Text) (v : View) → Inv v → Inv (load_documents c name v)
unfolding load_documents find_load
load_documents-Inv c name v h = ground arith

pub documents_loaded-Inv :
    (id : ℕ) (answer : Result (Option (List Fields))) (v : View)
    → Below (suc v.latest_request) v.tasks
    → (id ≢ v.latest_request → v.loading ≡ is_some (current v))
    → (id ≡ v.latest_request → current v ≡ none)
    → Inv (documents_loaded id answer v)
unfolding documents_loaded
documents_loaded-Inv id (ok none) v b h k = ground arith
documents_loaded-Inv id (ok (some docs)) v b h k = ground arith
documents_loaded-Inv id (err m) v b h k = ground arith
