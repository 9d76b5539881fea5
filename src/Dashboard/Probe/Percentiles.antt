-- ===== src/Dashboard/Probe/Percentiles.antt =====
-- The probe's latencies are the percentiles that it calls them.
use cocodb.Base.{
  ℕ, zero, suc, ◌*◌, ◌/◌, ◌≤◌, ◌<◌, ◌≡◌, refl, ◌∙◌, ap, subst, Bool, some, List, [], ◌∷◌, leb, ltb,
  length, filter, get_elem?, Bool-cases, inl, inr, arith,
}
use native.Mathlib.Nat.{mul-le-mul_left}
use cocodb.Dashboard.Probe.{insert, sort, percentile, ProbeResult, probe}

abbrev pub count : (ℕ → Bool) → List ℕ → ℕ
count p xs = length (filter p xs)

count-insert : (p : ℕ → Bool) (a : ℕ) (xs : List ℕ) → count p (insert a xs) ≡ count p (a ∷ xs)
unfolding insert
count-insert p a [] = refl
count-insert p a (b ∷ bs) = elim (Bool-cases (leb a b)) [
  | inl h ↦ rw h refl
  | inr h ↦ rw h (ground (arith, count-insert p a bs))
]

count-sort : (p : ℕ → Bool) (xs : List ℕ) → count p (sort xs) ≡ count p xs
unfolding sort
count-sort p [] = refl
count-sort p (a ∷ xs) = count-insert p a (sort xs) ∙ ground (arith, count-sort p xs)

length-insert : (a : ℕ) (xs : List ℕ) → length (insert a xs) ≡ suc (length xs)
unfolding insert
length-insert a [] = refl
length-insert a (b ∷ bs) = ground (arith, length-insert a bs)

length-sort : (xs : List ℕ) → length (sort xs) ≡ length xs
unfolding sort
length-sort [] = refl
length-sort (a ∷ xs) = length-insert a (sort xs) ∙ ap suc (length-sort xs)

-- Each element is at most those behind it.
abbrev AtLeast : ℕ → List ℕ → Type 0
AtLeast a [] = Unit {0}
AtLeast a (b ∷ bs) = (a ≤ b) × AtLeast a bs

abbrev IsSorted : List ℕ → Type 0
IsSorted [] = Unit {0}
IsSorted (a ∷ xs) = AtLeast a xs × IsSorted xs

AtLeast-mono : (a b : ℕ) (xs : List ℕ) → a ≤ b → AtLeast b xs → AtLeast a xs
AtLeast-mono a b [] h k = tt
AtLeast-mono a b (x ∷ xs) h (k, ks) = (omega arith, AtLeast-mono a b xs h ks)

AtLeast-insert : (m a : ℕ) (xs : List ℕ) → m ≤ a → AtLeast m xs → AtLeast m (insert a xs)
unfolding insert
AtLeast-insert m a [] h k = (h, tt)
AtLeast-insert m a (b ∷ bs) h (k, ks) = elim (Bool-cases (leb a b)) [
  | inl e ↦ rw e (h, (k, ks))
  | inr e ↦ rw e (k, AtLeast-insert m a bs h ks)
]

insert-IsSorted : (a : ℕ) (xs : List ℕ) → IsSorted xs → IsSorted (insert a xs)
unfolding insert
insert-IsSorted a [] h = (tt, tt)
insert-IsSorted a (b ∷ bs) (k, ks) = elim (Bool-cases (leb a b)) [
  | inl e ↦ rw e ((ground arith, AtLeast-mono a b bs (ground arith) k), (k, ks))
  | inr e ↦ rw e (AtLeast-insert b a bs (ground arith) k, insert-IsSorted a bs ks)
]

sort-IsSorted : (xs : List ℕ) → IsSorted (sort xs)
unfolding sort
sort-IsSorted [] = tt
sort-IsSorted (a ∷ xs) = insert-IsSorted a (sort xs) (sort-IsSorted xs)

get_elem?_of_lt : (xs : List ℕ) (k : ℕ) → k < length xs → (v : ℕ) × (get_elem? xs k ≡ some v)
get_elem?_of_lt [] k l = absurd (omega arith)
get_elem?_of_lt (x ∷ xs) zero l = (x, refl)
get_elem?_of_lt (x ∷ xs) (suc k) l = get_elem?_of_lt xs k (omega arith)

get_elem?-AtLeast : (m : ℕ) (xs : List ℕ) (k v : ℕ) → AtLeast m xs → get_elem? xs k ≡ some v → m ≤ v
get_elem?-AtLeast m [] k v h e = absurd (ground arith)
get_elem?-AtLeast m (x ∷ xs) zero v (h, hs) e = ground arith
get_elem?-AtLeast m (x ∷ xs) (suc k) v (h, hs) e = get_elem?-AtLeast m xs k v hs e

count-none : (v : ℕ) (xs : List ℕ) → AtLeast v xs → count (λ s. ltb s v) xs ≡ 0
count-none v [] h = refl
count-none v (x ∷ xs) (h, hs) = ground (arith, count-none v xs hs)

-- A value of which n elements are at most it and m are below it, where m ≤ k < n, stands at the place
-- k of the ascending order.
abbrev pub Ranks : List ℕ → ℕ → ℕ → Type 0
Ranks xs k v = (k < count (λ s. leb s v) xs) × (count (λ s. ltb s v) xs ≤ k)

head-Ranks : (x : ℕ) (xs : List ℕ) → AtLeast x xs → Ranks (x ∷ xs) 0 x
head-Ranks x xs h = (ground arith, ground (arith, count-none x xs h))

get_elem?-Ranks : (xs : List ℕ) (k v : ℕ) → IsSorted xs → get_elem? xs k ≡ some v → Ranks xs k v
get_elem?-Ranks [] k v h e = absurd (ground arith)
get_elem?-Ranks (x ∷ xs) zero v (h, hs) e =
    let same : x ≡ v = ground arith in subst (Ranks (x ∷ xs) 0) same (head-Ranks x xs h)
get_elem?-Ranks (x ∷ xs) (suc k) v (h, hs) e =
    let (a, b) = get_elem?-Ranks xs k v hs e in
    let le = get_elem?-AtLeast x xs k v h e in (ground arith, ground arith)

below_length : (n percent : ℕ) → percent < 100 → 0 < n → n * percent / 100 < n
below_length n percent p l =
    let h : n * percent ≤ n * 99 = mul-le-mul_left n (omega arith) in omega arith

percentile-Ranks :
    (percent : ℕ) (xs : List ℕ)
    → percent < 100
    → 0 < length xs
    → (v : ℕ) × (percentile percent (sort xs) ≡ some v) × Ranks xs (length xs * percent / 100) v
unfolding percentile
percentile-Ranks percent xs p l =
    let inside : length xs * percent / 100 < length (sort xs) =
      rw (length-sort xs) (below_length (length xs) percent p l) in
    let (v, e) = get_elem?_of_lt (sort xs) (length xs * percent / 100) inside in
    let (a, b) = get_elem?-Ranks (sort xs) (length xs * percent / 100) v (sort-IsSorted xs) e in
    (
      v,
      rw (length-sort xs) e,
      (rw (count-sort (λ s. leb s v) xs) at a, rw (count-sort (λ s. ltb s v) xs) at b),
    )

probe-some :
    (samples : List ℕ) (p50 p99 : ℕ)
    → percentile 50 (sort samples) ≡ some p50
    → percentile 99 (sort samples) ≡ some p99
    → probe samples ≡ some (record { ops = 2000; p50 = p50; p99 = p99 })
unfolding probe
probe-some samples p50 p99 e f = rw (e, f, probe) refl

-- With one sample or more the probe does not panic; it says 2000 operations, and each of its two
-- latencies is at the place of its percentile in the ascending order: more samples than that place's
-- number are at most it, and at most as many are below it.
pub probe-Ranks :
    (samples : List ℕ)
    → 0 < length samples
    → (r : ProbeResult) × (probe samples ≡ some r)
      × (r.ops ≡ 2000)
      × Ranks samples (length samples * 50 / 100) r.p50
      × Ranks samples (length samples * 99 / 100) r.p99
probe-Ranks samples l =
    let (p50, e50, r50) = percentile-Ranks 50 samples (omega arith) l in
    let (p99, e99, r99) = percentile-Ranks 99 samples (omega arith) l in
    (
      record { ops = 2000; p50 = p50; p99 = p99 },
      probe-some samples p50 p99 e50 e99,
      refl,
      r50,
      r99,
    )
