-- ===== src/Dashboard/Probe.antt =====
-- dashboard/handlers.go: the benchmark probe, which sorts the latencies that it measured.
pub mod Percentiles
use cocodb.Base.{
  ℕ, ◌*◌, ◌/◌, Option, none, some, List, [], ◌∷◌, if◌then◌else◌, leb, length, get_elem?,
}

-- `sort.Slice` by `samples[i] < samples[j]`: the ascending order of the samples.
pub insert : ℕ → List ℕ → List ℕ
insert a [] = a ∷ []
insert a (b ∷ bs) = if leb a b then a ∷ (b ∷ bs) else b ∷ insert a bs

unfoldable pub sort : List ℕ → List ℕ
unfolding insert
sort [] = []
sort (a ∷ rest) = insert a (sort rest)

-- What the handler answers with.
pub record ProbeResult : Type 0 where
  pub ops : ℕ
  pub p50 : ℕ
  pub p99 : ℕ

-- `samples[len(samples)*percent/100]`; an index out of range panics.
unfoldable pub percentile : ℕ → List ℕ → Option ℕ
percentile percent sorted = get_elem? sorted (length sorted * percent / 100)

-- A panic is none; there are a thousand samples.
unfoldable pub probe : List ℕ → Option ProbeResult
unfolding percentile
probe samples = elim (percentile 50 (sort samples)) [
  | none ↦ none
  | some p50 ↦ elim (percentile 99 (sort samples)) [
    | none ↦ none
    | some p99 ↦ some (record { ops = 2000; p50 = p50; p99 = p99 })
  ]
]
