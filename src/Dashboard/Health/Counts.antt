-- ===== src/Dashboard/Health/Counts.antt =====
-- The words of the cluster's health against the peers that are online, and the rows of the table.
use cocodb.Base.{
  ℕ, suc, ◌+◌, ◌-◌, ◌≤◌, ◌≡◌, ◌↔◌, refl, true, some, List, [], ◌∷◌, All, arith, length, filter,
  if◌then◌else◌, ltb, ap, Bool-cases, inl, inr,
}
use cocodb.Dashboard.Telemetry.{PeerStatus, ClusterStatus}
use cocodb.Dashboard.Health.{
  is_online, cluster_peers, online_peers, unreachable_peers, degraded, healthy, cluster_health,
  PeerRow, peer_row, peer_rows,
}

abbrev pub Online : PeerStatus → Type 0
Online p = is_online p ≡ true

filter_le : (ps : List PeerStatus) → length (filter is_online ps) ≤ length ps
filter_le [] = omega arith
filter_le (p ∷ ps) = ground (arith, filter_le ps)

-- Every peer is counted once, among the online ones or among the others.
All-Online : (ps : List PeerStatus) → (length ps - length (filter is_online ps) ≡ 0) ↔ All Online ps
All-Online [] = ground arith
All-Online (p ∷ ps) = elim (Bool-cases (is_online p)) [
  | inl y ↦ rw y (ground (arith, All-Online ps, filter_le ps))
  | inr n ↦ rw n (ground (arith, filter_le ps))
]

verdict : (n : ℕ) → ((if ltb 0 n then degraded else healthy) ≡ healthy) ↔ (n ≡ 0)
verdict n = ground arith

green_rows :
    (idx : ℕ) (ps : List PeerStatus)
    → length (filter (λ (r : PeerRow). r.green) (peer_rows idx ps)) ≡ length (filter is_online ps)
unfolding peer_rows peer_row
green_rows idx [] = refl
green_rows idx (p ∷ ps) = elim (Bool-cases (is_online p)) [
  | inl y ↦ rw y (ap suc (green_rows (suc idx) ps))
  | inr n ↦ rw n (green_rows (suc idx) ps)
]

-- A cluster that is enabled is called healthy exactly when every peer is online; the peers counted
-- as online and as unavailable are all the peers; and the rows of the table with a green light are
-- as many as the peers counted as online.
pub cluster_health_iff :
    (c : ClusterStatus)
    → c.enabled ≡ true
    → let ps = cluster_peers (some c) in
      ((cluster_health (some c) ≡ healthy) ↔ All Online ps)
      × (online_peers (some c) + unreachable_peers (some c) ≡ length ps)
      × (length (filter (λ (r : PeerRow). r.green) (peer_rows 0 ps)) ≡ online_peers (some c))
unfolding cluster_health online_peers unreachable_peers
cluster_health_iff c h =
    let ps = cluster_peers (some c) in
    let v = verdict (unreachable_peers (some c)) in
    let w = All-Online ps in
    (rw h ((λ e. w.0 (v.0 e)), (λ a. v.1 (w.1 a))), omega (arith, filter_le ps), green_rows 0 ps)
