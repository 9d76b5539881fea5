-- ===== src/Dashboard/Health.antt =====
-- dashboard/frontend/src/App.tsx: the health of the cluster, its card, its table of peers, and the
-- tabs of the page.
pub mod Counts
pub mod Tabs
use cocodb.Base.{
  ℕ, suc, ◌+◌, ◌-◌, ◌*◌, Bool, Option, none, some, List, [], ◌∷◌, ◌++◌, map, if◌then◌else◌, ltb,
  length, filter, not,
}
use cocodb.Base.Text.{Text, codes, includes}
use cocodb.Base.Decimal.{decimal}
use cocodb.Dashboard.Telemetry.{ℤ, pos, negsuc, PeerStatus, ClusterStatus, RealtimeTelemetry}

-- `peer.status.includes('online')`.
pub is_online : PeerStatus → Bool
unfolding includes
is_online peer = includes (codes "online") peer.status

module _ {Real : Type 0} where
  -- `telemetry?.cluster`.
  pub cluster_of : Option (RealtimeTelemetry Real) → Option ClusterStatus
  cluster_of none = none
  cluster_of (some t) = t.cluster

-- `cluster?.peers ?? []`.
peers_or_none : Option (List PeerStatus) → List PeerStatus
peers_or_none none = []
peers_or_none (some ps) = ps

pub cluster_peers : Option ClusterStatus → List PeerStatus
unfolding peers_or_none
cluster_peers none = []
cluster_peers (some c) = peers_or_none c.peers

pub online_peers : Option ClusterStatus → ℕ
unfolding is_online cluster_peers
online_peers cluster = length (filter is_online (cluster_peers cluster))

pub unreachable_peers : Option ClusterStatus → ℕ
unfolding online_peers cluster_peers
unreachable_peers cluster = length (cluster_peers cluster) - online_peers cluster

pub data ClusterHealth : Type 0 where
  standalone degraded healthy : ClusterHealth

-- `!cluster?.enabled ? 'Standalone' : unreachablePeers > 0 ? 'Degraded' : 'Healthy'`.
unfoldable pub cluster_health : Option ClusterStatus → ClusterHealth
unfolding unreachable_peers
cluster_health none = standalone
cluster_health (some c) =
    if not c.enabled
    then standalone
    else if ltb 0 (unreachable_peers (some c))
    then degraded
    else healthy

-- The card "Live Cluster Status".
pub data ClusterCard : Type 0 where
  embedded_node : ClusterCard
  numbers : (nodes online unavailable : ℕ) (node : Text) → ClusterCard

unfoldable pub cluster_card : Option ClusterStatus → ClusterCard
unfolding online_peers unreachable_peers
cluster_card none = embedded_node
cluster_card (some c) =
    if c.enabled
    then numbers c.total_nodes (online_peers (some c)) (unreachable_peers (some c))
        (c.node_id ++ (codes " · " ++ c.addr))
    else embedded_node

-- The card "Wire Security".
pub data WireSecurity : Type 0 where
  mutual_tls tls plain_tcp : WireSecurity

pub wire_security : ClusterStatus → WireSecurity
wire_security c = if c.mtls_enforced then mutual_tls else if c.tls_enabled then tls else plain_tcp

-- A row of the table of peers. Only the row of another node shows a round trip.
pub record PeerRow : Type 0 where
  pub green : Bool
  pub addr : Text
  pub self : Bool
  pub first_slot : ℕ
  pub last_slot : ℕ
  pub status : Text
  pub ping_rtt : Option Text

show_latency : ℤ → Text
show_latency (pos us) = decimal us ++ codes " µs"
show_latency (negsuc us) = codes "timeout"

pub peer_row : ℕ → PeerStatus → PeerRow
unfolding is_online show_latency
peer_row idx peer = record {
  green = is_online peer;
  addr = peer.addr;
  self = peer.is_local;
  first_slot = idx * 256;
  last_slot = (idx + 1) * 256 - 1;
  status = peer.status;
  ping_rtt = if not peer.is_local then some (show_latency peer.latency_us) else none;
}

pub peer_rows : ℕ → List PeerStatus → List PeerRow
unfolding peer_row
peer_rows idx [] = []
peer_rows idx (p ∷ ps) = peer_row idx p ∷ peer_rows (suc idx) ps

-- The panel of the tab "Cluster Topology & Health".
pub data Topology : Type 0 where
  standalone_mode : Topology
  no_peers : ClusterStatus → WireSecurity → Topology
  mesh : ClusterStatus → WireSecurity → List PeerRow → Topology

peer_mesh : ClusterStatus → List PeerStatus → Topology
unfolding wire_security peer_rows
peer_mesh c [] = no_peers c (wire_security c)
peer_mesh c (p ∷ ps) = mesh c (wire_security c) (peer_rows 0 (p ∷ ps))

unfoldable pub topology : Option ClusterStatus → Topology
unfolding peer_mesh peers_or_none
topology none = standalone_mode
topology (some c) = if c.enabled then peer_mesh c (peers_or_none c.peers) else standalone_mode
