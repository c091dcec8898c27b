-- ===== src/Dashboard.antt =====
-- dashboard.go: the mesh state, the JSON handlers, and the connected clients with the broadcast. The JSON
-- form, the page and the HTTP server are third-party code or data; `Duration.String` is a parameter. A
-- pointer is an Option; the map of clients is the list of its connections, each a number.
pub mod Clients
pub mod Sessions
pub mod Topologies
pub mod Serving
use nexus_stun.Common.{
  ℕ, Bool, true, false, ◌||◌, Option, none, some, List, [], ◌∷◌, ◌++◌, ◌==◌, if◌then◌else◌, Bytes,
  codes, equal,
}
use nexus_stun.Common.Dict.{Dict}
use nexus_stun.Config.{Config, HardwareConf}

pub record NodeState : Type 0 where
  pub name : Bytes
  pub ip : Bytes
  pub public_ip : Bytes
  pub nat_type : Bytes
  pub connected : Bool
  pub via_relay : Bool
  pub latency : ℕ
  pub bytes_tx : ℕ
  pub bytes_rx : ℕ
  pub last_seen : ℕ
  pub role : Bytes
  pub hardware : HardwareConf
  pub online : Bool

pub record TunnelState : Type 0 where
  pub source : Bytes
  pub destination : Bytes
  pub active : Bool
  pub latency : ℕ
  pub via_relay : Bool
  pub bytes_tx : ℕ
  pub bytes_rx : ℕ

pub record MeshState : Type 0 where
  pub local_node : Option NodeState
  pub peers : Dict (Option NodeState)
  pub tunnels : List (Option TunnelState)
  pub last_update : ℕ

-- (The field `peers` of the source is made and never used.)
pub record Dashboard : Type 0 where
  pub cfg : Config
  pub mesh : Option MeshState
  pub clients : List ℕ

unfoldable pub new_dashboard : Config → Dashboard
new_dashboard cfg = record { cfg = cfg; mesh = none; clients = [] }

abbrev pub is_client : ℕ → List ℕ → Bool
is_client c [] = false
is_client c (b ∷ bs) = b == c || is_client c bs

-- d.clients[conn] = true
unfoldable pub add_client : ℕ → List ℕ → List ℕ
add_client c bs = if is_client c bs then bs else c ∷ bs

-- delete(d.clients, conn)
unfoldable pub delete_client : ℕ → List ℕ → List ℕ
delete_client c [] = []
delete_client c (b ∷ bs) = let rest = delete_client c bs in if b == c then rest else b ∷ rest

-- what is done to a connection
pub data Action : Type 0 where
  write_json : ℕ → Option MeshState → Action
  close_conn : ℕ → Action

-- The loop of broadcast over the clients; `works c` is whether the write to c works.
unfoldable pub broadcast_loop : (ℕ → Bool) → Option MeshState → List ℕ → List ℕ × List Action
broadcast_loop works state [] = ([], [])
broadcast_loop works state (c ∷ cs) =
    let (kept, actions) = broadcast_loop works state cs in
    if works c
    then (c ∷ kept, write_json c state ∷ actions)
    else (kept, write_json c state ∷ close_conn c ∷ actions)

unfoldable pub broadcast : (ℕ → Bool) → Dashboard → Option MeshState → Dashboard × List Action
unfolding broadcast_loop
broadcast works d state =
    let (kept, actions) = broadcast_loop works state d.clients in
    (record d { clients = kept }, actions)

unfoldable pub update_mesh_state :
    (ℕ → Bool) → Dashboard → Option MeshState → Dashboard × List Action
unfolding broadcast
update_mesh_state works d state = broadcast works (record d { mesh = state }) state

unfoldable pub handle_api_status : Dashboard → Option MeshState
handle_api_status d = d.mesh

abbrev pub peers_of : Option MeshState → Dict (Option NodeState)
peers_of none = []
peers_of (some state) = state.peers

unfoldable pub handle_api_peers : Dashboard → Dict (Option NodeState)
handle_api_peers d = peers_of d.mesh

pub record TopologyNode : Type 0 where
  pub id : Bytes
  pub label : Bytes
  pub ip : Bytes
  pub online : Bool
  pub role : Bytes

pub record TopologyLink : Type 0 where
  pub source : Bytes
  pub target : Bytes
  pub active : Bool
  pub latency : Bytes
  pub via_relay : Bool

pub record Topology : Type 0 where
  pub nodes : List TopologyNode
  pub links : List TopologyLink

abbrev pub peer_node : Bytes → NodeState → TopologyNode
peer_node name node = record {
  id = name;
  label = name;
  ip = node.ip;
  online = node.online;
  role = node.role;
}

abbrev pub self_node : NodeState → TopologyNode
self_node node = record {
  id = node.name;
  label = node.name ++ codes " (self)";
  ip = node.ip;
  online = true;
  role = node.role;
}

-- A nil pointer panics, and then there is no result.
infixl 5 ◌>>=◌
abbrev ◌>>=◌ : {A B : Type 0} → Option A → (A → Option B) → Option B
none >>= f = none
some a >>= f = f a

-- A nil pointer in the map panics.
unfoldable pub peer_nodes : Dict (Option NodeState) → Option (List TopologyNode)
peer_nodes [] = some []
peer_nodes ((name, none) ∷ peers) = none
peer_nodes ((name, some node) ∷ peers) = do
  nodes ← peer_nodes peers
  some (peer_node name node ∷ nodes)

unfoldable pub self_nodes : Option NodeState → List TopologyNode
self_nodes none = []
self_nodes (some node) = self_node node ∷ []

module _ (duration_string : ℕ → Bytes) where
  abbrev pub tunnel_link : TunnelState → TopologyLink
  tunnel_link tunnel = record {
    source = tunnel.source;
    target = tunnel.destination;
    active = tunnel.active;
    latency = duration_string tunnel.latency;
    via_relay = tunnel.via_relay;
  }

  unfoldable pub tunnel_links : List (Option TunnelState) → Option (List TopologyLink)
  tunnel_links [] = some []
  tunnel_links (none ∷ tunnels) = none
  tunnel_links (some tunnel ∷ tunnels) = do
    links ← tunnel_links tunnels
    some (tunnel_link tunnel ∷ links)

  unfoldable pub topology_of : Option MeshState → Option Topology
  unfolding peer_nodes self_nodes tunnel_links
  topology_of none = some (record { nodes = []; links = [] })
  topology_of (some state) = do
    nodes ← peer_nodes state.peers
    links ← tunnel_links state.tunnels
    some (record { nodes = nodes ++ self_nodes state.local_node; links = links })

  unfoldable pub handle_api_topology : Dashboard → Option Topology
  unfolding topology_of
  handle_api_topology d = topology_of d.mesh
