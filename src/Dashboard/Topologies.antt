-- ===== src/Dashboard/Topologies.antt =====
-- dashboard.go: the topology that handleAPITopology shows against the peers of handleAPIPeers.
use nexus_stun.Common.{
  ℕ, ◌≡◌, refl, sym, inl, inr, Option, none, some, List, [], ◌∷◌, ◌++◌, if◌then◌else◌, Bytes, equal,
  equal_iff, Bool-cases, Option-cases,
}
use nexus_stun.Common.Dict.{Dict, lookup}
use nexus_stun.Dashboard.{
  MeshState, NodeState, Dashboard, Topology, TopologyNode, peer_node, peer_nodes, self_nodes,
  tunnel_links, topology_of, peers_of, handle_api_peers, handle_api_topology,
}

-- the first node that is shown under an id
abbrev pub find_node : Bytes → List TopologyNode → Option TopologyNode
find_node k [] = none
find_node k (n ∷ nodes) = if equal n.id k then some n else find_node k nodes

peer_nodes-found :
    (peers : Dict (Option NodeState)) (nodes own : List TopologyNode) (k : Bytes) (node : NodeState)
    → peer_nodes peers ≡ some nodes
    → lookup k peers ≡ some (some node)
    → find_node k (nodes ++ own) ≡ some (peer_node k node)
unfolding peer_nodes lookup
peer_nodes-found [] nodes own k node e f = absurd (cc f)
peer_nodes-found ((name, none) ∷ peers) nodes own k node e f = absurd (cc e)
peer_nodes-found ((name, some n) ∷ peers) nodes own k node e f =
    elim (Option-cases (peer_nodes peers)) [
      | inl nil ↦ absurd (cc (rw nil at e))
      | inr (rest, whole) ↦
          let nodes_lem : peer_node name n ∷ rest ≡ nodes = cc (rw whole at e) in
          rw (sym nodes_lem) (elim (Bool-cases (equal name k)) [
            | inl y ↦
                let at_node : some (some n) ≡ some (some node) = rw y at f in
                let same = (equal_iff name k).0 y in rw y (cc (same, at_node))
            | inr m ↦ rw m (peer_nodes-found peers rest own k node whole (rw m at f))
          ])
    ]

module _ (duration_string : ℕ → Bytes) where
  topology_of-found :
      (mesh : Option MeshState) (top : Topology) (k : Bytes) (node : NodeState)
      → topology_of duration_string mesh ≡ some top
      → lookup k (peers_of mesh) ≡ some (some node)
      → find_node k top.nodes ≡ some (peer_node k node)
  unfolding topology_of lookup
  topology_of-found none top k node e f = absurd (cc f)
  topology_of-found (some state) top k node e f = elim (Option-cases (peer_nodes state.peers)) [
    | inl nil ↦ absurd (cc (rw nil at e))
    | inr (nodes, whole) ↦ elim (Option-cases (tunnel_links duration_string state.tunnels)) [
      | inl nil ↦ absurd (cc (rw (whole, nil) at e))
      | inr (links, linked) ↦
          let top_lem : some
                (record { nodes = nodes ++ self_nodes state.local_node; links = links })
              ≡ some top =
            rw (whole, linked) at e in
          let nodes_lem : nodes ++ self_nodes state.local_node ≡ top.nodes = cc top_lem in
          rw (sym nodes_lem)
            (peer_nodes-found state.peers nodes (self_nodes state.local_node) k node whole f)
    ]
  ]

-- Where the topology is shown at all, each peer that the peers' list shows under a name is the first node of
-- that id, labelled with the name, with the peer's address, its role and whether it is online, also if this
-- node has the same name.
pub handle_api_topology-handle_api_peers :
    (duration_string : ℕ → Bytes) (d : Dashboard) (top : Topology) (k : Bytes) (node : NodeState)
    → handle_api_topology duration_string d ≡ some top
    → lookup k (handle_api_peers d) ≡ some (some node)
    → (n : TopologyNode) × (find_node k top.nodes ≡ some n)
      × (n.id ≡ k)
      × (n.label ≡ k)
      × (n.ip ≡ node.ip)
      × (n.online ≡ node.online)
      × (n.role ≡ node.role)
unfolding handle_api_topology handle_api_peers
handle_api_topology-handle_api_peers duration_string d top k node e f = (
  peer_node k node,
  topology_of-found duration_string d.mesh top k node e f,
  refl,
  refl,
  refl,
  refl,
  refl,
)
