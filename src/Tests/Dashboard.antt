-- ===== src/Tests/Dashboard.antt =====
-- Runs of dashboard.go, and its theorems at concrete values.
use nexus_stun.Common.{◌≡◌, ◌≢◌, refl, true, false, some, List, [], ◌∷◌, ◌==◌, not, codes, equal}
use nexus_stun.Common.Dict.{lookup}
use nexus_stun.Dashboard.{
  MeshState, NodeState, TunnelState, Dashboard, Topology, TopologyNode, is_client, Action,
  update_mesh_state, handle_api_peers, handle_api_topology, topology_of, peer_nodes, self_nodes,
  tunnel_links, peer_node, add_client,
}
use nexus_stun.Dashboard.Clients.{IsDistinct, IsTold, written_to, update_mesh_state-IsTold}
use nexus_stun.Dashboard.Sessions.{
  World, set_phase, joined, absent, listening, Reach, here, next, join, initial, Reach-IsServed,
  stale_greeting,
}
use nexus_stun.Dashboard.Topologies.{find_node, handle_api_topology-handle_api_peers}
use nexus_stun.Tests.Config.{file}

abbrev node : NodeState
node = record {
  name = codes "b";
  ip = codes "100.64.0.2";
  public_ip = [];
  nat_type = [];
  connected = true;
  via_relay = false;
  latency = 3;
  bytes_tx = 0;
  bytes_rx = 0;
  last_seen = 9;
  role = codes "gpu";
  hardware = record { gpu = true; ram_gb = 8; cpu = [] };
  online = true;
}

abbrev tunnel : TunnelState
tunnel = record {
  source = codes "a";
  destination = codes "b";
  active = true;
  latency = 3;
  via_relay = false;
  bytes_tx = 0;
  bytes_rx = 0;
}

abbrev mesh : MeshState
mesh = record {
  local_node = some (record node { name = codes "a" });
  peers = (codes "b", some node) ∷ [];
  tunnels = some tunnel ∷ [];
  last_update = 9;
}

abbrev old_mesh : MeshState
old_mesh = record mesh { last_update = 8 }

-- Two clients, of which the write to 2 fails.
abbrev shown : Dashboard
shown = record { cfg = file; mesh = some mesh; clients = 1 ∷ 2 ∷ [] }

update_mesh_state-IsTold_example :
    let (d', actions) = update_mesh_state (λ c. not (c == 2)) shown (some mesh) in
    (d'.mesh ≡ some mesh) × IsTold (λ c. not (c == 2)) (some mesh) 2 true d'.clients actions
update_mesh_state-IsTold_example =
    update_mesh_state-IsTold (λ c. not (c == 2)) shown (some mesh) 2 (refl, (refl, tt))

abbrev joined_world : World
joined_world = record (initial file) {
  dashboard = record (initial file).dashboard {
    clients = add_client 7 (initial file).dashboard.clients;
  };
  phase = set_phase 7 joined (initial file).phase;
}

joined-Reach : Reach (initial file) joined_world []
unfolding initial
joined-Reach = next here (join 7 refl)

Reach-IsServed_example :
    IsDistinct joined_world.dashboard.clients
    × (is_client 7 joined_world.dashboard.clients ≡ true → joined_world.phase 7 ≢ absent)
Reach-IsServed_example = Reach-IsServed file 7 joined-Reach

stale_greeting_example :
    (v : World) × (actions : List Action) × Reach (initial file) v actions
    × (v.dashboard.mesh ≡ some mesh)
    × (v.updates ≡ [])
    × (v.phase 0 ≡ listening)
    × (is_client 0 v.dashboard.clients ≡ true)
    × (written_to 0 actions ≡ some mesh ∷ some old_mesh ∷ [])
stale_greeting_example = stale_greeting file old_mesh mesh

abbrev top : Topology
top = record {
  nodes =
      peer_node (codes "b") node
      ∷ record {
        id = codes "a";
        label = codes "a (self)";
        ip = codes "100.64.0.2";
        online = true;
        role = codes "gpu";
      }
      ∷ [];
  links =
      record {
        source = codes "a";
        target = codes "b";
        active = true;
        latency = codes "3ns";
        via_relay = false;
      }
      ∷ [];
}

topology_computed : handle_api_topology (λ n. codes "3ns") shown ≡ some top
unfolding handle_api_topology topology_of peer_nodes self_nodes tunnel_links
topology_computed = refl

b_listed : lookup (codes "b") (handle_api_peers shown) ≡ some (some node)
unfolding handle_api_peers lookup equal
b_listed = refl

handle_api_topology-handle_api_peers_example :
    (n : TopologyNode) × (find_node (codes "b") top.nodes ≡ some n)
    × (n.id ≡ codes "b")
    × (n.label ≡ codes "b")
    × (n.ip ≡ codes "100.64.0.2")
    × (n.online ≡ true)
    × (n.role ≡ codes "gpu")
handle_api_topology-handle_api_peers_example =
    handle_api_topology-handle_api_peers (λ n. codes "3ns") shown top (codes "b") node
      topology_computed b_listed
