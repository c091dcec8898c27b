-- ===== src/Relay/Server.antt =====
-- relay.go: the server's registry and what handleClient does with it. A connection is a number; the
-- RelayClient that a goroutine holds and the one that the map points to are the same object where
-- their connections are the same.
pub mod Delivery
pub mod Sessions
pub mod Reconnecting
pub mod Registry
use nexus_stun.Common.{ℕ, Option, none, some, List, [], ◌∷◌, ◌++◌, ◌==◌, if◌then◌else◌, Bytes, ok}
use nexus_stun.Common.Dict.{Dict, lookup, insert, delete}
use nexus_stun.Relay.{RelayMessage, relay_msg_data, relay_msg_ping, relay_msg_pong, send_message}

pub record RelayClient : Type 0 where
  pub name : Bytes
  pub public_key : Bytes
  pub conn : ℕ
  pub last_seen : ℕ

pub record RelayServer : Type 0 where
  pub clients : Dict RelayClient

unfoldable pub new_relay_server : RelayServer
new_relay_server = record { clients = [] }

-- Bytes written to a connection.
abbrev pub Sent : Type 0
Sent = ℕ × Bytes

-- the client that a REGISTER makes
abbrev pub new_client : ℕ → RelayMessage → ℕ → RelayClient
new_client conn msg now = record {
  name = msg.src_node;
  public_key = [];
  conn = conn;
  last_seen = now;
}

unfoldable pub register : RelayServer → RelayClient → RelayServer
register r client = record r { clients = insert client.name client r.clients }

-- the deferred function
unfoldable pub unregister : RelayServer → RelayClient → RelayServer
unregister r client = record r { clients = delete client.name r.clients }

-- client.LastSeen = now, seen through the map
unfoldable pub touch_entry : Option RelayClient → RelayServer → RelayClient → ℕ → RelayServer
touch_entry none r client now = r
touch_entry (some entry) r client now =
    if entry.conn == client.conn
    then record r { clients = insert client.name (record entry { last_seen = now }) r.clients }
    else r

unfoldable pub touch : RelayServer → RelayClient → ℕ → RelayServer
unfolding touch_entry
touch r client now = touch_entry (lookup client.name r.clients) r client now

-- to the connection of the destination's client, if there is one
unfoldable pub forward_to : Option RelayClient → RelayMessage → List Sent
forward_to none msg = []
forward_to (some dst) msg =
    (dst.conn, send_message relay_msg_data msg.src_node msg.dst_node msg.payload) ∷ []

unfoldable pub forward_to_peer : RelayServer → RelayMessage → List Sent
unfolding forward_to
forward_to_peer r msg = forward_to (lookup msg.dst_node r.clients) msg

-- The loop body of handleClient behind a successful read.
unfoldable pub handle_message :
    RelayServer → RelayClient → RelayMessage → ℕ → RelayServer × List Sent
handle_message r client msg now =
    let r' = touch r client now in
    if msg.msg_type == relay_msg_data
    then (r', forward_to_peer r' msg)
    else if msg.msg_type == relay_msg_ping
    then (r', (client.conn, send_message relay_msg_pong [] msg.src_node []) ∷ [])
    else (r', [])
