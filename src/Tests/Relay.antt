-- ===== src/Tests/Relay.antt =====
-- Runs of relay.go, and its theorems at concrete values.
use nexus_stun.Common.{
  ℕ, ◌≡◌, refl, true, none, some, [], ◌∷◌, ◌++◌, Bytes, codes, ok, err, arith, equal, uint32, index,
}
use nexus_stun.Config.{RelayConf}
use nexus_stun.Common.Dict.{lookup, insert}
use nexus_stun.Relay.{
  RelayMessage, RelayError, relay_msg_data, read_message, send_message, read_string, read_full,
  read_body, read_payload, read_sized,
}
use nexus_stun.Relay.Frames.{delivered, read_message-send_message}
use nexus_stun.Relay.Streams.{read_message_partial}
use nexus_stun.Relay.Server.{
  RelayClient, RelayServer, new_client, handle_message, register, new_relay_server,
}
use nexus_stun.Relay.Server.Delivery.{handle_message_delivers, identity}
use nexus_stun.Relay.Server.Reconnecting.{reconnect_unregistered}
use nexus_stun.Relay.Server.Registry.{observe, replay, claims, replay_refines}
use nexus_stun.Relay.Client.{RelayClientConn, connect as connect_client, send, bytes_to}
use nexus_stun.Relay.Client.EndToEnd.{data_of, registration_of, connect_registers, send_arrives}
use nexus_stun.Relay.Listening.{
  Listener, secured, start, IsDemanded, build_tls_config, listener_of, version_tls13,
  require_and_verify_client_cert, start-IsDemanded,
}
use nexus_stun.Relay.Server.Sessions.{
  Session, Step, World, Reach, here, next, connect, initial, Serves, Reach-Inv,
}

read_message-send_message_example :
    read_message (send_message relay_msg_data (codes "a") (codes "b") (codes "hi") ++ (3 ∷ []))
    ≡ ok (delivered relay_msg_data (codes "a") (codes "b") (codes "hi"), 3 ∷ [])
read_message-send_message_example =
    read_message-send_message relay_msg_data (codes "a") (codes "b") (codes "hi") (3 ∷ [])
      (omega arith) (omega arith) (omega arith)

abbrev registration : Bytes
registration = 2 ∷ 1 ∷ 97 ∷ 0 ∷ []

abbrev registered : RelayMessage
registered = record { msg_type = 2; src_node = codes "a"; dst_node = []; payload = [] }

registration-read : read_message registration ≡ ok (registered, [])
unfolding read_message read_full index read_body read_string read_payload
registration-read = refl

read_message_partial_example : (e : RelayError) × (read_message (2 ∷ 1 ∷ 97 ∷ []) ≡ err e)
read_message_partial_example =
    read_message_partial (2 ∷ 1 ∷ 97 ∷ []) [] 0 registered registration-read

abbrev frame : Bytes
frame = 1 ∷ 1 ∷ 97 ∷ 1 ∷ 98 ∷ 0 ∷ 0 ∷ 0 ∷ 1 ∷ 7 ∷ []

abbrev message : RelayMessage
message = record { msg_type = 1; src_node = codes "a"; dst_node = codes "b"; payload = 7 ∷ [] }

frame-read : read_message frame ≡ ok (message, [])
unfolding read_message read_full index read_body read_string read_payload read_sized uint32
frame-read = refl

abbrev client_of : Bytes → ℕ → RelayClient
client_of name conn = record { name = name; public_key = []; conn = conn; last_seen = 0 }

abbrev server : RelayServer
server = record {
  clients = (codes "a", client_of (codes "a") 1) ∷ (codes "b", client_of (codes "b") 2) ∷ [];
}

b_registered : lookup (codes "b") server.clients ≡ some (client_of (codes "b") 2)
unfolding lookup equal
b_registered = refl

handle_message_delivers_example :
    (out : Bytes) × ((handle_message server (client_of (codes "a") 1) message 5).1 ≡ (2, out) ∷ [])
    × ((more : Bytes) → read_message (out ++ more) ≡ ok (message, more))
handle_message_delivers_example =
    handle_message_delivers server (client_of (codes "a") 1) frame [] message
      (client_of (codes "b") 2) 5
      (
        omega arith,
        (
          omega arith,
          (
            omega arith,
            (
              omega arith,
              (
                omega arith,
                (omega arith, (omega arith, (omega arith, (omega arith, (omega arith, tt))))),
              ),
            ),
          ),
        ),
      )
      frame-read refl b_registered

abbrev one_client : World
one_client = record {
  server = register initial.server (new_client 1 registered 5);
  sessions = record { client = new_client 1 registered 5; pending = [] } ∷ initial.sessions;
}

one_client-Reach : Reach initial one_client
one_client-Reach = next here (connect 1 5 registration [] registered registration-read refl)

one_client_registered :
    identity (lookup (codes "a") one_client.server.clients) ≡ some (codes "a", 1)
unfolding lookup register insert initial new_relay_server equal
one_client_registered = refl

Reach-Inv_example : (codes "a" ≡ codes "a") × Serves (codes "a") 1 one_client.sessions
Reach-Inv_example = Reach-Inv (codes "a") (codes "a") 1 one_client-Reach one_client_registered

reconnect_unregistered_example :
    (v : World) × Reach initial v
    × Serves (codes "a") 2 v.sessions
    × (lookup (codes "a") v.server.clients ≡ none)
reconnect_unregistered_example =
    reconnect_unregistered 1 2 5 registration [] registered registration-read refl

replay_refines_example : observe one_client ≡ replay (claims one_client-Reach) (λ _. none)
replay_refines_example = replay_refines one_client-Reach

abbrev client_a : RelayClientConn
client_a = record { node_name = codes "a"; conn = some 1 }

-- on a server with no clients
connect_registers_example :
    let sent = bytes_to 1 (connect_client client_a (some 1) true).2 in
    (v : World) × ((connect_client client_a (some 1) true).0 ≡ ok tt)
    × (read_message (sent ++ []) ≡ ok (registration_of (codes "a"), []))
    × Step initial v []
    × (observe v (codes "a") ≡ some 1)
    × (v.sessions
        ≡ record { client = new_client 1 (registration_of (codes "a")) 5; pending = [] } ∷ [])
unfolding initial
connect_registers_example = connect_registers initial client_a 1 5 [] (omega arith)

-- a has sent two bytes to b, and both are registered.
abbrev sending : Session
sending = record {
  client = client_of (codes "a") 1;
  pending = bytes_to 1 (send client_a (codes "b") (7 ∷ 8 ∷ []) true).1 ++ [];
}

abbrev two_clients : World
two_clients = record { server = server; sessions = sending ∷ [] }

send_arrives_example :
    (v : World) × (out : Bytes) × Step two_clients v ((2, out) ∷ [])
    × (v.sessions ≡ record sending { pending = [] } ∷ [])
    × (read_message out ≡ ok (data_of (codes "a") (codes "b") (7 ∷ 8 ∷ []), []))
send_arrives_example =
    send_arrives two_clients client_a 1 9 (codes "b") (7 ∷ 8 ∷ []) [] [] [] sending
      (client_of (codes "b") 2) refl (omega arith) (omega arith) (omega arith) refl refl
      b_registered

abbrev secure : RelayConf
secure = record {
  listen_addr = codes ":443";
  tls = record { cert_file = codes "c"; key_file = codes "k"; ca_file = codes "ca" };
  fallback_timeout = 5;
}

abbrev secure_listener : Listener ℕ
secure_listener = secured (codes ":443") (record {
  certificate = 1;
  min_version = version_tls13;
  client_cas = some (codes "pem");
  client_auth = require_and_verify_client_cert;
})

secure_started :
    start (λ c k. some 1) (λ f. some (codes "pem")) (λ l. true) secure ≡ ok secure_listener
unfolding start build_tls_config listener_of equal
secure_started = refl

start-IsDemanded_example :
    IsDemanded (λ c k. some 1) (λ f. some (codes "pem")) secure secure_listener × (true ≡ true)
start-IsDemanded_example =
    start-IsDemanded (λ c k. some 1) (λ f. some (codes "pem")) (λ l. true) secure secure_listener
      secure_started
