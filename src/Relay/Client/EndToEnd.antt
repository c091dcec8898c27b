-- ===== src/Relay/Client/EndToEnd.antt =====
-- relay.go: a client, the server and another client, from Connect and Send to what is read at the end.
use nexus_stun.Common.{
  ℕ, ◌≤◌, ◌<◌, ◌≡◌, refl, sym, ap, subst, ◌∙◌, true, some, List, [], ◌∷◌, ◌++◌, ==_iff, append-nil,
  length, Bytes, ok, arith,
}
use nexus_stun.Common.Dict.{lookup, lookup-insert_self}
use nexus_stun.Relay.{RelayMessage, relay_msg_data, relay_msg_register, read_message, send_message}
use nexus_stun.Relay.Frames.{read_message-send_message}
use nexus_stun.Relay.Server.{RelayClient, new_client, register, handle_message}
use nexus_stun.Relay.Server.Delivery.{handle_message_forwards}
use nexus_stun.Relay.Server.Sessions.{Session, World, Step, connect as connect_step, serve}
use nexus_stun.Relay.Bounds.{IsSendable}
use nexus_stun.Relay.Server.Registry.{observe}
use nexus_stun.Relay.Client.{RelayClientConn, write, connect, send, bytes_to}

-- The frame of a Send, as the server reads it.
abbrev pub data_of : Bytes → Bytes → Bytes → RelayMessage
data_of src dst payload = record {
  msg_type = relay_msg_data;
  src_node = src;
  dst_node = dst;
  payload = payload;
}

abbrev pub registration_of : Bytes → RelayMessage
registration_of src = record {
  msg_type = relay_msg_register;
  src_node = src;
  dst_node = [];
  payload = [];
}

bytes_to_one : (c : ℕ) (bytes : Bytes) → bytes_to c (write c bytes ∷ []) ≡ bytes
unfolding bytes_to
bytes_to_one c bytes = rw ((==_iff c c).1 refl) (append-nil bytes)

bytes-connect :
    (rc : RelayClientConn) (c : ℕ)
    → bytes_to c (connect rc (some c) true).2 ≡ send_message relay_msg_register rc.node_name [] []
unfolding connect
bytes-connect rc c = bytes_to_one c (send_message relay_msg_register rc.node_name [] [])

bytes-send :
    (rc : RelayClientConn) (c : ℕ) (dst payload : Bytes)
    → rc.conn ≡ some c
    → bytes_to c (send rc dst payload true).1 ≡ send_message relay_msg_data rc.node_name dst payload
unfolding send
bytes-send rc c dst payload e =
    rw e (bytes_to_one c (send_message relay_msg_data rc.node_name dst payload))

read_registration :
    (rc : RelayClientConn) (c : ℕ) (rest : Bytes)
    → length rc.node_name < 256
    → read_message (bytes_to c (connect rc (some c) true).2 ++ rest)
      ≡ ok (registration_of rc.node_name, rest)
read_registration rc c rest l =
    ap read_message (ap (λ (s : Bytes). s ++ rest) (bytes-connect rc c))
    ∙ read_message-send_message relay_msg_register rc.node_name [] [] rest l (omega arith)
        (omega arith)

connect-ok : (rc : RelayClientConn) (c : ℕ) → (connect rc (some c) true).0 ≡ ok tt
unfolding connect
connect-ok rc c = refl

observe-register :
    (w : World) (client : RelayClient) (sessions : List Session)
    → observe (record { server = register w.server client; sessions = sessions }) client.name
      ≡ some client.conn
unfolding register
observe-register w client sessions =
    rw (lookup-insert_self client.name client w.server.clients) refl

-- Connect on a connection that works registers the client: it returns no error, what it writes reads as
-- the client's registration, whatever follows, and in any state of the server there is a step that takes
-- the connection, after which the registry gives that connection for the client's name (of fewer than
-- 256 bytes), and a session goes on behind what was read.
pub connect_registers :
    (w : World) (rc : RelayClientConn) (c now : ℕ) (rest : Bytes)
    → length rc.node_name < 256
    → (v : World) × ((connect rc (some c) true).0 ≡ ok tt)
      × (read_message (bytes_to c (connect rc (some c) true).2 ++ rest)
          ≡ ok (registration_of rc.node_name, rest))
      × Step w v []
      × (observe v rc.node_name ≡ some c)
      × (v.sessions
          ≡ record { client = new_client c (registration_of rc.node_name) now; pending = rest }
            ∷ w.sessions)
connect_registers w rc c now rest l =
    let client = new_client c (registration_of rc.node_name) now in
    let sessions = record { client = client; pending = rest } ∷ w.sessions in
    let read = read_registration rc c rest l in
    (
      record { server = register w.server client; sessions = sessions },
      connect-ok rc c,
      read,
      connect_step c now (bytes_to c (connect rc (some c) true).2 ++ rest) rest
          (registration_of rc.node_name) read refl,
      observe-register w client sessions,
      refl,
    )

-- A Send on a connected client arrives: where the server's session on that connection holds what Send
-- wrote, and the destination is registered, the server can step, and in that step it writes one frame to
-- the destination's connection, which reads there as the same message. Node names have fewer than 256
-- bytes, the payload at most 65535.
pub send_arrives :
    (w : World) (rc : RelayClientConn) (c now : ℕ) (dst payload rest : Bytes)
    (front back : List Session) (x : Session) (entry : RelayClient)
    → rc.conn ≡ some c
    → length rc.node_name < 256
    → length dst < 256
    → length payload ≤ 65535
    → w.sessions ≡ front ++ (x ∷ back)
    → x.pending ≡ bytes_to c (send rc dst payload true).1 ++ rest
    → lookup dst w.server.clients ≡ some entry
    → (v : World) × (out : Bytes) × Step w v ((entry.conn, out) ∷ [])
      × (v.sessions ≡ front ++ (record x { pending = rest } ∷ back))
      × (read_message out ≡ ok (data_of rc.node_name dst payload, []))
send_arrives w rc c now dst payload rest front back x entry e ls ld lp at pending found =
    let m = data_of rc.node_name dst payload in
    let read : read_message x.pending ≡ ok (m, rest) =
      ap read_message (pending ∙ ap (λ (s : Bytes). s ++ rest) (bytes-send rc c dst payload e))
      ∙ read_message-send_message relay_msg_data rc.node_name dst payload rest ls ld lp in
    let i : IsSendable m = record { src_short = ls; dst_short = ld; payload_short = lp } in
    let (out, sent, arrives) = handle_message_forwards w.server x.client m entry now i refl found in
    (
      record {
        server = (handle_message w.server x.client m now).0;
        sessions = front ++ (record x { pending = rest } ∷ back);
      },
      out,
      subst (Step w _) sent (serve front back x m rest now at read),
      refl,
      ap read_message (sym (append-nil out)) ∙ arrives [],
    )
