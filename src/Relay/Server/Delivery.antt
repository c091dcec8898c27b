-- ===== src/Relay/Server/Delivery.antt =====
-- relay.go: what a destination receives of a message that the server has read.
use nexus_stun.Common.{
  ℕ, ◌≡◌, refl, sym, ap, ◌∙◌, inl, inr, Option, none, some, [], ◌∷◌, ◌++◌, ◌==◌, Bytes, AreBytes,
  ok, arith, Bool-cases, equal, ==_iff, equal_iff,
}
use nexus_stun.Common.Dict.{lookup, lookup-insert}
use nexus_stun.Relay.{RelayMessage, relay_msg_data, read_message, send_message}
use nexus_stun.Relay.Frames.{read_message-send_message}
use nexus_stun.Relay.Bounds.{IsSendable, read_message-IsSendable}
use nexus_stun.Relay.Server.{
  RelayClient, RelayServer, touch, touch_entry, forward_to, forward_to_peer, handle_message,
}

-- Which client and which connection an entry stands for.
abbrev pub identity : Option RelayClient → Option (Bytes × ℕ)
identity none = none
identity (some c) = some (c.name, c.conn)

touch_entry-identity :
    (o : Option RelayClient) (r : RelayServer) (client : RelayClient) (now : ℕ) (k : Bytes)
    → lookup client.name r.clients ≡ o
    → identity (lookup k (touch_entry o r client now).clients) ≡ identity (lookup k r.clients)
unfolding touch_entry
touch_entry-identity none r client now k e = refl
touch_entry-identity (some c) r client now k e = elim (Bool-cases (c.conn == client.conn)) [
  | inr other ↦ rw other refl
  | inl same ↦
      rw (same, lookup-insert client.name k (record c { last_seen = now }) r.clients)
        (elim (Bool-cases (equal client.name k)) [
          | inr ne ↦ rw ne refl
          | inl eq ↦ rw eq (
              sym (
                ap identity (
                  ap (λ (j : Bytes). lookup j r.clients) (sym ((equal_iff client.name k).0 eq))
                  ∙ e)))
        ])
]

-- Setting LastSeen changes no name and no connection in the map.
pub touch-identity :
    (r : RelayServer) (client : RelayClient) (now : ℕ) (k : Bytes)
    → identity (lookup k (touch r client now).clients) ≡ identity (lookup k r.clients)
unfolding touch
touch-identity r client now k =
    touch_entry-identity (lookup client.name r.clients) r client now k refl

identity_inv :
    (o : Option RelayClient) (n : Bytes) (c : ℕ)
    → identity o ≡ some (n, c)
    → (x : RelayClient) × (o ≡ some x) × (x.name ≡ n) × (x.conn ≡ c)
identity_inv none n c e = cc
identity_inv (some x) n c e = (x, refl, ground (arith, e), ground (arith, e))

forward_to_peer_delivers :
    (r : RelayServer) (m : RelayMessage) (dst : RelayClient)
    → IsSendable m
    → m.msg_type ≡ relay_msg_data
    → lookup m.dst_node r.clients ≡ some dst
    → (out : Bytes) × (forward_to_peer r m ≡ (dst.conn, out) ∷ [])
      × ((more : Bytes) → read_message (out ++ more) ≡ ok (m, more))
unfolding forward_to_peer
forward_to_peer_delivers r m dst i t l = (
  send_message relay_msg_data m.src_node m.dst_node m.payload,
  rw l refl,
  λ more.
      read_message-send_message relay_msg_data m.src_node m.dst_node m.payload more i.src_short
        i.dst_short i.payload_short
      ∙ ground (arith, t),
)

pub handle_message_forwards :
    (r : RelayServer) (client : RelayClient) (m : RelayMessage) (dst : RelayClient) (now : ℕ)
    → IsSendable m
    → m.msg_type ≡ relay_msg_data
    → lookup m.dst_node r.clients ≡ some dst
    → (out : Bytes) × ((handle_message r client m now).1 ≡ (dst.conn, out) ∷ [])
      × ((more : Bytes) → read_message (out ++ more) ≡ ok (m, more))
unfolding handle_message
handle_message_forwards r client m dst now i t l =
    let (dst', found, _, conn) =
      identity_inv (lookup m.dst_node (touch r client now).clients) dst.name dst.conn
        (touch-identity r client now m.dst_node ∙ ap identity l) in
    let (out, sent, read) = forward_to_peer_delivers (touch r client now) m dst' i t found in
    let is_data = (==_iff m.msg_type relay_msg_data).1 t in
    (out, rw (is_data, sent) (ap (λ (c : ℕ). (c, out) ∷ []) conn), read)

-- A data message that the server has read from a connection is written, once, to the connection that
-- is registered for its destination, and a reader of that connection gets the same message: type,
-- source, destination and payload.
pub handle_message_delivers :
    (r : RelayServer) (client : RelayClient) (s rest : Bytes) (m : RelayMessage) (dst : RelayClient)
    (now : ℕ)
    → AreBytes s
    → read_message s ≡ ok (m, rest)
    → m.msg_type ≡ relay_msg_data
    → lookup m.dst_node r.clients ≡ some dst
    → (out : Bytes) × ((handle_message r client m now).1 ≡ (dst.conn, out) ∷ [])
      × ((more : Bytes) → read_message (out ++ more) ≡ ok (m, more))
handle_message_delivers r client s rest m dst now h e t l =
    handle_message_forwards r client m dst now (read_message-IsSendable s m rest h e) t l

-- A message to a name that is not registered is dropped.
pub handle_message_unknown :
    (r : RelayServer) (client : RelayClient) (m : RelayMessage) (now : ℕ)
    → m.msg_type ≡ relay_msg_data
    → lookup m.dst_node r.clients ≡ none
    → handle_message r client m now ≡ (touch r client now, [])
unfolding handle_message forward_to_peer forward_to
handle_message_unknown r client m now t l =
    let gone =
      none_inv (lookup m.dst_node (touch r client now).clients)
        (touch-identity r client now m.dst_node ∙ ap identity l) in
    let is_data = (==_iff m.msg_type relay_msg_data).1 t in rw (is_data, gone) refl
  where
    none_inv : (o : Option RelayClient) → identity o ≡ none → o ≡ none
    none_inv none e = refl
    none_inv (some x) e = cc
