-- ===== src/Relay/Client.antt =====
-- relay.go: RelayClientConn, the client's side of a connection. A connection is a number; whether the
-- dial and the write succeed is the network's answer and an argument of the call.
pub mod EndToEnd
use nexus_stun.Common.{
  ℕ, Bool, true, false, Option, none, some, List, [], ◌∷◌, ◌++◌, Bytes, Outcome, ok, err, panic,
  out_of_fuel, ◌==◌, if◌then◌else◌,
}
use nexus_stun.Relay.{relay_msg_data, relay_msg_register, send_message}

pub record RelayClientConn : Type 0 where
  pub node_name : Bytes
  pub conn : Option ℕ

pub data ClientError : Type 0 where
  dial_failed write_failed : ClientError

-- What is done to a connection.
pub data Action : Type 0 where
  write : ℕ → Bytes → Action
  close_conn : ℕ → Action

unfoldable pub new_relay_client_conn : Bytes → RelayClientConn
new_relay_client_conn node_name = record { node_name = node_name; conn = none }

-- The write of a frame to a connection. There is none before Connect: the nil connection panics.
unfoldable pub send_msg : Option ℕ → Bool → Bytes → Outcome ClientError (Unit {0}) × List Action
send_msg none written frame = (panic, [])
send_msg (some c) true frame = (ok tt, write c frame ∷ [])
send_msg (some c) false frame = (err write_failed, [])

-- what Connect does behind the write
unfoldable pub registered :
    ℕ → Outcome ClientError (Unit {0}) × List Action → Outcome ClientError (Unit {0}) × List Action
registered c (ok u, actions) = (ok u, actions)
registered c (err e, actions) = (err e, actions ++ close_conn c ∷ [])
registered c (panic, actions) = (panic, actions)
registered c (out_of_fuel, actions) = (out_of_fuel, actions)

-- The connection stays in the client also where its registration fails and it is closed.
unfoldable pub connect :
    RelayClientConn
    → Option ℕ
    → Bool
    → Outcome ClientError (Unit {0}) × RelayClientConn × List Action
unfolding send_msg registered
connect rc none written = (err dial_failed, rc, [])
connect rc (some c) written =
    let (result, actions) =
      registered c
        (send_msg (some c) written (send_message relay_msg_register rc.node_name [] [])) in
    (result, record rc { conn = some c }, actions)

unfoldable pub send :
    RelayClientConn → Bytes → Bytes → Bool → Outcome ClientError (Unit {0}) × List Action
unfolding send_msg
send rc dst_node payload written =
    send_msg rc.conn written (send_message relay_msg_data rc.node_name dst_node payload)

unfoldable pub close_of : Option ℕ → List Action
close_of none = []
close_of (some c) = close_conn c ∷ []

unfoldable pub close : RelayClientConn → List Action
unfolding close_of
close rc = close_of rc.conn

-- The bytes that reach a connection.
unfoldable pub bytes_to : ℕ → List Action → Bytes
bytes_to c [] = []
bytes_to c (write d bytes ∷ actions) =
    if d == c then bytes ++ bytes_to c actions else bytes_to c actions
bytes_to c (close_conn d ∷ actions) = bytes_to c actions
