-- ===== src/Relay/Server/Reconnecting.antt =====
-- relay.go: a client that connects again before its old connection has ended.
use nexus_stun.Common.{ℕ, ◌≡◌, refl, inl, none, [], ◌∷◌, Bytes, ok}
use nexus_stun.Common.Dict.{lookup, lookup-delete_self}
use nexus_stun.Relay.{RelayMessage, relay_msg_register, read_message}
use nexus_stun.Relay.Server.{RelayClient, new_client, register, unregister}
use nexus_stun.Relay.Server.Sessions.{
  Session, World, connect, leave, Reach, here, next, Serves, initial,
}

-- A client that registers again under its name before its old connection has ended is taken out of the
-- registry when that one ends: a state is reached in which its new session runs and the map has no
-- entry for its name.
pub reconnect_unregistered :
    (old_conn new_conn now : ℕ) (s rest : Bytes) (m : RelayMessage)
    → read_message s ≡ ok (m, rest)
    → m.msg_type ≡ relay_msg_register
    → (v : World) × Reach initial v
      × Serves m.src_node new_conn v.sessions
      × (lookup m.src_node v.server.clients ≡ none)
unfolding unregister
reconnect_unregistered old_conn new_conn now s rest m e t = (
  record {
    server = unregister (register (register initial.server old) new) old;
    sessions = session_of new ∷ [];
  },
  next (next (next here (connect old_conn now s rest m e t)) (connect new_conn now s rest m e t))
      (leave (session_of new ∷ []) [] (session_of old) (unfold initial in refl)),
  inl (refl, refl),
  lookup-delete_self m.src_node (register (register initial.server old) new).clients,
)
  where
    old : RelayClient
    old = new_client old_conn m now

    new : RelayClient
    new = new_client new_conn m now

    session_of : RelayClient → Session
    session_of c = record { client = c; pending = rest }
