-- ===== src/Relay/Server/Registry.antt =====
-- relay.go: the registry as its clients see it, a map from names to connections, and what a run of the
-- server makes of it.
use nexus_stun.Common.{
  ℕ, ◌≡◌, refl, sym, ap, ◌∙◌, inl, inr, Option, none, some, List, [], ◌∷◌, ◌++◌, if◌then◌else◌,
  Bytes, equal, Bool-cases, fun_ext,
}
use nexus_stun.Common.Dict.{lookup, lookup-insert, lookup-delete}
use nexus_stun.Relay.Server.{
  RelayClient, RelayServer, Sent, new_client, register, unregister, new_relay_server,
}
use nexus_stun.Relay.Server.Delivery.{identity, touch-identity}
use nexus_stun.Relay.Server.Sessions.{
  World, Step, connect, arrive, serve, time_out, leave, Reach, here, next, initial,
  handle_message-touch,
}

-- The names that are registered, with their connections.
abbrev pub Registry : Type 0
Registry = Bytes → Option ℕ

abbrev conn_of : Option (Bytes × ℕ) → Option ℕ
conn_of none = none
conn_of (some (name, c)) = some c

abbrev pub observe : World → Registry
observe w k = conn_of (identity (lookup k w.server.clients))

abbrev pub change : Registry → Bytes → Option ℕ → Registry
change f name c k = if equal name k then c else f k

-- A name is claimed by a connection, or given up.
pub data Claim : Type 0 where
  claim : Bytes → ℕ → Claim
  release : Bytes → Claim

-- The last claim on a name holds, until any connection of that name ends.
pub replay : List Claim → Registry → Registry
replay [] f = f
replay (claim name c ∷ claims) f = change (replay claims f) name (some c)
replay (release name ∷ claims) f = change (replay claims f) name none

-- What a step claims: a new connection its name, an ending one gives its name up.
unfoldable pub claims_of : {w v : World} {sent : List Sent} → Step w v sent → List Claim
claims_of (connect conn now s rest m e t) = claim m.src_node conn ∷ []
claims_of (arrive front back x more e) = []
claims_of (serve front back x m rest now e p) = []
claims_of (time_out front back x e p) = []
claims_of (leave front back x e) = release x.client.name ∷ []

-- The claims of a run, the last first.
unfoldable pub claims : {w v : World} → Reach w v → List Claim
unfolding claims_of
claims here = []
claims (next r s) = claims_of s ++ claims r

register-observe :
    (r : RelayServer) (client : RelayClient) (k : Bytes)
    → conn_of (identity (lookup k (register r client).clients))
      ≡ change (λ j. conn_of (identity (lookup j r.clients))) client.name (some client.conn) k
unfolding register
register-observe r client k =
    rw (lookup-insert client.name k client r.clients)
      (elim (Bool-cases (equal client.name k)) [ inl e ↦ rw e refl | inr e ↦ rw e refl ])

unregister-observe :
    (r : RelayServer) (client : RelayClient) (k : Bytes)
    → conn_of (identity (lookup k (unregister r client).clients))
      ≡ change (λ j. conn_of (identity (lookup j r.clients))) client.name none k
unfolding unregister
unregister-observe r client k =
    rw (lookup-delete client.name k r.clients)
      (elim (Bool-cases (equal client.name k)) [ inl e ↦ rw e refl | inr e ↦ rw e refl ])

replay-append : (a b : List Claim) (f : Registry) → replay (a ++ b) f ≡ replay a (replay b f)
unfolding replay
replay-append [] b f = refl
replay-append (claim name c ∷ a) b f =
    ap (λ (g : Registry). change g name (some c)) (replay-append a b f)
replay-append (release name ∷ a) b f =
    ap (λ (g : Registry). change g name none) (replay-append a b f)

step_refines :
    {w v : World} {sent : List Sent} (s : Step w v sent)
    → observe v ≡ replay (claims_of s) (observe w)
unfolding claims_of replay
step_refines {w} (connect conn now s rest m e t) =
    fun_ext (register-observe w.server (new_client conn m now))
step_refines (arrive front back x more e) = refl
step_refines {w} (serve front back x m rest now e p) = fun_ext λ k. ap conn_of (
    ap (λ (r : RelayServer). identity (lookup k r.clients))
      (handle_message-touch w.server x.client m now)
    ∙ touch-identity w.server x.client now k)
step_refines (time_out front back x e p) = refl
step_refines {w} (leave front back x e) = fun_ext (unregister-observe w.server x.client)

-- Whatever the connections do and however their steps interleave, the server's map is, to its readers,
-- the replay of the claims of the run, from no name registered: each first REGISTER of a connection
-- claims its name, each end of a connection gives its name up, and no other step counts.
pub replay_refines : {v : World} (r : Reach initial v) → observe v ≡ replay (claims r) (λ _. none)
unfolding claims replay initial new_relay_server lookup
replay_refines here = refl
replay_refines (next r s) =
    step_refines s
    ∙ ap (replay (claims_of s)) (replay_refines r)
    ∙ sym (replay-append (claims_of s) (claims r) (λ _. none))
