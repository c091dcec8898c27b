-- ===== src/Relay/Server/Sessions.antt =====
-- relay.go: the goroutines of handleClient as interleaved steps over the shared registry.
use nexus_stun.Common.{
  ℕ, ◌≡◌, ◌≢◌, ◌⊎◌, refl, sym, ap, subst, ◌∙◌, inl, inr, some, List, [], ◌∷◌, ◌++◌, Bytes, ok, err,
  arith, Bool-cases, equal, equal_iff,
}
use nexus_stun.Common.Dict.{lookup, lookup-insert, lookup-delete}
use nexus_stun.Relay.{RelayMessage, relay_msg_register, short_read, read_message}
use nexus_stun.Relay.Server.{
  RelayClient, RelayServer, Sent, new_client, register, unregister, touch, handle_message,
  new_relay_server,
}
use nexus_stun.Relay.Server.Delivery.{identity, touch-identity}

-- A goroutine behind its registration: the client it made, and the bytes that have arrived and are
-- not read yet.
pub record Session : Type 0 where
  pub client : RelayClient
  pub pending : Bytes

pub record World : Type 0 where
  pub server : RelayServer
  pub sessions : List Session

-- One step of some connection. The connection's number, the bytes and the times are the
-- environment's choice; the order of the steps is the schedule's.
pub data Step (w : World) : World → List Sent → Type 0 where
  -- The first frame of a new connection is a REGISTER.
  connect :
      (conn now : ℕ) (s rest : Bytes) (m : RelayMessage)
      → read_message s ≡ ok (m, rest)
      → m.msg_type ≡ relay_msg_register
      → Step w
          (record {
            server = register w.server (new_client conn m now);
            sessions = record { client = new_client conn m now; pending = rest } ∷ w.sessions;
          })
          []
  -- Bytes arrive.
  arrive :
      (front back : List Session) (x : Session) (more : Bytes)
      → w.sessions ≡ front ++ (x ∷ back)
      → Step w
          (record w { sessions = front ++ (record x { pending = x.pending ++ more } ∷ back) })
          []
  -- A whole frame is read and handled.
  serve :
      (front back : List Session) (x : Session) (m : RelayMessage) (rest : Bytes) (now : ℕ)
      → w.sessions ≡ front ++ (x ∷ back)
      → read_message x.pending ≡ ok (m, rest)
      → Step w
          (record {
            server = (handle_message w.server x.client m now).0;
            sessions = front ++ (record x { pending = rest } ∷ back);
          })
          (handle_message w.server x.client m now).1
  -- The read deadline passes in the middle of a frame: what was read of it is lost, and the loop
  -- goes on.
  time_out :
      (front back : List Session) (x : Session)
      → w.sessions ≡ front ++ (x ∷ back)
      → read_message x.pending ≡ err short_read
      → Step w (record w { sessions = front ++ (record x { pending = [] } ∷ back) }) []
  -- The connection ends or holds a bad frame, or the context is done: the deferred function runs.
  leave :
      (front back : List Session) (x : Session)
      → w.sessions ≡ front ++ (x ∷ back)
      → Step w (record { server = unregister w.server x.client; sessions = front ++ back }) []

pub data Reach (w : World) : World → Type 0 where
  here : Reach w w
  next : {u v : World} {sent : List Sent} → Reach w u → Step u v sent → Reach w v

-- Some running session holds the connection under the name.
abbrev pub Serves : Bytes → ℕ → List Session → Type 0
Serves k c [] = ⊥
Serves k c (x ∷ xs) = ((x.client.name ≡ k) × (x.client.conn ≡ c)) ⊎ Serves k c xs

-- A session is taken out: what was served is served still, unless it was by that session.
Serves-without :
    (k : Bytes) (c : ℕ) (front back : List Session) (x : Session)
    → Serves k c (front ++ (x ∷ back))
    → Serves k c (front ++ back) ⊎ (x.client.name ≡ k)
Serves-without k c [] back x (inl (n, _)) = inr n
Serves-without k c [] back x (inr h) = inl h
Serves-without k c (y ∷ front) back x (inl h) = inl (inl h)
Serves-without k c (y ∷ front) back x (inr h) = elim (Serves-without k c front back x h) [
  | inl s ↦ inl (inr s)
  | inr n ↦ inr n
]

-- A session is put in the place of another with the same client.
Serves-replaced :
    (k : Bytes) (c : ℕ) (front back : List Session) (x y : Session)
    → y.client ≡ x.client
    → Serves k c (front ++ (x ∷ back))
    → Serves k c (front ++ (y ∷ back))
Serves-replaced k c [] back x y e (inl (n, m)) =
    inl (ap (λ (r : RelayClient). r.name) e ∙ n, ap (λ (r : RelayClient). r.conn) e ∙ m)
Serves-replaced k c [] back x y e (inr h) = inr h
Serves-replaced k c (z ∷ front) back x y e (inl h) = inl h
Serves-replaced k c (z ∷ front) back x y e (inr h) = inr (Serves-replaced k c front back x y e h)

-- Every entry of the map stands under its client's name and for a connection that a running session
-- serves under that name.
abbrev pub Inv : World → Type 0
Inv w =
    (k n : Bytes) (c : ℕ)
    → identity (lookup k w.server.clients) ≡ some (n, c)
    → (n ≡ k) × Serves k c w.sessions

pub handle_message-touch :
    (r : RelayServer) (client : RelayClient) (m : RelayMessage) (now : ℕ)
    → (handle_message r client m now).0 ≡ touch r client now
unfolding handle_message
handle_message-touch r client m now = ground arith

-- The registry after a connection's registration and after its end.
register-identity :
    (r : RelayServer) (client : RelayClient) (k n : Bytes) (c : ℕ)
    → identity (lookup k (register r client).clients) ≡ some (n, c)
    → ((n ≡ k) × (client.name ≡ k) × (client.conn ≡ c))
      ⊎ (identity (lookup k r.clients) ≡ some (n, c))
unfolding register
register-identity r client k n c h = elim (Bool-cases (equal client.name k)) [
  | inl eq ↦
      let found = rw (lookup-insert client.name k client r.clients, eq) at h in
      let name = (equal_iff client.name k).0 eq in
      inl (ground (arith, found, name), name, ground (arith, found))
  | inr ne ↦ inr (rw (lookup-insert client.name k client r.clients, ne) at h)
]

unregister-identity :
    (r : RelayServer) (client : RelayClient) (k n : Bytes) (c : ℕ)
    → identity (lookup k (unregister r client).clients) ≡ some (n, c)
    → (identity (lookup k r.clients) ≡ some (n, c)) × (client.name ≢ k)
unfolding unregister
unregister-identity r client k n c h = elim (Bool-cases (equal client.name k)) [
  | inl eq ↦ absurd (cc (rw (lookup-delete client.name k r.clients, eq) at h))
  | inr ne ↦ (
    rw (lookup-delete client.name k r.clients, ne) at h,
    λ e. cc (ne, (equal_iff client.name k).1 e),
  )
]

-- A session is replaced by one with the same client.
replaced-Inv :
    (w : World) (front back : List Session) (x y : Session) (r : RelayServer)
    → y.client ≡ x.client
    → w.sessions ≡ front ++ (x ∷ back)
    → ((k : Bytes) → identity (lookup k r.clients) ≡ identity (lookup k w.server.clients))
    → Inv w
    → Inv (record { server = r; sessions = front ++ (y ∷ back) })
replaced-Inv w front back x y r same e keep v k n c h =
    let (name, s) = v k n c (sym (keep k) ∙ h) in
    (name, Serves-replaced k c front back x y same (subst (Serves k c) e s))

-- Every step of every connection, in any order, keeps the registry free of dangling entries: each one
-- stands under its client's name and points to a connection that a running session serves.
pub Step-Inv : {w v : World} {sent : List Sent} → Step w v sent → Inv w → Inv v
Step-Inv {w} (connect conn now s rest m e t) v k n c h =
    elim (register-identity w.server (new_client conn m now) k n c h) [
      | inl (name, named, at_conn) ↦ (name, inl (named, at_conn))
      | inr old ↦ let (name, serves) = v k n c old in (name, inr serves)
    ]
Step-Inv {w} (arrive front back x more e) v k n c h =
    replaced-Inv w front back x (record x { pending = x.pending ++ more }) w.server refl e
      (λ k. refl) v k n c h
Step-Inv {w} (serve front back x m rest now e p) v k n c h =
    replaced-Inv w front back x (record x { pending = rest })
      (handle_message w.server x.client m now).0 refl e
      (λ k.
        ap (λ (r : RelayServer). identity (lookup k r.clients))
          (handle_message-touch w.server x.client m now)
        ∙ touch-identity w.server x.client now k)
      v k n c h
Step-Inv {w} (time_out front back x e p) v k n c h =
    replaced-Inv w front back x (record x { pending = [] }) w.server refl e (λ k. refl) v k n c h
Step-Inv {w} (leave front back x e) v k n c h =
    let (old, ne) = unregister-identity w.server x.client k n c h in
    let (name, serves) = v k n c old in
    elim (Serves-without k c front back x (subst (Serves k c) e serves)) [
      | inl s ↦ (name, s)
      | inr same ↦ absurd (ne same)
    ]

unfoldable pub initial : World
initial = record { server = new_relay_server; sessions = [] }

initial-Inv : Inv initial
unfolding initial new_relay_server lookup
initial-Inv k n c h = absurd (cc h)

Reach-Inv_from : {w v : World} → Inv w → Reach w v → Inv v
Reach-Inv_from h here = h
Reach-Inv_from h (next r s) = Step-Inv s (Reach-Inv_from h r)

-- In every state that the server reaches, whatever the connections do and however their steps
-- interleave, a registered client stands under its own name and its connection is served by a running
-- session of that name.
pub Reach-Inv :
    {v : World} (k n : Bytes) (c : ℕ)
    → Reach initial v
    → identity (lookup k v.server.clients) ≡ some (n, c)
    → (n ≡ k) × Serves k c v.sessions
Reach-Inv k n c r h = Reach-Inv_from initial-Inv r k n c h
