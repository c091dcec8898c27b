-- ===== src/Dashboard/Sessions.antt =====
-- dashboard.go: the goroutines of handleWebSocket and of UpdateMeshState, as interleaved steps over the
-- dashboard. A step is what happens between two lock operations.
use nexus_stun.Common.{
  ℕ, ◌≡◌, ◌≢◌, refl, inl, inr, Bool, true, Option, none, some, List, [], ◌∷◌, ◌++◌, ◌==◌,
  if◌then◌else◌, Bool-cases,
}
use nexus_stun.Config.{Config}
use nexus_stun.Dashboard.{
  MeshState, Dashboard, new_dashboard, is_client, add_client, delete_client, Action, write_json,
  close_conn, broadcast,
}
use nexus_stun.Dashboard.Clients.{
  IsDistinct, written_to, is_client-add, is_client-delete, is_client-broadcast, add-IsDistinct,
  delete-IsDistinct, broadcast-IsDistinct,
}

-- Where the goroutine of a connection stands: it has none (yet, or any more), has entered the connection
-- into the map, has read the mesh state, or waits for messages.
pub data Phase : Type 0 where
  absent joined listening : Phase
  loaded : Option MeshState → Phase

-- With the states of the running calls of UpdateMeshState that are stored and not yet broadcast.
pub record World : Type 0 where
  pub dashboard : Dashboard
  pub phase : ℕ → Phase
  pub updates : List (Option MeshState)

abbrev pub set_phase : ℕ → Phase → (ℕ → Phase) → ℕ → Phase
set_phase c p phase b = if c == b then p else phase b

-- The first write of a connection: only if there is a state.
abbrev pub first_write : ℕ → Option MeshState → List Action
first_write c none = []
first_write c (some state) = write_json c (some state) ∷ []

pub data Step (w : World) : World → List Action → Type 0 where
  join :
      (c : ℕ)
      → w.phase c ≡ absent
      → Step w
          (record w {
            dashboard = record w.dashboard { clients = add_client c w.dashboard.clients };
            phase = set_phase c joined w.phase;
          })
          []
  load :
      (c : ℕ)
      → w.phase c ≡ joined
      → Step w (record w { phase = set_phase c (loaded w.dashboard.mesh) w.phase }) []
  greet :
      (c : ℕ) (state : Option MeshState)
      → w.phase c ≡ loaded state
      → Step w (record w { phase = set_phase c listening w.phase }) (first_write c state)
  -- ReadMessage fails, and the deferred functions run.
  leave :
      (c : ℕ)
      → w.phase c ≡ listening
      → Step w
          (record w {
            dashboard = record w.dashboard { clients = delete_client c w.dashboard.clients };
            phase = set_phase c absent w.phase;
          })
          (close_conn c ∷ [])
  -- UpdateMeshState: first the assignment, then the broadcast
  store :
      (state : Option MeshState)
      → Step w
          (record w {
            dashboard = record w.dashboard { mesh = state };
            updates = state ∷ w.updates;
          })
          []
  announce :
      (works : ℕ → Bool) (front back : List (Option MeshState)) (state : Option MeshState)
      → w.updates ≡ front ++ (state ∷ back)
      → Step w
          (record w { dashboard = (broadcast works w.dashboard state).0; updates = front ++ back })
          (broadcast works w.dashboard state).1

-- The worlds that are reached, with what was done to the connections on the way.
pub data Reach (w : World) : World → List Action → Type 0 where
  here : Reach w w []
  next :
      {u v : World} {before actions : List Action}
      → Reach w u before
      → Step u v actions
      → Reach w v (before ++ actions)

unfoldable pub initial : Config → World
initial cfg = record { dashboard = new_dashboard cfg; phase = λ c. absent; updates = [] }

-- Every client is there once, and its goroutine runs.
abbrev IsServed : World → Type 0
IsServed w =
    IsDistinct w.dashboard.clients
    × ((c : ℕ) → is_client c w.dashboard.clients ≡ true → w.phase c ≢ absent)

set_phase-IsServed :
    (phase : ℕ → Phase) (c : ℕ) (p : Phase) (cs : List ℕ)
    → p ≢ absent
    → ((b : ℕ) → is_client b cs ≡ true → phase b ≢ absent)
    → (b : ℕ) → is_client b cs ≡ true
    → set_phase c p phase b ≢ absent
set_phase-IsServed phase c p cs ne h b e = elim (Bool-cases (c == b)) [
  | inl y ↦ rw y ne
  | inr n ↦ rw n (h b e)
]

Step-IsServed : {w v : World} {actions : List Action} → Step w v actions → IsServed w → IsServed v
Step-IsServed {w} (join c e) (distinct, served) = (
  add-IsDistinct c w.dashboard.clients distinct,
  λ b f. elim (Bool-cases (c == b)) [
    | inl y ↦ rw y (λ q. absurd (cc q))
    | inr n ↦ rw n (served b (rw (is_client-add b c w.dashboard.clients, n) at f))
  ],
)
Step-IsServed {w} (load c e) (distinct, served) = (
  distinct,
  set_phase-IsServed w.phase c (loaded w.dashboard.mesh) w.dashboard.clients (λ q. absurd (cc q))
      served,
)
Step-IsServed {w} (greet c state e) (distinct, served) = (
  distinct,
  set_phase-IsServed w.phase c listening w.dashboard.clients (λ q. absurd (cc q)) served,
)
Step-IsServed {w} (leave c e) (distinct, served) = (
  delete-IsDistinct c w.dashboard.clients distinct,
  λ b f. elim (Bool-cases (c == b)) [
    | inl y ↦ absurd (cc (rw (is_client-delete b c w.dashboard.clients, y) at f))
    | inr n ↦ rw n (served b (rw (is_client-delete b c w.dashboard.clients, n) at f))
  ],
)
Step-IsServed (store state) h = h
Step-IsServed {w} (announce works front back state e) (distinct, served) = (
  broadcast-IsDistinct works w.dashboard state distinct,
  λ c f. served c (is_client-broadcast works w.dashboard state c distinct f),
)

Reach-IsServed_from :
    {w v : World} {actions : List Action} → Reach w v actions → IsServed w → IsServed v
Reach-IsServed_from here h = h
Reach-IsServed_from (next r s) h = Step-IsServed s (Reach-IsServed_from r h)

initial-IsServed : (cfg : Config) → IsServed (initial cfg)
unfolding initial new_dashboard
initial-IsServed cfg = (tt, λ c f. absurd (cc f))

-- In every state that the dashboard reaches, whatever the connections and the updates do and however their
-- steps interleave, each client is in the map once, and a goroutine runs that will take it out.
pub Reach-IsServed :
    {v : World} {actions : List Action} (cfg : Config) (c : ℕ)
    → Reach (initial cfg) v actions
    → IsDistinct v.dashboard.clients × (is_client c v.dashboard.clients ≡ true → v.phase c ≢ absent)
Reach-IsServed cfg c r =
    let (distinct, served) = Reach-IsServed_from r (initial-IsServed cfg) in (distinct, served c)

-- A connection that has read the old state when an update is stored and broadcast writes the old state last:
-- for any two states a world is reached in which the dashboard has the new one, no update is running, and the
-- waiting client was written the new one and then the old one.
pub stale_greeting :
    (cfg : Config) (old new : MeshState)
    → (v : World) × (actions : List Action) × Reach (initial cfg) v actions
      × (v.dashboard.mesh ≡ some new)
      × (v.updates ≡ [])
      × (v.phase 0 ≡ listening)
      × (is_client 0 v.dashboard.clients ≡ true)
      × (written_to 0 actions ≡ some new ∷ some old ∷ [])
unfolding initial new_dashboard add_client broadcast
stale_greeting cfg old new =
    let works : ℕ → Bool = λ c. true in
    let stored = next (next here (store (some old))) (announce works [] [] (some old) refl) in
    let loaded_old = next (next stored (join 0 refl)) (load 0 refl) in
    let updated =
      next (next loaded_old (store (some new))) (announce works [] [] (some new) refl) in
    (_, _, next updated (greet 0 (some old) refl), refl, refl, refl, refl, refl)
