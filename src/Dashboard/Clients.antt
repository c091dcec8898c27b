-- ===== src/Dashboard/Clients.antt =====
-- dashboard.go: what broadcast does to each client.
use nexus_stun.Common.{
  ℕ, ◌≡◌, refl, sym, ◌∙◌, inl, inr, Bool, true, false, ◌&&◌, ◌||◌, not, Option, List, [], ◌∷◌, ◌==◌,
  ==_iff, if◌then◌else◌, Bool-cases, arith,
}
use nexus_stun.Dashboard.{
  MeshState, Dashboard, is_client, add_client, delete_client, Action, write_json, close_conn,
  broadcast_loop, broadcast, update_mesh_state,
}

-- each connection once
abbrev pub IsDistinct : List ℕ → Type 0
IsDistinct [] = Unit
IsDistinct (b ∷ bs) = (is_client b bs ≡ false) × IsDistinct bs

-- the states that the actions write to a connection, in order
abbrev pub written_to : ℕ → List Action → List (Option MeshState)
written_to c [] = []
written_to c (write_json b state ∷ actions) =
    let rest = written_to c actions in if b == c then state ∷ rest else rest
written_to c (close_conn b ∷ actions) = written_to c actions

abbrev pub is_closed : ℕ → List Action → Bool
is_closed c [] = false
is_closed c (write_json b state ∷ actions) = is_closed c actions
is_closed c (close_conn b ∷ actions) = b == c || is_closed c actions

-- What a broadcast of the state comes to for a connection c that was a client or not.
abbrev pub IsTold : (ℕ → Bool) → Option MeshState → ℕ → Bool → List ℕ → List Action → Type 0
IsTold works state c was kept actions =
    (is_client c kept ≡ was && works c)
    × (written_to c actions ≡ (if was then state ∷ [] else []))
    × (is_closed c actions ≡ was && not (works c))

broadcast_loop-IsTold :
    (works : ℕ → Bool) (state : Option MeshState) (cs : List ℕ) (c : ℕ)
    → IsDistinct cs
    → (let (kept, actions) = broadcast_loop works state cs in
        IsTold works state c (is_client c cs) kept actions)
unfolding broadcast_loop
broadcast_loop-IsTold works state [] c h = (refl, refl, refl)
broadcast_loop-IsTold works state (b ∷ cs) c (fresh, h) =
    let (kept, told, closed) = broadcast_loop-IsTold works state cs c h in
    elim (Bool-cases (b == c)) [
      | inl y ↦
          let same = (==_iff b c).0 y in
          elim (Bool-cases (works c)) [
            | inl ok_c ↦
                let gone = rw same at fresh in
                let ok_b : works b ≡ true = rw same ok_c in
                rw (ok_b, ok_c) (ground arith, ground arith, ground arith)
            | inr no_c ↦
                let gone = rw same at fresh in
                let no_b : works b ≡ false = rw same no_c in
                rw (no_b, no_c) (ground arith, ground arith, ground arith)
          ]
      | inr n ↦ elim (Bool-cases (works b)) [
        | inl ok_b ↦ rw (ok_b, n) (kept, told, closed)
        | inr no_b ↦ rw (no_b, n) (kept, told, closed)
      ]
    ]

pub broadcast-IsTold :
    (works : ℕ → Bool) (d : Dashboard) (state : Option MeshState) (c : ℕ)
    → IsDistinct d.clients
    → (let (d', actions) = broadcast works d state in
        IsTold works state c (is_client c d.clients) d'.clients actions)
unfolding broadcast
broadcast-IsTold works d state c h = broadcast_loop-IsTold works state d.clients c h

-- After an update the mesh is the new state, and of the clients, each of them once, those stay to whom the
-- write works; each client is written the new state once, and nobody else; those to whom the write fails are
-- closed, and nobody else.
pub update_mesh_state-IsTold :
    (works : ℕ → Bool) (d : Dashboard) (state : Option MeshState) (c : ℕ)
    → IsDistinct d.clients
    → (let (d', actions) = update_mesh_state works d state in
        (d'.mesh ≡ state) × IsTold works state c (is_client c d.clients) d'.clients actions)
unfolding update_mesh_state broadcast
update_mesh_state-IsTold works d state c h = (refl, broadcast_loop-IsTold works state d.clients c h)

pub is_client-add :
    (b c : ℕ) (cs : List ℕ) → is_client b (add_client c cs) ≡ (c == b || is_client b cs)
unfolding add_client
is_client-add b c cs = ground arith

pub is_client-delete :
    (b c : ℕ) (cs : List ℕ) → is_client b (delete_client c cs) ≡ (not (c == b) && is_client b cs)
unfolding delete_client
is_client-delete b c [] = ground arith
is_client-delete b c (a ∷ cs) = ground (arith, is_client-delete b c cs)

pub add-IsDistinct : (c : ℕ) (cs : List ℕ) → IsDistinct cs → IsDistinct (add_client c cs)
unfolding add_client
add-IsDistinct c cs h = elim (Bool-cases (is_client c cs)) [ inl y ↦ rw y h | inr n ↦ rw n (n, h) ]

pub delete-IsDistinct : (c : ℕ) (cs : List ℕ) → IsDistinct cs → IsDistinct (delete_client c cs)
unfolding delete_client
delete-IsDistinct c [] h = tt
delete-IsDistinct c (b ∷ cs) (fresh, h) = elim (Bool-cases (b == c)) [
  | inl y ↦ rw y (delete-IsDistinct c cs h)
  | inr n ↦ rw n (rw (is_client-delete b c cs, fresh) (ground arith), delete-IsDistinct c cs h)
]

broadcast_loop-IsDistinct :
    (works : ℕ → Bool) (state : Option MeshState) (cs : List ℕ)
    → IsDistinct cs
    → IsDistinct (broadcast_loop works state cs).0
unfolding broadcast_loop
broadcast_loop-IsDistinct works state [] h = tt
broadcast_loop-IsDistinct works state (b ∷ cs) (fresh, h) =
    let (kept, _, _) = broadcast_loop-IsTold works state cs b h in
    let rest = broadcast_loop-IsDistinct works state cs h in
    elim (Bool-cases (works b)) [ inl y ↦ rw y (kept ∙ rw fresh refl, rest) | inr n ↦ rw n rest ]

pub broadcast-IsDistinct :
    (works : ℕ → Bool) (d : Dashboard) (state : Option MeshState)
    → IsDistinct d.clients
    → IsDistinct (broadcast works d state).0.clients
unfolding broadcast
broadcast-IsDistinct works d state h = broadcast_loop-IsDistinct works state d.clients h

and_left : (a b : Bool) → (a && b) ≡ true → a ≡ true
and_left a b h = ground arith

-- what broadcast keeps is a part of the clients
pub is_client-broadcast :
    (works : ℕ → Bool) (d : Dashboard) (state : Option MeshState) (c : ℕ)
    → IsDistinct d.clients
    → is_client c (broadcast works d state).0.clients ≡ true
    → is_client c d.clients ≡ true
is_client-broadcast works d state c h e =
    let (kept, _, _) = broadcast-IsTold works d state c h in
    and_left (is_client c d.clients) (works c) (sym kept ∙ e)
