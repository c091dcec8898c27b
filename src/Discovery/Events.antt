-- ===== src/Discovery/Events.antt =====
-- discovery.go: the handlers in any order, as the broker and the health ticker call them.
use nexus_stun.Common.{
  ℕ, ◌≡◌, ◌≢◌, refl, sym, ap, ◌∙◌, inl, inr, false, Option, none, some, List, [], ◌∷◌, Bytes, codes,
  equal, equal_iff, Bool-cases, Option-cases, arith,
}
use nexus_stun.Common.Dict.{Dict, lookup}
use nexus_stun.Config.{MqttConf}
use nexus_stun.Discovery.{
  DiscoveryMessage, PeerInfo, Discovery, new_discovery, seen, handle_heartbeat, offline_mark,
  mark_offline, handle_status, handle_presence, is_stale, check_peer, check_peer_health, get_peer,
}
use nexus_stun.Discovery.Peers.{
  map_entry, get_peer-handle_heartbeat, get_peer-check_peer_health, mark_offline_lem,
}

-- A call of a handler, with the time at which it is handled (time.Now(), under the lock).
pub data Event : Type 0 where
  heartbeat : Option DiscoveryMessage → ℕ → Event
  presence : Option (Dict Bytes) → Event
  health_check : ℕ → Event

unfoldable pub on_event : Discovery → Event → Discovery
unfolding handle_heartbeat handle_presence check_peer_health
on_event d (heartbeat hb now) = (handle_heartbeat d hb now).0
on_event d (presence p) = handle_presence d p
on_event d (health_check now) = check_peer_health d now

unfoldable pub on_events : Discovery → List Event → Discovery
on_events d [] = d
on_events d (e ∷ es) = on_events (on_event d e) es

-- An entry holds the last message of the node it is filed under, which is not this node.
unfoldable pub IsFiled : Discovery → Bytes → PeerInfo → Type 0
IsFiled d k p = (p.message.node_name ≡ k) × (equal k d.node_name ≡ false)

unfoldable pub IsWellFiled : Discovery → Type 0
IsWellFiled d = (k : Bytes) (p : PeerInfo) → get_peer d k ≡ some p → IsFiled d k p

keep_cases :
    (f : PeerInfo → PeerInfo) (o : Option PeerInfo) (p : PeerInfo)
    → map_entry f o ≡ some p
    → (q : PeerInfo) × (o ≡ some q) × (f q ≡ p)
keep_cases f none p h = absurd (cc h)
keep_cases f (some q) p h = (q, refl, cc h)

pub node_name-heartbeat :
    (d : Discovery) (hb : Option DiscoveryMessage) (now : ℕ)
    → (handle_heartbeat d hb now).0.node_name ≡ d.node_name
unfolding handle_heartbeat
node_name-heartbeat d none now = refl
node_name-heartbeat d (some hb) now = elim (Bool-cases (equal hb.node_name d.node_name)) [
  | inl own ↦ rw own refl
  | inr other ↦ rw other refl
]

heartbeat-IsFiled :
    (d : Discovery) (hb : DiscoveryMessage) (now : ℕ) (k : Bytes) (p : PeerInfo)
    → IsWellFiled d
    → get_peer (handle_heartbeat d (some hb) now).0 k ≡ some p
    → IsFiled d k p
unfolding IsWellFiled IsFiled
heartbeat-IsFiled d hb now k p v h = elim (Bool-cases (equal hb.node_name d.node_name)) [
  | inl own ↦ v k p (rw (get_peer-handle_heartbeat d hb now k, own) at h)
  | inr other ↦ elim (Bool-cases (equal hb.node_name k)) [
    | inl same ↦
        let e = (equal_iff hb.node_name k).0 same in
        let entered : some (seen hb now) ≡ some p =
          rw (get_peer-handle_heartbeat d hb now k, other, same) at h in
        let stored : seen hb now ≡ p = cc entered in
        (ap (λ (q : PeerInfo). q.message.node_name) (sym stored) ∙ e, rw (sym e) other)
    | inr ne ↦ v k p (rw (get_peer-handle_heartbeat d hb now k, other, ne) at h)
  ]
]

marked-IsFiled :
    (d : Discovery) (name k : Bytes) (p : PeerInfo)
    → IsWellFiled d
    → get_peer (mark_offline (lookup name d.peers) d name) k ≡ some p
    → IsFiled d k p
unfolding IsWellFiled IsFiled
marked-IsFiled d name k p v h = elim (Bool-cases (equal name k)) [
  | inl same ↦
      let marked = rw (mark_offline_lem (lookup name d.peers) d name k refl, same) at h in
      let (q, found, changed) =
        keep_cases (λ q. record q { missed_heartbeats = offline_mark }) (get_peer d k) p marked in
      let (name_of, other) = v k q found in
      (ap (λ (r : PeerInfo). r.message.node_name) (sym changed) ∙ name_of, other)
  | inr ne ↦ v k p (rw (mark_offline_lem (lookup name d.peers) d name k refl, ne) at h)
]

check_peer-message :
    (d : Discovery) (now : ℕ) (p : PeerInfo) → (check_peer d now p).message ≡ p.message
check_peer-message d now p = elim (Bool-cases (is_stale d now p)) [
  | inl e ↦ rw e refl
  | inr e ↦ rw e refl
]

health_check-IsFiled :
    (d : Discovery) (now : ℕ) (k : Bytes) (p : PeerInfo)
    → IsWellFiled d
    → get_peer (check_peer_health d now) k ≡ some p
    → IsFiled d k p
unfolding IsWellFiled IsFiled
health_check-IsFiled d now k p v h =
    let checked = rw (get_peer-check_peer_health d now k) at h in
    let (q, found, changed) = keep_cases (check_peer d now) (get_peer d k) p checked in
    let (name_of, other) = v k q found in
    (
      ap (λ (r : PeerInfo). r.message.node_name) (sym changed)
          ∙ (ap (λ (m : DiscoveryMessage). m.node_name) (check_peer-message d now q) ∙ name_of),
      other,
    )

status-IsFiled :
    (d : Discovery) (name status k : Bytes) (p : PeerInfo)
    → IsWellFiled d
    → get_peer (handle_status d name status) k ≡ some p
    → IsFiled d k p
unfolding handle_status IsWellFiled
status-IsFiled d name status k p v h = elim (Bool-cases (equal name d.node_name)) [
  | inl own ↦ v k p (rw own at h)
  | inr other ↦ elim (Bool-cases (equal status (codes "offline"))) [
    | inl offline ↦ marked-IsFiled d name k p v (rw (other, offline) at h)
    | inr on ↦ v k p (rw (other, on) at h)
  ]
]

presence-IsFiled :
    (d : Discovery) (presence : Option (Dict Bytes)) (k : Bytes) (p : PeerInfo)
    → IsWellFiled d
    → get_peer (handle_presence d presence) k ≡ some p
    → IsFiled d k p
unfolding handle_presence IsWellFiled
presence-IsFiled d none k p v h = v k p h
presence-IsFiled d (some strings) k p v h = status-IsFiled d _ _ k p v h

status-node_name :
    (d : Discovery) (name status : Bytes) → (handle_status d name status).node_name ≡ d.node_name
unfolding handle_status mark_offline
status-node_name d name status = elim (Option-cases (lookup name d.peers)) [
  | inl e ↦ rw e (ground arith)
  | inr (q, e) ↦ rw e (ground arith)
]

presence-node_name :
    (d : Discovery) (p : Option (Dict Bytes)) → (handle_presence d p).node_name ≡ d.node_name
unfolding handle_presence
presence-node_name d none = refl
presence-node_name d (some strings) = status-node_name d _ _

pub on_event-node_name : (d : Discovery) (e : Event) → (on_event d e).node_name ≡ d.node_name
unfolding on_event check_peer_health
on_event-node_name d (heartbeat hb now) = node_name-heartbeat d hb now
on_event-node_name d (presence p) = presence-node_name d p
on_event-node_name d (health_check now) = refl

on_event-IsWellFiled : (d : Discovery) (e : Event) → IsWellFiled d → IsWellFiled (on_event d e)
unfolding on_event IsWellFiled IsFiled handle_heartbeat
on_event-IsWellFiled d (heartbeat none now) v k p h = v k p h
on_event-IsWellFiled d (heartbeat (some hb) now) v k p h =
    let (name_of, other) = heartbeat-IsFiled d hb now k p v h in
    (name_of, rw (node_name-heartbeat d (some hb) now) other)
on_event-IsWellFiled d (presence m) v k p h =
    let (name_of, other) = presence-IsFiled d m k p v h in
    (name_of, rw (presence-node_name d m) other)
on_event-IsWellFiled d (health_check now) v k p h = health_check-IsFiled d now k p v h

on_events-IsWellFiled_from :
    (es : List Event) (d : Discovery) → IsWellFiled d → IsWellFiled (on_events d es)
unfolding on_events
on_events-IsWellFiled_from [] d v = v
on_events-IsWellFiled_from (e ∷ es) d v =
    on_events-IsWellFiled_from es (on_event d e) (on_event-IsWellFiled d e v)

on_events-node_name : (es : List Event) (d : Discovery) → (on_events d es).node_name ≡ d.node_name
unfolding on_events
on_events-node_name [] d = refl
on_events-node_name (e ∷ es) d = on_events-node_name es (on_event d e) ∙ on_event-node_name d e

-- Whatever heartbeats, presence messages and health checks come, in whatever order, every peer is filed
-- under the name that its last heartbeat gives, and a node never lists itself.
pub on_events-IsFiled :
    (node_name : Bytes) (listen_port : ℕ) (mqtt : MqttConf) (es : List Event) (k : Bytes)
    (p : PeerInfo)
    → get_peer (on_events (new_discovery node_name listen_port mqtt) es) k ≡ some p
    → (p.message.node_name ≡ k) × (k ≢ node_name)
unfolding IsWellFiled IsFiled new_discovery get_peer lookup
on_events-IsFiled node_name listen_port mqtt es k p h =
    let start = new_discovery node_name listen_port mqtt in
    let (name_of, other) = on_events-IsWellFiled_from es start (λ k p h. absurd (cc h)) k p h in
    let other' : equal k node_name ≡ false = rw (on_events-node_name es start) at other in
    (name_of, λ e. cc (other', (equal_iff k node_name).1 e))
