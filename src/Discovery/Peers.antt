-- ===== src/Discovery/Peers.antt =====
-- discovery.go: what each handler does to the entry of each peer.
use nexus_stun.Common.{
  ℕ, ◌≡◌, ◌≢◌, refl, sym, ap, ◌∙◌, inl, inr, Option, none, some, [], ◌∷◌, if◌then◌else◌, Bytes,
  codes, equal, equal_iff, Bool-cases,
}
use nexus_stun.Common.Dict.{Dict, lookup, lookup-insert, lookup-insert_self, ne→equal}
use nexus_stun.Discovery.{
  DiscoveryMessage, PeerInfo, Discovery, seen, handle_heartbeat, offline_mark, mark_offline,
  handle_presence, handle_status, check_peer, check_all, check_peer_health, get_peer,
  publish_heartbeat, update_local_endpoint, publish_presence,
}

abbrev pub map_entry : (PeerInfo → PeerInfo) → Option PeerInfo → Option PeerInfo
map_entry f none = none
map_entry f (some p) = some (f p)

pub lookup-check_all :
    (f : PeerInfo → PeerInfo) (k : Bytes) (m : Dict PeerInfo)
    → lookup k (check_all f m) ≡ map_entry f (lookup k m)
unfolding lookup check_all
lookup-check_all f k [] = refl
lookup-check_all f k ((j, p) ∷ m) = elim (Bool-cases (equal j k)) [
  | inl e ↦ rw e refl
  | inr e ↦ rw e (lookup-check_all f k m)
]

-- A heartbeat of another node, and nothing else, is entered under its name, as just seen and with no
-- heartbeat missed; every other entry stays. One's own heartbeat changes nothing.
pub get_peer-handle_heartbeat :
    (d : Discovery) (hb : DiscoveryMessage) (now : ℕ) (k : Bytes)
    → get_peer (handle_heartbeat d (some hb) now).0 k ≡ (
        if equal hb.node_name d.node_name
        then get_peer d k
        else if equal hb.node_name k
        then some (seen hb now)
        else get_peer d k)
unfolding get_peer handle_heartbeat
get_peer-handle_heartbeat d hb now k = elim (Bool-cases (equal hb.node_name d.node_name)) [
  | inl own ↦ rw own refl
  | inr other ↦ rw other (lookup-insert hb.node_name k (seen hb now) d.peers)
]

-- A health check adds one to the count of each peer that has been silent for more than three intervals,
-- and changes nothing else of any entry.
pub get_peer-check_peer_health :
    (d : Discovery) (now : ℕ) (k : Bytes)
    → get_peer (check_peer_health d now) k ≡ map_entry (check_peer d now) (get_peer d k)
unfolding get_peer check_peer_health
get_peer-check_peer_health d now k = lookup-check_all (check_peer d now) k d.peers

pub mark_offline_lem :
    (o : Option PeerInfo) (d : Discovery) (name k : Bytes)
    → lookup name d.peers ≡ o
    → get_peer (mark_offline o d name) k ≡ (
        if equal name k
        then map_entry (λ p. record p { missed_heartbeats = offline_mark }) (get_peer d k)
        else get_peer d k)
unfolding get_peer mark_offline
mark_offline_lem none d name k e = elim (Bool-cases (equal name k)) [
  | inl same ↦
      let at_k : lookup k d.peers ≡ none =
        ap (λ (j : Bytes). lookup j d.peers) (sym ((equal_iff name k).0 same)) ∙ e in
      rw (same, at_k) refl
  | inr other ↦ rw other refl
]
mark_offline_lem (some p) d name k e = elim (Bool-cases (equal name k)) [
  | inl same ↦
      let at_k : lookup k d.peers ≡ some p =
        ap (λ (j : Bytes). lookup j d.peers) (sym ((equal_iff name k).0 same)) ∙ e in
      lookup-insert name k (record p { missed_heartbeats = offline_mark }) d.peers
      ∙ rw (same, at_k) refl
  | inr other ↦
      lookup-insert name k (record p { missed_heartbeats = offline_mark }) d.peers ∙ rw other refl
]

-- The presence message that another node publishes when it goes offline sets the missed heartbeats
-- of that node's entry to 999, if there is one, and changes no other entry; it enters no new peer.
pub get_peer-handle_presence :
    (d sender : Discovery) (k : Bytes)
    → sender.node_name ≢ d.node_name
    → get_peer (handle_presence d (some (publish_presence sender (codes "offline")).content)) k ≡ (
        if equal sender.node_name k
        then map_entry (λ p. record p { missed_heartbeats = offline_mark }) (get_peer d k)
        else get_peer d k)
unfolding handle_presence handle_status publish_presence equal lookup
get_peer-handle_presence d sender k h =
    rw (ne→equal sender.node_name d.node_name h)
      (mark_offline_lem (lookup sender.node_name d.peers) d sender.node_name k refl)

-- What a peer knows of another node's public endpoint lasts until that node's next periodic
-- heartbeat: the announcement puts address and port into the entry, and the heartbeat replaces them
-- by none.
pub endpoint_lost :
    (d sender : Discovery) (ip nat_type : Bytes) (port now later : ℕ)
    → sender.node_name ≢ d.node_name
    → let d' =
        (handle_heartbeat d
          (some (update_local_endpoint sender ip port nat_type now).content)
          now).0 in
      let d'' = (handle_heartbeat d' (some (publish_heartbeat sender later).content) later).0 in
      ((p : PeerInfo) × (get_peer d' sender.node_name ≡ some p)
        × (p.message.public_ip ≡ ip)
        × (p.message.public_port ≡ port))
      × ((p : PeerInfo) × (get_peer d'' sender.node_name ≡ some p)
          × (p.message.public_ip ≡ [])
          × (p.message.public_port ≡ 0))
unfolding get_peer handle_heartbeat update_local_endpoint publish_heartbeat
endpoint_lost d sender ip nat_type port now later h =
    let ne = ne→equal sender.node_name d.node_name h in
    (
      (
        seen (update_local_endpoint sender ip port nat_type now).content now,
        rw ne (lookup-insert_self sender.node_name _ d.peers),
        refl,
        refl,
      ),
      (
        seen (publish_heartbeat sender later).content later,
        rw (ne, ne) (lookup-insert_self sender.node_name _ _),
        refl,
        refl,
      ),
    )
