-- ===== src/Discovery/Directory.antt =====
-- discovery.go: the peers as a map whose order is forgotten, and messages in either order.
use nexus_stun.Common.{ℕ, ◌≡◌, Option, some, [], ◌∷◌, if◌then◌else◌, Bytes, codes, equal}
use nexus_stun.Common.Dict.{Dict, lookup}
use nexus_stun.Discovery.{DiscoveryMessage, PeerInfo, Discovery, seen, offline_mark}
use nexus_stun.Discovery.Events.{Event, heartbeat, presence}
use nexus_stun.Discovery.Peers.{map_entry}
use mathlib.Core.Quot
use mathlib.Core.Quot.{Quot}

-- the entry but for the time at which it was last seen
abbrev pub untimed : Option PeerInfo → Option PeerInfo
untimed = map_entry (λ p. record p { last_seen = 0 })

-- A Go map keeps no order: two lists of entries are one directory where every name has the same entry,
-- but for LastSeen.
abbrev pub SameEntries : Dict PeerInfo → Dict PeerInfo → Type 0
SameEntries a b = (k : Bytes) → untimed (lookup k a) ≡ untimed (lookup k b)

abbrev pub Directory : Type 0
Directory = Quot SameEntries

pub directory_of : Discovery → Directory
directory_of d = Quot.mk d.peers

-- A message that json.Unmarshal accepts.
pub data Message : Type 0 where
  heartbeat_of : DiscoveryMessage → Message
  presence_of : Bytes → Bytes → Message

-- its handling, at a time
abbrev pub event_of : Message → ℕ → Event
event_of (heartbeat_of hb) now = heartbeat (some hb) now
event_of (presence_of name status) now =
    presence (some ((codes "node_name", name) ∷ (codes "status", status) ∷ []))

-- the node that it is about
abbrev pub subject : Message → Bytes
subject (heartbeat_of hb) = hb.node_name
subject (presence_of name status) = name

-- what it makes of the entry of that node
abbrev effect : Message → ℕ → Option PeerInfo → Option PeerInfo
effect (heartbeat_of hb) now entry = some (seen hb now)
effect (presence_of name status) now entry =
    if equal status (codes "offline")
    then map_entry (λ p. record p { missed_heartbeats = offline_mark }) entry
    else entry

-- the entry of k after a message, for a node of the name
abbrev after : Bytes → Message → ℕ → Bytes → Option PeerInfo → Option PeerInfo
after node_name m now k entry =
    if equal (subject m) node_name
    then entry
    else if equal (subject m) k
    then effect m now entry
    else entry
