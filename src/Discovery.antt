-- ===== src/Discovery.antt =====
-- discovery.go: the peers that heartbeats announce. A handler takes what json.Unmarshal made of the
-- payload, with nothing for a payload that it refuses; the time of a call is an argument. What is
-- published is the value that json.Marshal gets; Loops puts it through JSON, a parameter, to a handler. The
-- broker is not modelled. A loop is what runs behind its ticker (time.NewTicker panics on an interval that
-- is not positive): it takes the times at which the ticker fires before the context is done.
pub mod Peers
pub mod Events
pub mod Loops
pub mod Directory
use nexus_stun.Common.{
  ℕ, ℤ, pos, negsuc, ◌+◌, ◌-◌, ◌*◌, ◌<◌, Bool, true, false, Option, none, some, List, [], ◌∷◌, ◌++◌,
  map, ltb, if◌then◌else◌, Bytes, codes, equal,
}
use nexus_stun.Common.Dict.{Dict, lookup, insert}
use nexus_stun.Config.{MqttConf}

pub record DiscoveryMessage : Type 0 where
  pub node_name : Bytes
  pub public_key : Bytes
  pub public_ip : Bytes
  pub public_port : ℕ
  pub wg_port : ℕ
  pub nat_type : Bytes
  pub timestamp : ℕ
  pub via_relay : Bool
  pub relay_addr : Bytes

pub record PeerInfo : Type 0 where
  pub message : DiscoveryMessage
  pub last_seen : ℕ
  pub missed_heartbeats : ℕ

-- With the parts of the configuration that it reads, and whether a callback is set.
pub record Discovery : Type 0 where
  pub node_name : Bytes
  pub listen_port : ℕ
  pub mqtt : MqttConf
  pub has_callback : Bool
  pub peers : Dict PeerInfo

unfoldable pub new_discovery : Bytes → ℕ → MqttConf → Discovery
new_discovery node_name listen_port mqtt = record {
  node_name = node_name;
  listen_port = listen_port;
  mqtt = mqtt;
  has_callback = false;
  peers = [];
}

unfoldable pub set_peer_update_callback : Discovery → Discovery
set_peer_update_callback d = record d { has_callback = true }

abbrev pub seen : DiscoveryMessage → ℕ → PeerInfo
seen hb now = record { message = hb; last_seen = now; missed_heartbeats = 0 }

-- The state, and the calls of the callback. The entry is made or overwritten as a whole.
unfoldable pub handle_heartbeat :
    Discovery → Option DiscoveryMessage → ℕ → Discovery × List (Bytes × PeerInfo)
handle_heartbeat d none now = (d, [])
handle_heartbeat d (some hb) now = if equal hb.node_name d.node_name then (d, []) else (
  record d { peers = insert hb.node_name (seen hb now) d.peers },
  if d.has_callback then (hb.node_name, seen hb now) ∷ [] else [],
)

abbrev pub offline_mark : ℕ
offline_mark = 999

-- the entry of a peer that went offline, if there is one
unfoldable pub mark_offline : Option PeerInfo → Discovery → Bytes → Discovery
mark_offline none d name = d
mark_offline (some peer) d name = record d {
  peers = insert name (record peer { missed_heartbeats = offline_mark }) d.peers;
}

-- behind the decoding
unfoldable pub handle_status : Discovery → Bytes → Bytes → Discovery
unfolding mark_offline
handle_status d name status =
    if equal name d.node_name
    then d
    else if equal status (codes "offline")
    then mark_offline (lookup name d.peers) d name
    else d

-- a string that the payload may lack
abbrev pub text_or_empty : Option Bytes → Bytes
text_or_empty none = []
text_or_empty (some s) = s

-- The strings of the payload, which the two fields take by their tags.
unfoldable pub handle_presence : Discovery → Option (Dict Bytes) → Discovery
unfolding handle_status
handle_presence d none = d
handle_presence d (some strings) =
    handle_status d (text_or_empty (lookup (codes "node_name") strings))
      (text_or_empty (lookup (codes "status") strings))

-- Whether a time, never negative, is longer than three intervals: always, if these are negative.
abbrev pub longer_than : ℕ → ℤ → Bool
longer_than time (pos interval) = ltb (interval * 3) time
longer_than time (negsuc n) = true

-- time.Since(peer.LastSeen) > d.cfg.MQTT.HeartbeatInterval*3
abbrev pub is_stale : Discovery → ℕ → PeerInfo → Bool
is_stale d now peer = longer_than (now - peer.last_seen) d.mqtt.heartbeat_interval

abbrev pub check_peer : Discovery → ℕ → PeerInfo → PeerInfo
check_peer d now peer =
    if is_stale d now peer
    then record peer { missed_heartbeats = peer.missed_heartbeats + 1 }
    else peer

unfoldable pub check_all : (PeerInfo → PeerInfo) → Dict PeerInfo → Dict PeerInfo
check_all f [] = []
check_all f ((name, peer) ∷ peers) = (name, f peer) ∷ check_all f peers

unfoldable pub check_peer_health : Discovery → ℕ → Discovery
check_peer_health d now = record d { peers = check_all (check_peer d now) d.peers }

unfoldable pub get_peer : Discovery → Bytes → Option PeerInfo
get_peer d name = lookup name d.peers

unfoldable pub get_peers : Discovery → Dict PeerInfo
get_peers d = d.peers

-- What is sent to the broker: topic, message, and whether it is retained.
pub record Publication (A : Type 0) : Type 0 where
  pub topic : Bytes
  pub content : A
  pub retained : Bool

abbrev pub topic_of : Discovery → Bytes → Bytes
topic_of d kind = d.mqtt.topic_prefix ++ (b'/' ∷ (d.node_name ++ (b'/' ∷ kind)))

unfoldable pub publish_heartbeat : Discovery → ℕ → Publication DiscoveryMessage
publish_heartbeat d now = record {
  topic = topic_of d (codes "heartbeat");
  content = record {
    node_name = d.node_name;
    public_key = [];
    public_ip = [];
    public_port = 0;
    wg_port = d.listen_port;
    nat_type = [];
    timestamp = now;
    via_relay = false;
    relay_addr = [];
  };
  retained = false;
}

-- a map of strings, as a retained message
unfoldable pub publish_presence : Discovery → Bytes → Publication (Dict Bytes)
publish_presence d status = record {
  topic = topic_of d (codes "presence");
  content = (codes "node_name", d.node_name) ∷ (codes "status", status) ∷ [];
  retained = true;
}

unfoldable pub update_local_endpoint :
    Discovery → Bytes → ℕ → Bytes → ℕ → Publication DiscoveryMessage
update_local_endpoint d ip port nat_type now = record {
  topic = topic_of d (codes "heartbeat");
  content = record {
    node_name = d.node_name;
    public_key = [];
    public_ip = ip;
    public_port = port;
    wg_port = d.listen_port;
    nat_type = nat_type;
    timestamp = now;
    via_relay = false;
    relay_addr = [];
  };
  retained = false;
}

-- the two topic filters of subscribe
abbrev pub subscriptions : Discovery → List Bytes
subscriptions d =
    (d.mqtt.topic_prefix ++ codes "/+/heartbeat")
    ∷ (d.mqtt.topic_prefix ++ codes "/+/presence")
    ∷ []

pub data Sent : Type 0 where
  sent_heartbeat : Publication DiscoveryMessage → Sent
  sent_presence : Publication (Dict Bytes) → Sent

unfoldable pub heartbeat_rounds : Discovery → List ℕ → List Sent
unfolding publish_heartbeat publish_presence
heartbeat_rounds d [] = sent_presence (publish_presence d (codes "offline")) ∷ []
heartbeat_rounds d (now ∷ ticks) =
    sent_heartbeat (publish_heartbeat d now) ∷ heartbeat_rounds d ticks

-- The first heartbeat is sent at once.
unfoldable pub heartbeat_loop : Discovery → ℕ → List ℕ → List Sent
unfolding heartbeat_rounds
heartbeat_loop d start ticks = sent_heartbeat (publish_heartbeat d start) ∷ heartbeat_rounds d ticks

unfoldable pub health_check_loop : Discovery → List ℕ → Discovery
unfolding check_peer_health
health_check_loop d [] = d
health_check_loop d (now ∷ ticks) = health_check_loop (check_peer_health d now) ticks

-- what Stop publishes
unfoldable pub stop : Discovery → Bool → List Sent
unfolding publish_presence
stop d is_connected =
    if is_connected then sent_presence (publish_presence d (codes "offline")) ∷ [] else []
