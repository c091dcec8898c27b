-- ===== src/Tests/Discovery.antt =====
-- Runs of discovery.go, and its theorems at concrete values.
use nexus_stun.Common.{
  ℕ, pos, Bytes, Option, ◌+◌, arith, ◌≡◌, ◌≢◌, refl, true, false, none, some, List, [], ◌∷◌, codes,
  equal, equal_iff,
}
use nexus_stun.Common.Dict.{lookup, insert}
use nexus_stun.Config.{MqttConf}
use nexus_stun.Discovery.{
  DiscoveryMessage, PeerInfo, text_or_empty, publish_heartbeat, publish_presence, Discovery,
  new_discovery, seen, handle_heartbeat, handle_presence, check_peer, check_all, check_peer_health,
  get_peer, heartbeat_loop, health_check_loop,
}
use nexus_stun.Discovery.Loops.{
  Json, SurvivesJson, PresenceSurvivesJson, deliver, deliver-heartbeat_loop,
  health_check_loop_silent,
}
use nexus_stun.Discovery.Events.{
  Event, heartbeat, presence, health_check, on_event, on_events, on_events-IsFiled,
}

abbrev mqtt : MqttConf
mqtt = record {
  broker = [];
  topic_prefix = codes "vpn";
  client_id = [];
  heartbeat_interval = pos 15;
  username = [];
  password = [];
}

abbrev node_a : Discovery
node_a = new_discovery (codes "a") 51820 mqtt

abbrev node_b : Discovery
node_b = new_discovery (codes "b") 51821 mqtt

abbrev heartbeat_b : DiscoveryMessage
heartbeat_b = record {
  node_name = codes "b";
  public_key = [];
  public_ip = codes "203.0.113.7";
  public_port = 4660;
  wg_port = 51821;
  nat_type = [];
  timestamp = 100;
  via_relay = false;
  relay_addr = [];
}

-- a knows b, last seen at 100
abbrev knows_b : Discovery
knows_b = record {
  node_name = codes "a";
  listen_port = 51820;
  mqtt = mqtt;
  has_callback = false;
  peers = (codes "b", seen heartbeat_b 100) ∷ [];
}

-- silent for 46 seconds: one more heartbeat is missed
missed_one :
    check_peer knows_b 146 (seen heartbeat_b 100)
    ≡ record (seen heartbeat_b 100) { missed_heartbeats = 1 }
missed_one = refl

b_ne_a : node_b.node_name ≢ knows_b.node_name
unfolding new_discovery equal
b_ne_a e =
    let same : equal (codes "b") (codes "a") ≡ true = (equal_iff (codes "b") (codes "a")).1 e in
    absurd (cc same)

abbrev events : List Event
events = heartbeat (some heartbeat_b) 100 ∷ presence none ∷ health_check 200 ∷ []

after_events :
    get_peer (on_events node_a events) (codes "b")
    ≡ some (record (seen heartbeat_b 100) { missed_heartbeats = 1 })
unfolding get_peer on_events on_event handle_heartbeat handle_presence check_peer_health check_all
    lookup insert equal new_discovery
after_events = refl

on_events-IsFiled_example : (codes "b" ≡ codes "b") × (codes "b" ≢ codes "a")
on_events-IsFiled_example =
    on_events-IsFiled (codes "a") 51820 mqtt events (codes "b")
      (record (seen heartbeat_b 100) { missed_heartbeats = 1 }) after_events

b_known : get_peer knows_b (codes "b") ≡ some (seen heartbeat_b 100)
unfolding get_peer lookup equal
b_known = refl

-- JSON of two messages: the name, ports and time of a heartbeat, and a presence's name
abbrev coded : Json
coded = record {
  marshal = λ m. some (m.wg_port ∷ m.timestamp ∷ m.node_name);
  unmarshal = decoded;
  marshal_strings = λ strings. text_or_empty (lookup (codes "node_name") strings);
  unmarshal_strings =
      λ name. some ((codes "node_name", name) ∷ (codes "status", codes "offline") ∷ []);
}
  where
    decoded : Bytes → Option DiscoveryMessage
    decoded (port ∷ time ∷ name) = some (record heartbeat_b {
      node_name = name;
      wg_port = port;
      timestamp = time;
      public_ip = [];
      public_port = 0;
    })
    decoded other = none

b-SurvivesJson : (now : ℕ) → SurvivesJson coded node_b now
unfolding publish_heartbeat new_discovery
b-SurvivesJson now = record {
  payload = 51821 ∷ now ∷ codes "b";
  marshalled = refl;
  unmarshalled = refl;
}

b-PresenceSurvivesJson : PresenceSurvivesJson coded node_b
unfolding publish_presence new_discovery lookup equal
b-PresenceSurvivesJson = record {
  strings = (codes "node_name", codes "b") ∷ (codes "status", codes "offline") ∷ [];
  unmarshalled = refl;
  by_tag = λ tag. refl;
}

-- heartbeats at 100, 115 and 130, each of which arrives 2 later
deliver-heartbeat_loop_example :
    (p : PeerInfo) × (get_peer
        (deliver coded (λ t. t + 2) knows_b (heartbeat_loop node_b 100 (115 ∷ 130 ∷ [])))
        (codes "b")
      ≡ some p)
    × (p.message.node_name ≡ codes "b")
    × (p.message.wg_port ≡ 51821)
    × (p.message.timestamp ≡ 130)
    × (p.last_seen ≡ 132)
    × (p.missed_heartbeats ≡ 999)
unfolding new_discovery
deliver-heartbeat_loop_example =
    deliver-heartbeat_loop coded (λ t. t + 2) knows_b node_b 100 (115 ∷ 130 ∷ []) b_ne_a
      (b-SurvivesJson 100, (b-SurvivesJson 115, (b-SurvivesJson 130, tt))) b-PresenceSurvivesJson

health_check_loop_silent_example :
    get_peer (health_check_loop knows_b (150 ∷ 195 ∷ [])) (codes "b")
    ≡ some (record (seen heartbeat_b 100) { missed_heartbeats = 2 })
health_check_loop_silent_example =
    health_check_loop_silent (150 ∷ 195 ∷ []) knows_b (codes "b") (seen heartbeat_b 100) b_known
      (omega arith, (omega arith, tt))
