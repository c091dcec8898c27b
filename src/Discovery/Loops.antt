-- ===== src/Discovery/Loops.antt =====
-- discovery.go: heartbeatLoop of one node against the handlers of another, and healthCheckLoop.
use nexus_stun.Common.{
  ℕ, ℤ, pos, negsuc, ◌+◌, ◌-◌, ◌*◌, ◌<◌, ◌≡◌, ◌≢◌, refl, ap, ◌∙◌, true, Option, none, some, All,
  codes, List, [], ◌∷◌, Bytes, length, arith,
}
use nexus_stun.Common.Dict.{Dict, lookup, ne→equal, equal_refl}
use nexus_stun.Discovery.{
  DiscoveryMessage, publish_presence, PeerInfo, Discovery, Sent, sent_heartbeat, sent_presence,
  seen, handle_heartbeat, offline_mark, handle_presence, is_stale, check_peer_health, get_peer,
  publish_heartbeat, heartbeat_rounds, heartbeat_loop, health_check_loop,
}
use nexus_stun.Discovery.Events.{node_name-heartbeat}
use nexus_stun.Discovery.Peers.{
  get_peer-handle_heartbeat, get_peer-handle_presence, get_peer-check_peer_health,
}

-- encoding/json, as discovery.go calls it: Marshal and Unmarshal of a DiscoveryMessage (nothing on an
-- error), Marshal of a map of strings, and the strings that Unmarshal reads by their tags
pub record Json : Type 0 where
  pub marshal : DiscoveryMessage → Option Bytes
  pub unmarshal : Bytes → Option DiscoveryMessage
  pub marshal_strings : Dict Bytes → Bytes
  pub unmarshal_strings : Bytes → Option (Dict Bytes)

-- a heartbeat of the node comes out of JSON as it went in
pub record SurvivesJson (json : Json) (sender : Discovery) (now : ℕ) : Type 0 where
  pub payload : Bytes
  pub marshalled : json.marshal (publish_heartbeat sender now).content ≡ some payload
  pub unmarshalled : json.unmarshal payload ≡ some (publish_heartbeat sender now).content

-- and its message that it is offline, tag by tag
pub record PresenceSurvivesJson (json : Json) (sender : Discovery) : Type 0 where
  pub strings : Dict Bytes
  pub unmarshalled :
      json.unmarshal_strings
        (json.marshal_strings (publish_presence sender (codes "offline")).content)
      ≡ some strings
  pub by_tag :
      (tag : Bytes)
      → lookup tag strings ≡ lookup tag (publish_presence sender (codes "offline")).content

module _ (json : Json) (arrival : ℕ → ℕ) where
  -- A heartbeat that cannot be marshalled is not published.
  unfoldable pub receive_heartbeat : Discovery → ℕ → Option Bytes → Discovery
  receive_heartbeat d now none = d
  receive_heartbeat d now (some payload) = (handle_heartbeat d (json.unmarshal payload) now).0

  -- A node handles the payloads that another published, in the order in which they were published;
  -- `arrival` is the time at which a heartbeat of a time arrives.
  unfoldable pub deliver : Discovery → List Sent → Discovery
  deliver d [] = d
  deliver d (sent_heartbeat p ∷ sent) =
      deliver (receive_heartbeat d (arrival p.content.timestamp) (json.marshal p.content)) sent
  deliver d (sent_presence p ∷ sent) =
      deliver (handle_presence d (json.unmarshal_strings (json.marshal_strings p.content))) sent

  abbrev pub last_of : ℕ → List ℕ → ℕ
  last_of now [] = now
  last_of now (t ∷ ticks) = last_of t ticks

  -- the node after a heartbeat of the sender
  abbrev hears : Discovery → Discovery → ℕ → Discovery
  hears d sender now =
      (handle_heartbeat d (some (publish_heartbeat sender now).content) (arrival now)).0

  receive_lem :
      (d sender : Discovery) (now : ℕ)
      → SurvivesJson json sender now
      → receive_heartbeat d (arrival now) (json.marshal (publish_heartbeat sender now).content)
        ≡ hears d sender now
  unfolding receive_heartbeat
  receive_lem d sender now h =
      rw h.marshalled (ap (λ o. (handle_heartbeat d o (arrival now)).0) h.unmarshalled)

  heard_lem :
      (d sender : Discovery) (now : ℕ)
      → sender.node_name ≢ d.node_name
      → get_peer (hears d sender now) sender.node_name
        ≡ some (seen (publish_heartbeat sender now).content (arrival now))
  unfolding publish_heartbeat
  heard_lem d sender now ne =
      get_peer-handle_heartbeat d (publish_heartbeat sender now).content (arrival now)
        sender.node_name
      ∙ rw (ne→equal sender.node_name d.node_name ne, equal_refl sender.node_name) refl

  presence_lem :
      (d sender : Discovery)
      → PresenceSurvivesJson json sender
      → handle_presence d (
          json.unmarshal_strings
            (json.marshal_strings (publish_presence sender (codes "offline")).content))
        ≡ handle_presence d (some (publish_presence sender (codes "offline")).content)
  unfolding handle_presence
  presence_lem d sender h =
      rw (h.unmarshalled, h.by_tag (codes "node_name"), h.by_tag (codes "status")) refl

  -- the entry of a node that sent its last heartbeat at the time, and went offline
  abbrev gone : Discovery → ℕ → PeerInfo
  gone sender last = record (seen (publish_heartbeat sender last).content (arrival last)) {
    missed_heartbeats = offline_mark;
  }

  deliver-heartbeat_rounds :
      (ticks : List ℕ) (d sender : Discovery) (now : ℕ)
      → sender.node_name ≢ d.node_name
      → All (SurvivesJson json sender) ticks
      → PresenceSurvivesJson json sender
      → get_peer d sender.node_name
        ≡ some (seen (publish_heartbeat sender now).content (arrival now))
      → get_peer (deliver d (heartbeat_rounds sender ticks)) sender.node_name
        ≡ some (gone sender (last_of now ticks))
  unfolding deliver heartbeat_rounds
  deliver-heartbeat_rounds [] d sender now ne all off h =
      ap (λ d'. get_peer d' sender.node_name) (presence_lem d sender off)
      ∙ get_peer-handle_presence d sender sender.node_name ne
      ∙ rw (equal_refl sender.node_name, h) refl
  deliver-heartbeat_rounds (t ∷ ticks) d sender now ne (one, all) off h =
      let same : (hears d sender t).node_name ≡ d.node_name =
        node_name-heartbeat d (some (publish_heartbeat sender t).content) (arrival t) in
      ap (λ d'. get_peer (deliver d' (heartbeat_rounds sender ticks)) sender.node_name)
        (receive_lem d sender t one)
      ∙ deliver-heartbeat_rounds ticks (hears d sender t) sender t (λ e. ne (e ∙ same)) all off
          (heard_lem d sender t ne)

  -- When another node has handled all that a node's heartbeat loop publishes until it is cancelled, in
  -- that order and through JSON, it has an entry for the node: the node's name, its WireGuard port and
  -- the time of its last heartbeat, as seen when that heartbeat arrived, with 999 missed heartbeats, so
  -- that it knows that the node is gone. The heartbeats are those that JSON gives back as they were, and
  -- so is the presence message, tag by tag.
  pub deliver-heartbeat_loop :
      (d sender : Discovery) (start : ℕ) (ticks : List ℕ)
      → sender.node_name ≢ d.node_name
      → All (SurvivesJson json sender) (start ∷ ticks)
      → PresenceSurvivesJson json sender
      → (p : PeerInfo) × (get_peer (deliver d (heartbeat_loop sender start ticks)) sender.node_name
          ≡ some p)
        × (p.message.node_name ≡ sender.node_name)
        × (p.message.wg_port ≡ sender.listen_port)
        × (p.message.timestamp ≡ last_of start ticks)
        × (p.last_seen ≡ arrival (last_of start ticks))
        × (p.missed_heartbeats ≡ 999)
  unfolding deliver heartbeat_loop publish_heartbeat
  deliver-heartbeat_loop d sender start ticks ne (one, all) off =
      let same : (hears d sender start).node_name ≡ d.node_name =
        node_name-heartbeat d (some (publish_heartbeat sender start).content) (arrival start) in
      (
        gone sender (last_of start ticks),
        ap (λ d'. get_peer (deliver d' (heartbeat_rounds sender ticks)) sender.node_name)
              (receive_lem d sender start one)
            ∙ deliver-heartbeat_rounds ticks (hears d sender start) sender start
                (λ e. ne (e ∙ same)) all off (heard_lem d sender start ne),
        refl,
        refl,
        refl,
        refl,
        refl,
      )

-- a time, never negative, against three intervals
abbrev pub ExceedsThrice : ℕ → ℤ → Type 0
ExceedsThrice time (pos interval) = interval * 3 < time
ExceedsThrice time (negsuc n) = Unit

-- every tick comes more than three heartbeat intervals after the time
abbrev pub AreLate : Discovery → ℕ → List ℕ → Type 0
AreLate d last_seen [] = Unit
AreLate d last_seen (now ∷ ticks) =
    ExceedsThrice (now - last_seen) d.mqtt.heartbeat_interval × AreLate d last_seen ticks

-- Each round of the health check loop counts one more missed heartbeat for a peer that stays silent: after
-- any number of ticks, all later than three heartbeat intervals behind its last heartbeat, its count has grown by that number,
-- and nothing else of its entry has changed.
pub health_check_loop_silent :
    (ticks : List ℕ) (d : Discovery) (k : Bytes) (p : PeerInfo)
    → get_peer d k ≡ some p
    → AreLate d p.last_seen ticks
    → get_peer (health_check_loop d ticks) k
      ≡ some (record p { missed_heartbeats = p.missed_heartbeats + length ticks })
unfolding health_check_loop check_peer_health
health_check_loop_silent [] d k p h late =
    h ∙ ap (λ n. some (record p { missed_heartbeats = n })) (omega arith)
health_check_loop_silent (now ∷ ticks) d k p h (first, late) =
    let stale : is_stale d now p ≡ true = ground arith in
    let p' = record p { missed_heartbeats = p.missed_heartbeats + 1 } in
    let one : get_peer (check_peer_health d now) k ≡ some p' =
      get_peer-check_peer_health d now k ∙ rw (h, stale) refl in
    health_check_loop_silent ticks (check_peer_health d now) k p' one late
    ∙ ap (λ n. some (record p { missed_heartbeats = n })) (omega arith)
