-- ===== src/Config/Loading.antt =====
-- config.go: LoadConfig, applyDefaults, GetPeer and GetOtherPeers. The file (or nothing when it cannot
-- be read), os.ExpandEnv, yaml.Unmarshal (nothing on an error) and os.Getenv are parameters.
pub mod Precedence
use nexus_stun.Common.{
  ℕ, ℤ, pos, negsuc, zero, suc, ◌*◌, ◌==◌, Bool, true, false, Option, none, some, List, [], ◌∷◌,
  ◌++◌, if◌then◌else◌, Bytes, codes, equal, Outcome, ok, err, ◌>>=◌, ◌>>◌, reject,
}
use nexus_stun.Common.Dict.{Dict, lookup, insert}
use nexus_stun.Config.{
  Config, PeerConf, WireGuardConf, StunConf, RelayConf, MqttConf, DnsConf, CryptoConf,
  DashboardConf,
}

-- s, or the given text where s is empty
abbrev pub or_text : Bytes → Bytes → Bytes
or_text [] d = d
or_text (c ∷ s) d = c ∷ s

-- n, or the given number where n is 0
abbrev pub or_number : ℕ → ℕ → ℕ
or_number n d = if n == 0 then d else n

-- d, or the given duration where d is 0; a negative one stays
abbrev pub or_duration : ℤ → ℕ → ℤ
or_duration (pos n) d = if n == 0 then pos d else pos n
or_duration (negsuc n) d = negsuc n

abbrev pub or_list : List Bytes → List Bytes → List Bytes
or_list [] d = d
or_list (x ∷ xs) d = x ∷ xs

-- time.Second, in nanoseconds
abbrev pub second : ℕ
second = 1000000000

unfoldable pub apply_defaults : Config → Config
apply_defaults c = record c {
  wire_guard = record {
    interface = or_text c.wire_guard.interface (codes "nexus0");
    listen_port = or_number c.wire_guard.listen_port 51820;
    mtu = or_number c.wire_guard.mtu 1420;
    key_dir = or_text c.wire_guard.key_dir (codes "/etc/nexus-vpn/keys");
  };
  stun = record c.stun {
    refresh_interval = or_number c.stun.refresh_interval (30 * second);
    servers =
        or_list c.stun.servers
          (codes "stun.l.google.com:19302" ∷ codes "stun1.l.google.com:19302" ∷ []);
  };
  relay = record c.relay { fallback_timeout = or_number c.relay.fallback_timeout (10 * second) };
  mqtt = record c.mqtt {
    broker = or_text c.mqtt.broker (codes "tcp://dagda:1883");
    topic_prefix = or_text c.mqtt.topic_prefix (codes "nexus-vpn");
    heartbeat_interval = or_duration c.mqtt.heartbeat_interval (15 * second);
  };
  dns = record c.dns {
    domain = or_text c.dns.domain (codes "nexus.local");
    cache_ttl = or_number c.dns.cache_ttl 300;
  };
  crypto = record c.crypto {
    protocol = or_text c.crypto.protocol (codes "Noise_XX_25519_ChaChaPoly_SHA256");
  };
}

pub data ConfigError : Type 0 where
  unreadable : ConfigError
  unparsable : ConfigError
  no_node_name : ConfigError

abbrev pub or_error : Option Bytes → ConfigError → Outcome ConfigError Bytes
or_error none e = err e
or_error (some s) e = ok s

abbrev pub parsed : Option Config → Outcome ConfigError Config
parsed none = err unparsable
parsed (some c) = ok c

-- c.MQTT.ClientID == "" or "nexus-vpn-dagda"
abbrev pub is_default_client_id : Bytes → Bool
is_default_client_id id = if equal id [] then true else equal id (codes "nexus-vpn-dagda")

abbrev pub with_client_id : Config → Config
with_client_id c =
    if is_default_client_id c.mqtt.client_id
    then record c { mqtt = record c.mqtt { client_id = codes "nexus-vpn-" ++ c.node_name } }
    else c

-- the flag, else the environment, else what is there
abbrev pub with_node_name : (Bytes → Bytes) → Bytes → Config → Config
with_node_name getenv node_name c = record c {
  node_name = or_text node_name (or_text (getenv (codes "NEXUS_NODE")) c.node_name);
}

abbrev pub with_secrets : (Bytes → Bytes) → Config → Config
with_secrets getenv c = record c {
  crypto = record c.crypto { psk = or_text (getenv (codes "NEXUS_PSK")) c.crypto.psk };
  mqtt = record c.mqtt {
    username = or_text (getenv (codes "NEXUS_MQTT_USER")) c.mqtt.username;
    password = or_text (getenv (codes "NEXUS_MQTT_PASS")) c.mqtt.password;
  };
  dashboard = record c.dashboard {
    password = or_text (getenv (codes "NEXUS_DASHBOARD_PASS")) c.dashboard.password;
  };
}

module _ (expand_env : Bytes → Bytes) (unmarshal : Bytes → Option Config)
    (getenv : Bytes → Bytes) where
  unfoldable pub load_config : Option Bytes → Bytes → Outcome ConfigError Config
  unfolding apply_defaults
  load_config file node_name = do
    data_read ← or_error file unreadable
    c ← parsed (unmarshal (expand_env data_read))
    let named = with_node_name getenv node_name (apply_defaults c)
    reject (equal named.node_name []) no_node_name
    ok (with_client_id (with_secrets getenv named))

unfoldable pub get_peer : Config → Bytes → Option PeerConf
get_peer c name = lookup name c.peers

-- Go's map from the keys that differ from the node's name; the first entry under a key counts.
unfoldable pub others_of : Bytes → Dict PeerConf → Dict PeerConf
others_of node_name [] = []
others_of node_name ((name, peer) ∷ peers) =
    let others = others_of node_name peers in
    if equal name node_name then others else insert name peer others

unfoldable pub get_other_peers : Config → Dict PeerConf
unfolding others_of
get_other_peers c = others_of c.node_name c.peers
