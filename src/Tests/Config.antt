-- ===== src/Tests/Config.antt =====
-- Runs of config.go, and its theorems at concrete values.
use nexus_stun.Common.{
  pos, ◌≡◌, ◌⊎◌, refl, false, Option, some, [], ◌∷◌, Bytes, codes, equal, if◌then◌else◌, ok, err,
}
use nexus_stun.Config.{Config, PeerConf}
use nexus_stun.Config.Loading.{no_node_name, load_config}
use nexus_stun.Config.Loading.Precedence.{IsLoaded, load_config_cases}

abbrev pub peer : PeerConf
peer = record {
  name = codes "b";
  public_key = [];
  allowed_ips = codes "100.64.0.2/32" ∷ [];
  endpoint = [];
  tailscale_fallback = [];
  keepalive = 25;
  role = [];
  hardware = record { gpu = false; ram_gb = 8; cpu = [] };
  optional = false;
}

abbrev pub file : Config
file = record {
  node_name = codes "a";
  wire_guard = record { interface = []; listen_port = 0; mtu = 0; key_dir = [] };
  stun = record { servers = []; listen_addr = []; refresh_interval = 0 };
  relay = record {
    listen_addr = [];
    tls = record { cert_file = []; key_file = []; ca_file = [] };
    fallback_timeout = 0;
  };
  mqtt = record {
    broker = [];
    topic_prefix = [];
    client_id = [];
    heartbeat_interval = pos 0;
    username = [];
    password = [];
  };
  dns = record { listen_addr = []; domain = []; upstream = []; cache_ttl = 0 };
  dashboard = record {
    listen_addr = [];
    tls = record { cert_file = []; key_file = []; ca_file = [] };
    password = [];
  };
  crypto = record { protocol = []; psk = [] };
  peers = (codes "a", peer) ∷ (codes "b", peer) ∷ [];
}

-- a parser that takes every content for this file, and an environment that sets one variable
unfoldable parse : Bytes → Option Config
parse content = some file

unfoldable environment : Bytes → Bytes
environment name = if equal name (codes "NEXUS_PSK") then codes "secret" else []

load_config_cases_example :
    let name = codes "a" in
    let loaded = load_config (λ s. s) parse environment (some (codes "x")) [] in
    ((name ≡ []) × (loaded ≡ err no_node_name))
    ⊎ ((c : Config) × (loaded ≡ ok c) × IsLoaded environment [] file c)
unfolding parse environment equal
load_config_cases_example = load_config_cases (λ s. s) parse environment (codes "x") [] file refl
