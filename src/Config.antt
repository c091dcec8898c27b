-- ===== src/Config.antt =====
-- config.go: the configuration types; Config.Loading has its functions. Integers and durations (in nanoseconds)
-- are natural numbers, but the heartbeat interval is signed;
-- strings are byte lists, and the map of peers is an association list with the node names as keys.
pub mod Loading
use nexus_stun.Common.{ℕ, ℤ, List, Bool, Bytes}
use nexus_stun.Common.Dict.{Dict}

pub record WireGuardConf : Type 0 where
  pub interface : Bytes
  pub listen_port : ℕ
  pub mtu : ℕ
  pub key_dir : Bytes

pub record StunConf : Type 0 where
  pub servers : List Bytes
  pub listen_addr : Bytes
  pub refresh_interval : ℕ

pub record TlsConf : Type 0 where
  pub cert_file : Bytes
  pub key_file : Bytes
  pub ca_file : Bytes

pub record RelayConf : Type 0 where
  pub listen_addr : Bytes
  pub tls : TlsConf
  pub fallback_timeout : ℕ

pub record MqttConf : Type 0 where
  pub broker : Bytes
  pub topic_prefix : Bytes
  pub client_id : Bytes
  pub heartbeat_interval : ℤ
  pub username : Bytes
  pub password : Bytes

pub record DnsConf : Type 0 where
  pub listen_addr : Bytes
  pub domain : Bytes
  pub upstream : List Bytes
  pub cache_ttl : ℕ

pub record DashboardConf : Type 0 where
  pub listen_addr : Bytes
  pub tls : TlsConf
  pub password : Bytes

pub record CryptoConf : Type 0 where
  pub protocol : Bytes
  pub psk : Bytes

pub record HardwareConf : Type 0 where
  pub gpu : Bool
  pub ram_gb : ℕ
  pub cpu : Bytes

pub record PeerConf : Type 0 where
  pub name : Bytes
  pub public_key : Bytes
  pub allowed_ips : List Bytes
  pub endpoint : Bytes
  pub tailscale_fallback : Bytes
  pub keepalive : ℕ
  pub role : Bytes
  pub hardware : HardwareConf
  pub optional : Bool

pub record Config : Type 0 where
  pub node_name : Bytes
  pub wire_guard : WireGuardConf
  pub stun : StunConf
  pub relay : RelayConf
  pub mqtt : MqttConf
  pub dns : DnsConf
  pub dashboard : DashboardConf
  pub crypto : CryptoConf
  pub peers : Dict PeerConf
