-- ===== src/WireGuard.antt =====
-- wireguard.go: the manager's types, and its device as a parameter.
pub mod Keys
pub mod Settings
pub mod Manager
use nexus_stun.Common.{ℕ, Bool, Option, List, Bytes}
use nexus_stun.Common.Dict.{Dict}
use nexus_stun.Config.{Config}

pub record PeerState : Type 0 where
  pub name : Bytes
  pub public_key : Bytes
  pub allowed_ips : List Bytes
  pub endpoint : Bytes
  pub latency : ℕ
  pub last_handshake : ℕ
  pub bytes_tx : ℕ
  pub bytes_rx : ℕ
  pub connected : Bool
  pub via_relay : Bool

-- With the state of its device, which is nil before Start. (The fields `device` and `mu` of the source
-- play no part.)
pub record WireGuardManager (D : Type 0) : Type 0 where
  pub cfg : Config
  pub tun : Option D
  pub private_key : Bytes
  pub public_key : Bytes
  pub peers : Dict PeerState

-- What the manager uses of wireguard-go and netstack: whether a call works, and the device after it.
-- A device comes from an address and an MTU.
pub record Device (D : Type 0) : Type 0 where
  pub create : Bytes → ℕ → Option D
  pub ipc_set : D → Bytes → Bool × D
  pub up : D → Bool × D

-- base64.StdEncoding, where what is no base64 decodes to nothing.
pub record Base64 : Type 0 where
  pub encode : Bytes → Bytes
  pub decode : Bytes → Option Bytes
