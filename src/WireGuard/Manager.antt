-- ===== src/WireGuard/Manager.antt =====
-- wireguard.go: Start, AddPeer, UpdatePeerEndpoint, getNodeIP, Stop and the getters. A call on the nil
-- device, before Start, panics. What fmt.Errorf adds to an error is left out.
pub mod Peers
pub mod Offers
pub mod Starting
pub mod NodeIp
use nexus_stun.Common.{
  ℕ, Bool, true, false, Option, none, some, List, [], ◌∷◌, ◌++◌, ◌==◌, if◌then◌else◌, length, Bytes,
  codes, equal, Outcome, ok, err, panic, out_of_fuel,
}
use nexus_stun.Common.Dict.{Dict, lookup, insert}
use nexus_stun.Common.Ip.{ipv4}
use nexus_stun.Common.Text.{decimal}
use nexus_stun.Config.{Config, PeerConf}
use nexus_stun.Config.Loading.{get_other_peers}
use nexus_stun.WireGuard.Settings.{setting, peer_config, endpoint_config, device_config}
use nexus_stun.WireGuard.{PeerState, WireGuardManager, Device, Base64}

pub data WireGuardError : Type 0 where
  invalid_public_key unknown_peer device_refused no_tun : WireGuardError

-- the peer that AddPeer enters
abbrev pub new_peer : Bytes → Bytes → Bytes → PeerState
new_peer name public_key endpoint = record {
  name = name;
  public_key = public_key;
  allowed_ips = [];
  endpoint = endpoint;
  latency = 0;
  last_handshake = 0;
  bytes_tx = 0;
  bytes_rx = 0;
  connected = false;
  via_relay = false;
}

abbrev pub key_of : Option Bytes → Option Bytes
key_of none = none
key_of (some key) = if length key == 32 then some key else none

abbrev pub default_ip : Bytes → Bytes
default_ip name =
    if equal name (codes "dagda")
    then ipv4 100 64 0 1
    else if equal name (codes "brigid")
    then ipv4 100 64 0 2
    else if equal name (codes "cernunnos")
    then ipv4 100 64 0 3
    else if equal name (codes "aengus")
    then ipv4 100 64 0 4
    else ipv4 100 64 0 1

abbrev pub ip_or : Option Bytes → Bytes → Bytes
ip_or none other = other
ip_or (some ip) other = ip

module _ (parse_cidr : Bytes → Option Bytes) where
  unfoldable pub first_ip : List Bytes → Option Bytes
  first_ip [] = none
  first_ip (cidr ∷ _) = parse_cidr cidr

  -- the first allowed address, where it is one
  unfoldable pub own_ip : Option PeerConf → Option Bytes
  unfolding first_ip
  own_ip none = none
  own_ip (some peer) = first_ip peer.allowed_ips

  unfoldable pub get_node_ip : Config → Bytes
  unfolding own_ip
  get_node_ip cfg = ip_or (own_ip (lookup cfg.node_name cfg.peers)) (default_ip cfg.node_name)

module _ {D : Type 0} (device : Device D) (base64 : Base64) where
  unfoldable pub ipc_set : Option D → Bytes → Outcome WireGuardError (Unit {0}) × Option D
  ipc_set none config = (panic, none)
  ipc_set (some d) config =
      let (works, d') = device.ipc_set d config in
      (if works then ok tt else err device_refused, some d')

  -- behind the call of the device: only where it works is the peer entered
  unfoldable pub enter :
      WireGuardManager D
      → Bytes
      → PeerState
      → Outcome WireGuardError (Unit {0}) × Option D
      → Outcome WireGuardError (Unit {0}) × WireGuardManager D
  enter m name peer (ok u, tun) = (ok u, record m { tun = tun; peers = insert name peer m.peers })
  enter m name peer (err e, tun) = (err e, record m { tun = tun })
  enter m name peer (panic, tun) = (panic, record m { tun = tun })
  enter m name peer (out_of_fuel, tun) = (out_of_fuel, record m { tun = tun })

  unfoldable pub add_keyed :
      WireGuardManager D
      → Bytes
      → Bytes
      → List Bytes
      → Bytes
      → Bytes
      → Option Bytes
      → Outcome WireGuardError (Unit {0}) × WireGuardManager D
  unfolding enter
  add_keyed m name public_key allowed_ips endpoint fallback none = (err invalid_public_key, m)
  add_keyed m name public_key allowed_ips endpoint fallback (some key) =
      enter m name (new_peer name key endpoint)
        (ipc_set m.tun (peer_config public_key allowed_ips endpoint fallback))

  -- The public key is base64, and is decoded for the peer's state.
  unfoldable pub add_peer :
      WireGuardManager D
      → Bytes
      → Bytes
      → List Bytes
      → Bytes
      → Bytes
      → Outcome WireGuardError (Unit {0}) × WireGuardManager D
  unfolding add_keyed
  add_peer m name public_key allowed_ips endpoint fallback =
      add_keyed m name public_key allowed_ips endpoint fallback (key_of (base64.decode public_key))

  unfoldable pub update_entry :
      WireGuardManager D
      → Bytes
      → Bytes
      → Bool
      → Option PeerState
      → Outcome WireGuardError (Unit {0}) × WireGuardManager D
  unfolding enter
  update_entry m name endpoint via_relay none = (err unknown_peer, m)
  update_entry m name endpoint via_relay (some peer) =
      enter m name (record peer { endpoint = endpoint; via_relay = via_relay })
        (ipc_set m.tun (endpoint_config (base64.encode peer.public_key) endpoint))

  -- The entry is changed through its pointer: it stays under the name it was found by.
  unfoldable pub update_peer_endpoint :
      WireGuardManager D
      → Bytes
      → Bytes
      → Bool
      → Outcome WireGuardError (Unit {0}) × WireGuardManager D
  unfolding update_entry
  update_peer_endpoint m name endpoint via_relay =
      update_entry m name endpoint via_relay (lookup name m.peers)

  -- The loop of Start: a peer with no key is skipped, and one that cannot be added is logged.
  unfoldable pub add_peers : WireGuardManager D → Dict PeerConf → WireGuardManager D
  add_peers m [] = m
  add_peers m ((name, peer) ∷ peers) =
      add_peers
        (if equal peer.public_key []
          then m
          else (add_peer m name peer.public_key peer.allowed_ips peer.endpoint
              peer.tailscale_fallback).1)
        peers

  unfoldable pub bring_up :
      WireGuardManager D → Option D → Outcome WireGuardError (Unit {0}) × WireGuardManager D
  bring_up m none = (panic, m)
  bring_up m (some d) =
      let (works, d') = device.up d in
      (if works then ok tt else err device_refused, record m { tun = some d' })

  -- Start with a device: its key and port, the peers, and up.
  unfoldable pub start_with :
      WireGuardManager D → D → Outcome WireGuardError (Unit {0}) × WireGuardManager D
  unfolding bring_up
  start_with m d =
      let (works, d') =
        device.ipc_set d
          (device_config (base64.encode m.private_key) m.cfg.wire_guard.listen_port) in
      if works
      then (let m' = add_peers (record m { tun = some d' }) (get_other_peers m.cfg) in
          bring_up m' m'.tun)
      else (err device_refused, record m { tun = some d' })

  unfoldable pub start_on :
      WireGuardManager D → Option D → Outcome WireGuardError (Unit {0}) × WireGuardManager D
  unfolding start_with
  start_on m none = (err no_tun, m)
  start_on m (some d) = start_with m d

  unfoldable pub start :
      (Bytes → Option Bytes)
      → WireGuardManager D
      → Outcome WireGuardError (Unit {0}) × WireGuardManager D
  unfolding start_on
  start parse_cidr m =
      start_on m (device.create (get_node_ip parse_cidr m.cfg) m.cfg.wire_guard.mtu)

module _ {D : Type 0} where
  unfoldable pub get_public_key : WireGuardManager D → Bytes
  get_public_key m = m.public_key

  unfoldable pub get_peer_states : WireGuardManager D → Dict PeerState
  get_peer_states m = m.peers

  -- the device that is closed
  unfoldable pub stop : WireGuardManager D → Option D
  stop m = m.tun
