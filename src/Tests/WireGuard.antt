-- ===== src/Tests/WireGuard.antt =====
-- Runs of wireguard.go, and its theorems at concrete values.
use nexus_stun.Common.{
  ℕ, arith, ok, false, ◌⊎◌, ◌≡◌, ◌≢◌, refl, true, none, some, List, [], ◌∷◌, ◌++◌, Bytes, codes,
  equal, equal_iff, err,
}
use nexus_stun.Common.Dict.{Dict, lookup, insert, IsUnique, lookup-insert_self, lookup-insert_ne}
use nexus_stun.Common.Ip.{ipv4}
use nexus_stun.Config.{Config, PeerConf}
use nexus_stun.Config.Loading.{get_peer}
use nexus_stun.Crypto.{zeros_of}
use nexus_stun.Common.Ip.{to4}
use nexus_stun.Common.Text.{split}
use nexus_stun.Dns.Names.{IsLabel}
use nexus_stun.Dns.Server.Packets.{IsQuery, query_packet}
use nexus_stun.Dns.Server.Queries.{node_question}
use nexus_stun.Dns.Server.Replies.{IsAnswer}
use nexus_stun.Dns.Server.{
  DnsServer, DnsQuestion, reply, ttl_of, handle_query, new_dns_server, add_peer as add_record_of,
  add_record, add_configured, add_configured_peers,
}
use nexus_stun.Tests.Config.{peer, file}
use nexus_stun.WireGuard.{PeerState, WireGuardManager, Device, Base64}
use nexus_stun.WireGuard.Keys.{Os, KeyError, load_or_generate_keys}
use nexus_stun.WireGuard.Keys.Loading.{IsFileSystem, load_or_generate_keys_fresh}
use nexus_stun.WireGuard.Settings.{peer_config, device_config}
use nexus_stun.WireGuard.Settings.Reading.{read_settings, is_free-Lacks, read_settings-peer_config}
use nexus_stun.WireGuard.Manager.{
  own_ip, first_ip, add_peer, add_keyed, enter, ipc_set, update_peer_endpoint, update_entry,
  new_peer, start, get_node_ip,
}
use nexus_stun.WireGuard.Manager.Peers.{
  Call, add, update_endpoint, on_call, on_calls, IsFiled, on_calls-IsFiled,
}
use nexus_stun.WireGuard.Manager.Starting.{start_peers}
use nexus_stun.WireGuard.Manager.Offers.{Offered}
use nexus_stun.WireGuard.Manager.NodeIp.{handle_query-get_node_ip}

-- an encoding that changes nothing
abbrev plain : Base64
plain = record { encode = λ b. b; decode = λ b. some b }

-- a file system on which every call works, with 32 zero bytes of randomness
abbrev disk : Os (Dict Bytes)
disk = record {
  read_random = λ s. (some (zeros_of 32), s);
  read_file = λ s p. lookup p s;
  mkdir_all = λ s d. (true, s);
  write_file = λ s p c. (true, insert p c s);
}

disk-IsFileSystem : IsFileSystem disk
disk-IsFileSystem = record {
  read_random_keeps = λ s q. refl;
  mkdir_keeps = λ s d q. refl;
  write_keeps = λ s p c q h. lookup-insert_ne p q c s h;
  write_reads = λ s p c h. lookup-insert_self p c s;
}

abbrev join : Bytes → Bytes → Bytes
join d f = d ++ (b'/' ∷ f)

private_ne : join (codes "k") (codes "private.key") ≢ join (codes "k") (codes "a" ++ codes ".key")
unfolding equal
private_ne e =
    let same : equal (codes "k/private.key") (codes "k/a.key") ≡ true =
      (equal_iff (codes "k/private.key") (codes "k/a.key")).1 e in
    absurd (cc same)

public_ne : join (codes "k") (codes "public.key") ≢ join (codes "k") (codes "a" ++ codes ".key")
unfolding equal
public_ne e =
    let same : equal (codes "k/public.key") (codes "k/a.key") ≡ true =
      (equal_iff (codes "k/public.key") (codes "k/a.key")).1 e in
    absurd (cc same)

abbrev no_files : Dict Bytes
no_files = []

no_key : lookup (join (codes "k") (codes "a" ++ codes ".key")) no_files ≡ none
unfolding lookup
no_key = refl

load_or_generate_keys_fresh_example :
    (e : KeyError) × ((load_or_generate_keys disk plain
        (λ k. k)
        join
        (codes "k")
        (codes "a")
        no_files).0
      ≡ err e)
load_or_generate_keys_fresh_example =
    load_or_generate_keys_fresh disk plain (λ k. k) join (codes "k") (codes "a") no_files
      disk-IsFileSystem private_ne public_ne no_key

-- a device that takes every configuration and keeps them
abbrev device : Device (List Bytes)
device = record { create = λ ip mtu. some []; ipc_set = λ d c. (true, c ∷ d); up = λ d. (true, d) }

abbrev key : Bytes
key = zeros_of 32

abbrev configured_file : Config
configured_file = record file {
  peers = (codes "a", peer) ∷ (codes "b", record peer { public_key = key }) ∷ [];
}

abbrev manager : WireGuardManager (List Bytes)
manager = record {
  cfg = configured_file;
  tun = some [];
  private_key = key;
  public_key = key;
  peers = [];
}

abbrev calls : List Call
calls =
    add (codes "b") key [] (codes "10.0.0.1:1") []
    ∷ update_endpoint (codes "b") (codes "10.0.0.2:2") true
    ∷ []

abbrev b_state : PeerState
b_state = record (new_peer (codes "b") key (codes "10.0.0.2:2")) { via_relay = true }

b_called : lookup (codes "b") (on_calls device plain manager calls).peers ≡ some b_state
unfolding lookup insert on_calls on_call add_peer add_keyed enter ipc_set update_peer_endpoint
    update_entry equal
b_called = refl

on_calls-IsFiled_example : IsFiled (codes "b") b_state
on_calls-IsFiled_example =
    on_calls-IsFiled device plain manager calls (codes "b") b_state refl b_called

start_peers_example :
    let entry = lookup (codes "b") (start device plain (λ s. none) manager).1.peers in
    ((conf : PeerConf) × (codes "b" ≢ codes "a")
      × (get_peer configured_file (codes "b") ≡ some conf)
      × Offered device plain (codes "b") conf none entry)
    ⊎ ((entry ≡ none)
        × ((codes "b" ≡ codes "a")
            ⊎ (get_peer configured_file (codes "b") ≡ none)
            ⊎ (device.create (get_node_ip (λ s. none) configured_file) 1420 ≡ none)
            ⊎ ((d : List Bytes) × (device.create (get_node_ip (λ s. none) configured_file) 1420
                  ≡ some d)
                × ((device.ipc_set d (device_config manager.private_key 51820)).0 ≡ false))))
start_peers_example = start_peers device plain (λ s. none) manager (codes "b") refl

peers-IsUnique : IsUnique configured_file.peers
unfolding lookup equal
peers-IsUnique = (refl, (refl, tt))

abbrev named_file : Config
named_file = record configured_file {
  dns = record { listen_addr = []; domain = codes "n.l"; upstream = []; cache_ttl = 300 };
}

abbrev started : DnsServer
started =
    add_configured_peers (λ s. some (ipv4 100 64 0 2)) (new_dns_server named_file.dns)
      named_file.peers

abbrev own_question : DnsQuestion
own_question = node_question started (codes "a") 1

started-cfg : started.cfg ≡ named_file.dns
unfolding add_configured_peers add_configured add_record add_record_of new_dns_server
started-cfg = refl

abbrev flags : Bytes
flags = 1 ∷ 0 ∷ []

abbrev counts : Bytes
counts = 0 ∷ 0 ∷ 0 ∷ 0 ∷ 0 ∷ 0 ∷ []

single-IsLabel : (b : ℕ) → IsLabel (b ∷ [])
single-IsLabel b = record { some_byte = omega arith; below_pointers = omega arith }

own_question-IsQuery : IsQuery 4 77 flags counts own_question
unfolding split add_configured_peers add_configured add_record add_record_of new_dns_server
own_question-IsQuery = record {
  id_sized = omega arith;
  flags_sized = refl;
  counts_sized = refl;
  name = (single-IsLabel b'a', (single-IsLabel b'n', (single-IsLabel b'l', tt)));
  fuel = omega arith;
  type_sized = omega arith;
  class_sized = omega arith;
}

own_ip_known :
    own_ip (λ s. some (ipv4 100 64 0 2)) (lookup named_file.node_name named_file.peers)
    ≡ some (ipv4 100 64 0 2)
unfolding own_ip first_ip lookup equal
own_ip_known = refl

handle_query-get_node_ip_example :
    (out : Bytes) × (handle_query 4 started (query_packet 77 flags counts own_question [])
      ≡ ok (reply out))
    × IsAnswer 4 out 77 own_question
        (ttl_of started)
        (to4 (get_node_ip (λ s. some (ipv4 100 64 0 2)) named_file))
handle_query-get_node_ip_example =
    handle_query-get_node_ip (λ s. some (ipv4 100 64 0 2)) 4 77 flags counts named_file
      (ipv4 100 64 0 2) 1 [] peers-IsUnique own_question-IsQuery own_ip_known

read_settings-peer_config_example :
    read_settings (peer_config (codes "AA==") (codes "100.64.0.2/32" ∷ []) [] (codes "b:51820"))
    ≡ (codes "public_key", codes "AA==")
      ∷ (codes "endpoint", codes "b:51820")
      ∷ (codes "allowed_ip", codes "100.64.0.2/32")
      ∷ (codes "persistent_keepalive_interval", codes "25")
      ∷ []
read_settings-peer_config_example =
    read_settings-peer_config (codes "AA==") (codes "100.64.0.2/32" ∷ []) [] (codes "b:51820")
      (is_free-Lacks b'\n' (codes "AA==") refl)
      (is_free-Lacks b'\n' (codes "100.64.0.2/32") refl, tt) tt
      (is_free-Lacks b'\n' (codes "b:51820") refl)
