-- ===== src/Stun/Client.antt =====
-- stun.go: the client's state and its calls. The network and the clock are parameters: a world `W`
-- that `exchange` moves on, which answers a request to a server.
pub mod Discovery
use nexus_stun.Common.{
  ℕ, zero, suc, ◌<◌, ◌≡◌, Bool, true, false, ◌&&◌, Option, none, some, List, [], ◌∷◌, ◌==◌, ltb,
  if◌then◌else◌, length, take, get_elem?, Bytes, equal, Outcome, ok, err, panic, out_of_fuel, ◌>>=◌,
}
use nexus_stun.Common.Dict.{Dict, insert}
use nexus_stun.Common.Ip.{ip_equal}
use nexus_stun.Config.{StunConf}
use nexus_stun.Stun.{
  NatType, nat_none, nat_unknown, nat_full_cone, nat_symmetric, StunError, dial_failed, send_failed,
  read_failed, StunResult, build_binding_request, parse_binding_response,
}

pub record StunClient : Type 0 where
  pub cfg : StunConf
  pub results : Dict StunResult
  pub nat_type : NatType
  pub public_ip : Bytes
  pub public_port : ℕ

unfoldable pub new_stun_client : StunConf → StunClient
new_stun_client cfg = record {
  cfg = cfg;
  results = [];
  nat_type = nat_none;
  public_ip = [];
  public_port = 0;
}

-- What comes of a dial, a write and a read: the failing call, or the datagram and the time taken.
pub data Reply : Type 0 where
  no_dial no_send no_read : Reply
  datagram : Bytes → ℕ → Reply

-- A read into the 1024-byte buffer drops what does not fit.
unfoldable pub read_reply : Bytes → Reply → Outcome StunError StunResult
read_reply server no_dial = err dial_failed
read_reply server no_send = err send_failed
read_reply server no_read = err read_failed
read_reply server (datagram d rtt) = do
  result ← parse_binding_response (take 1024 d)
  ok (record result { server = server; rtt = rtt })

pub data DiscoverError : Type 0 where
  all_servers_failed : Option StunError → DiscoverError

unfoldable pub get_public_endpoint : StunClient → Bytes × ℕ
get_public_endpoint s = (s.public_ip, s.public_port)

unfoldable pub get_nat_type : StunClient → NatType
get_nat_type s = s.nat_type

-- the client after a successful request
unfoldable pub record_result : StunClient → Bytes → StunResult → StunClient
record_result s server result = record s {
  results = insert server result s.results;
  public_ip = result.mapped_ip;
  public_port = result.mapped_port;
}

abbrev pub same_mapping : StunResult → StunResult → Bool
same_mapping r r' = ip_equal r.mapped_ip r'.mapped_ip && r.mapped_port == r'.mapped_port

-- the verdict of detectNATType on the second server's answer
unfoldable pub classify : StunResult → Outcome StunError StunResult → NatType
classify first (ok second) = if same_mapping first second then nat_full_cone else nat_symmetric
classify first _ = nat_unknown

-- len(servers) > 1 && server == servers[0]
unfoldable pub is_first_of_several : Bytes → List Bytes → Bool
is_first_of_several server (s ∷ _ ∷ _) = equal server s
is_first_of_several server _ = false

module _ {W : Type 0} (exchange : W → Bytes → Bytes → Reply × W) where
  unfoldable pub binding_request : Bytes → W → Outcome StunError StunResult × W
  binding_request server w =
      let (reply, w') = exchange w server build_binding_request in (read_reply server reply, w')

  -- with the second server's name, if there is one
  unfoldable pub detect_with : Option Bytes → StunClient → StunResult → W → StunClient × W
  detect_with none s first w = (record s { nat_type = nat_unknown }, w)
  detect_with (some server) s first w =
      let (second, w') = binding_request server w in
      (record s { nat_type = classify first second }, w')

  unfoldable pub detect_nat_type : StunClient → StunResult → W → StunClient × W
  detect_nat_type s first w = detect_with (get_elem? s.cfg.servers 1) s first w

  -- what follows the first answer
  unfoldable pub accept : StunClient → Bytes → StunResult → W → StunClient × W
  accept s server result w =
      let s' = record_result s server result in
      if is_first_of_several server s.cfg.servers then detect_nat_type s' result w else (s', w)

  -- The loop over the servers, with `lastErr`.
  unfoldable pub discover_loop :
      List Bytes
      → StunClient
      → Option StunError
      → W
      → Outcome DiscoverError StunResult × StunClient × W
  discover_loop [] s last_err w = (err (all_servers_failed last_err), s, w)
  discover_loop (server ∷ servers) s last_err w =
      let (result, w') = binding_request server w in
      elim result [
        | ok r ↦ let (s', w'') = accept s server r w' in (ok r, s', w'')
        | err e ↦ discover_loop servers s (some e) w'
        | panic ↦ (panic, s, w')
        | out_of_fuel ↦ (out_of_fuel, s, w')
      ]

  unfoldable pub discover : StunClient → W → Outcome DiscoverError StunResult × StunClient × W
  discover s w = discover_loop s.cfg.servers s none w

  -- RunPeriodicDiscovery: one discovery for each tick before the context is done
  unfoldable pub run_periodic_discovery : ℕ → StunClient → W → StunClient × W
  run_periodic_discovery zero s w = (s, w)
  run_periodic_discovery (suc ticks) s w =
      let (_, s', w') = discover s w in run_periodic_discovery ticks s' w'
