-- ===== src/Dns/Server.antt =====
-- dns.go: the peer records, the handling of a query and the packets that answer it. The order of
-- `range d.peers` is the list's. Go's net.ParseCIDR and the exchange with an upstream server are
-- parameters; a packet that the code drops is `ignore`.
pub mod Layout
pub mod Replies
pub mod MultiReplies
pub mod Packets
pub mod Queries
pub mod Safety
pub mod Serving
pub mod Records
use nexus_stun.Common.{
  ℕ, zero, suc, ◌+◌, ◌%◌, ◌^◌, Bool, true, false, ◌&&◌, ◌||◌, Option, none, some, List, [], ◌∷◌,
  ◌++◌, map, ◌==◌, leb, ltb, if◌then◌else◌, length, take, Bytes, codes, slice, uint16, put_uint16,
  put_uint32, equal, Outcome, ok, err, panic, out_of_fuel, ◌>>=◌, ◌>>◌, reject,
}
use nexus_stun.Common.Dict.{Dict, lookup, insert, delete}
use nexus_stun.Common.Ip.{to4}
use nexus_stun.Common.Text.{has_suffix, decimal}
use nexus_stun.Config.{DnsConf, PeerConf}
use nexus_stun.Dns.{dot, DnsError, question_out_of_bounds, parse_dns_name, encode_dns_name}

pub record DnsServer : Type 0 where
  pub cfg : DnsConf
  pub peers : Dict Bytes

pub record DnsQuestion : Type 0 where
  pub name : Bytes
  pub qtype : ℕ
  pub qclass : ℕ

unfoldable pub new_dns_server : DnsConf → DnsServer
new_dns_server cfg = record { cfg = cfg; peers = [] }

unfoldable pub add_peer : DnsServer → Bytes → Bytes → DnsServer
add_peer s hostname ip = record s { peers = insert hostname ip s.peers }

unfoldable pub remove_peer : DnsServer → Bytes → DnsServer
remove_peer s hostname = record s { peers = delete hostname s.peers }

-- the record of a configured peer, where its address is one
unfoldable pub add_record : DnsServer → Bytes → Option Bytes → DnsServer
unfolding add_peer
add_record s name none = s
add_record s name (some ip) = add_peer s (name ++ (dot ∷ s.cfg.domain)) ip

module _ (parse_cidr : Bytes → Option Bytes) where
  -- one peer of the configuration, by its first allowed address
  unfoldable pub add_configured : DnsServer → Bytes → List Bytes → DnsServer
  unfolding add_record
  add_configured s name [] = s
  add_configured s name (cidr ∷ _) = add_record s name (parse_cidr cidr)

  -- the loop of Start over the configured peers
  unfoldable pub add_configured_peers : DnsServer → Dict PeerConf → DnsServer
  add_configured_peers s [] = s
  add_configured_peers s ((name, peer) ∷ peers) =
      add_configured_peers (add_configured s name peer.allowed_ips) peers

-- the name in the log of a query
abbrev pub dns_type_name : ℕ → Bytes
dns_type_name qtype =
    if qtype == 1
    then codes "A"
    else if qtype == 28
    then codes "AAAA"
    else if qtype == 5
    then codes "CNAME"
    else if qtype == 15
    then codes "MX"
    else if qtype == 16
    then codes "TXT"
    else if qtype == 255
    then codes "ANY"
    else codes "TYPE" ++ decimal qtype

-- The answer record: a pointer to the question's name, type A, class IN.
unfoldable pub answer_onto : ℕ → Bytes → Bytes → Bytes
answer_onto ttl ip rest =
    0xC0 ∷ 0x0C ∷ 0x00 ∷ 0x01 ∷ 0x00 ∷ 0x01 ∷ (put_uint32 ttl ++ (0x00 ∷ 0x04 ∷ (to4 ip ++ rest)))

unfoldable pub question_onto : DnsQuestion → Bytes → Bytes
question_onto q rest =
    encode_dns_name q.name ++ (put_uint16 q.qtype ++ (put_uint16 q.qclass ++ rest))

unfoldable pub build_response : ℕ → DnsQuestion → Bytes → ℕ → Bytes
unfolding question_onto
build_response query_id q ip ttl =
    put_uint16 query_id
    ++ (0x81
        ∷ 0x80
        ∷ 0x00
        ∷ 0x01
        ∷ 0x00
        ∷ 0x01
        ∷ 0x00
        ∷ 0x00
        ∷ 0x00
        ∷ 0x00
        ∷ question_onto q (answer_onto ttl ip []))

unfoldable pub answers : ℕ → List Bytes → Bytes
answers ttl [] = []
answers ttl (ip ∷ ips) = answer_onto ttl ip (answers ttl ips)

unfoldable pub build_multi_response : ℕ → DnsQuestion → List Bytes → ℕ → Bytes
unfolding question_onto
build_multi_response query_id q ips ttl =
    put_uint16 query_id
    ++ (0x81
        ∷ 0x80
        ∷ 0x00
        ∷ 0x01
        ∷ (put_uint16 (length ips)
            ++ (0x00 ∷ 0x00 ∷ 0x00 ∷ 0x00 ∷ question_onto q (answers ttl ips))))

unfoldable pub build_nxdomain : ℕ → DnsQuestion → Bytes
unfolding question_onto
build_nxdomain query_id q =
    put_uint16 query_id
    ++ (0x81 ∷ 0x83 ∷ 0x00 ∷ 0x01 ∷ 0x00 ∷ 0x00 ∷ 0x00 ∷ 0x00 ∷ 0x00 ∷ 0x00 ∷ question_onto q [])

-- uint32(d.cfg.DNS.CacheTTL)
abbrev pub ttl_of : DnsServer → ℕ
ttl_of s = s.cfg.cache_ttl % 2 ^ 32

abbrev pub addresses : Dict Bytes → List Bytes
addresses = map (λ p. p.1)

-- the wildcard branch: all peers, or NXDOMAIN where there are none
unfoldable pub wildcard_response : DnsServer → ℕ → DnsQuestion → Bytes
wildcard_response s query_id q =
    if equal q.name s.cfg.domain || equal q.name (b'*' ∷ dot ∷ s.cfg.domain)
    then (if ltb 0 (length s.peers)
        then build_multi_response query_id q (addresses s.peers) (ttl_of s)
        else build_nxdomain query_id q)
    else build_nxdomain query_id q

-- by the record that was looked up
unfoldable pub respond : DnsServer → ℕ → DnsQuestion → Option Bytes → Bytes
respond s query_id q (some ip) = build_response query_id q ip (ttl_of s)
respond s query_id q none = wildcard_response s query_id q

-- The packet that handleNexusQuery writes back.
unfoldable pub handle_nexus_query : DnsServer → ℕ → DnsQuestion → Bytes
unfolding respond
handle_nexus_query s query_id q = respond s query_id q (lookup q.name s.peers)

-- What handleQuery does with a packet: nothing, a reply, or a query to the upstream servers.
pub data Reaction : Type 0 where
  ignore : Reaction
  reply : Bytes → Reaction
  upstream : Bytes → Reaction

unfoldable pub dispatch_question : DnsServer → Bytes → ℕ → DnsQuestion → Reaction
dispatch_question s d query_id q =
    if has_suffix q.name (dot ∷ s.cfg.domain) && q.qtype == 1
    then reply (handle_nexus_query s query_id q)
    else upstream d

-- one round of the question loop
unfoldable pub read_question : ℕ → Bytes → ℕ → Outcome DnsError (DnsQuestion × ℕ)
read_question f d offset = do
  (name, o) ← parse_dns_name f d offset
  reject (ltb (length d) (o + 4)) question_out_of_bounds
  t ← slice d o (o + 2)
  qtype ← uint16 t
  c ← slice d (o + 2) (o + 4)
  qclass ← uint16 c
  ok (record { name = name; qtype = qtype; qclass = qclass }, o + 4)

-- the question loop: the rounds left, the offset, the questions so far
unfoldable pub questions_loop :
    ℕ → ℕ → Bytes → ℕ → List DnsQuestion → Outcome DnsError (List DnsQuestion)
questions_loop f zero d offset qs = ok qs
questions_loop f (suc n) d offset qs =
    if ltb offset (length d)
    then read_question f d offset >>= (λ (q, o). questions_loop f n d o (qs ++ q ∷ []))
    else ok qs

-- what follows the loop; an error in it drops the packet
unfoldable pub on_questions :
    DnsServer → Bytes → ℕ → Outcome DnsError (List DnsQuestion) → Outcome DnsError Reaction
on_questions s d query_id (ok []) = ok ignore
on_questions s d query_id (ok (q ∷ _)) = ok (dispatch_question s d query_id q)
on_questions s d query_id (err e) = ok ignore
on_questions s d query_id panic = panic
on_questions s d query_id out_of_fuel = out_of_fuel

-- behind the header
unfoldable pub handle_counted : ℕ → DnsServer → Bytes → ℕ → ℕ → Outcome DnsError Reaction
handle_counted f s d query_id qd_count =
    if qd_count == 0
    then ok ignore
    else on_questions s d query_id (questions_loop f qd_count d 12 [])

-- The fuel is for each name of the packet.
unfoldable pub handle_query : ℕ → DnsServer → Bytes → Outcome DnsError Reaction
handle_query f s d = if ltb (length d) 12 then ok ignore else (do
  h ← slice d 0 2
  query_id ← uint16 h
  c ← slice d 4 6
  qd_count ← uint16 c
  handle_counted f s d query_id qd_count)

module _ {W : Type 0} (ask : W → Bytes → Bytes → Option Bytes × W) where
  -- The first upstream server that answers gives the reply; its packet is read into 4096 bytes.
  unfoldable pub forward_to_upstream : List Bytes → Bytes → W → Option Bytes × W
  forward_to_upstream [] d w = (none, w)
  forward_to_upstream (server ∷ servers) d w =
      let (answer, w') = ask w server d in
      elim answer [
        | none ↦ forward_to_upstream servers d w'
        | some packet ↦ (some (take 4096 packet), w')
      ]
