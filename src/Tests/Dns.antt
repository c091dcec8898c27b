-- ===== src/Tests/Dns.antt =====
-- Runs of dns.go, and its theorems at concrete values.
use nexus_stun.Common.{
  ◌≢◌, ◌⊎◌, none, some, true, equal_iff, ℕ, ◌+◌, ◌≡◌, ◌<◌, refl, List, [], ◌∷◌, ◌++◌, Bytes, codes,
  length, ok, out_of_fuel, Returns, ◌>>=◌, All, arith, equal, slice, uint16, put_uint16,
}
use nexus_stun.Common.Ip.{to4, ipv4, to4-ipv4}
use nexus_stun.Common.Text.{split}
use nexus_stun.Dns.{dot, DnsError, parse_dns_name, parse_dns_name_loop, encode_dns_name}
use nexus_stun.Dns.Names.{IsLabel, IsName, parse_dns_name-encode_dns_name}
use nexus_stun.Dns.Termination.{parse_dns_name-Returns}
use nexus_stun.Dns.Cycles.{labels_onto, pointer}
use nexus_stun.Dns.Server.{
  DnsServer, DnsQuestion, new_dns_server, remove_peer, ttl_of, reply, add_peer, build_response,
  build_multi_response, handle_query,
}
use nexus_stun.Dns.Server.Layout.{records_at}
use nexus_stun.Dns.Server.MultiReplies.{build_multi_response_lem}
use nexus_stun.Dns.Server.Replies.{IsAnswer, IsNxdomain, build_response-IsAnswer}
use nexus_stun.Dns.Server.Packets.{IsQuery, query_packet}
use nexus_stun.Dns.Server.Records.{
  Change, added, removed, on_change, on_changes, account, handle_query_refines,
}
use nexus_stun.Dns.Server.Queries.{node_question, handle_query-add_peer}
use nexus_stun.Dns.Server.Serving.{World, Reach, handled_late}
use nexus_stun.Dns.Server.Safety.{Survives, handle_query-Survives, handle_query_cycle}

abbrev host_name : Bytes
host_name = codes "a.n.l"

single-IsLabel : (b : ℕ) → IsLabel (b ∷ [])
single-IsLabel b = record { some_byte = omega arith; below_pointers = omega arith }

host_name-IsName : IsName host_name
unfolding split
host_name-IsName = (single-IsLabel b'a', (single-IsLabel b'n', (single-IsLabel b'l', tt)))

host_name_fuel : length (split dot host_name) < 4
unfolding split
host_name_fuel = omega arith

parse_dns_name-encode_dns_name_example :
    parse_dns_name 4 ((7 ∷ 7 ∷ []) ++ (encode_dns_name host_name ++ (1 ∷ []))) 2
    ≡ ok (host_name, 2 + length (encode_dns_name host_name))
parse_dns_name-encode_dns_name_example =
    parse_dns_name-encode_dns_name 4 (7 ∷ 7 ∷ []) host_name (1 ∷ []) host_name-IsName host_name_fuel

parse_dns_name-Returns_example : Returns (parse_dns_name_loop 4 (1 ∷ 97 ∷ 0 ∷ []) 0 [])
parse_dns_name-Returns_example =
    parse_dns_name-Returns 4 (1 ∷ 97 ∷ 0 ∷ []) 0 [] (omega arith, (omega arith, (omega arith, tt)))
      (omega arith) (omega arith)

abbrev question : DnsQuestion
question = record { name = host_name; qtype = 1; qclass = 1 }

build_response-IsAnswer_example :
    IsAnswer 4
      (build_response 77 question (ipv4 10 0 0 2) 300)
      77
      question
      300
      (to4 (ipv4 10 0 0 2))
build_response-IsAnswer_example =
    build_response-IsAnswer 4 77 question (ipv4 10 0 0 2) 300 host_name-IsName host_name_fuel

-- 2001:db8::1
abbrev ipv6 : Bytes
ipv6 = 0x20 ∷ 0x01 ∷ 0x0d ∷ 0xb8 ∷ 0 ∷ 0 ∷ 0 ∷ 0 ∷ 0 ∷ 0 ∷ 0 ∷ 0 ∷ 0 ∷ 0 ∷ 0 ∷ 1 ∷ []

to4-ipv6 : to4 ipv6 ≡ []
unfolding to4 equal
to4-ipv6 = refl

abbrev two_ips : List Bytes
two_ips = (10 ∷ 0 ∷ 0 ∷ 2 ∷ []) ∷ (10 ∷ 0 ∷ 0 ∷ 3 ∷ []) ∷ []

two_ips-four : All (λ ip. length (to4 ip) ≡ 4) two_ips
unfolding to4
two_ips-four = (refl, (refl, tt))

build_multi_response_lem_example :
    let d = build_multi_response 77 question two_ips 300 in
    ((slice {E = DnsError} d 6 8 >>= uint16) ≡ ok 2)
    × (parse_dns_name 4 d 12 ≡ ok (host_name, 12 + length (encode_dns_name host_name)))
    × (slice {E = DnsError} d (records_at question + 16 + 12) (records_at question + 16 + 16)
        ≡ ok (to4 (10 ∷ 0 ∷ 0 ∷ 3 ∷ [])))
    × (length d ≡ records_at question + 32)
build_multi_response_lem_example =
    build_multi_response_lem 4 77 question ((10 ∷ 0 ∷ 0 ∷ 2 ∷ []) ∷ []) (10 ∷ 0 ∷ 0 ∷ 3 ∷ []) [] 300
      host_name-IsName host_name_fuel (omega arith) two_ips-four

abbrev node : DnsServer
node = record {
  cfg = record { listen_addr = []; domain = codes "n.l"; upstream = []; cache_ttl = 300 };
  peers = [];
}

abbrev flags : Bytes
flags = 1 ∷ 0 ∷ []

abbrev counts : Bytes
counts = 0 ∷ 0 ∷ 0 ∷ 0 ∷ 0 ∷ 0 ∷ []

question-IsQuery : IsQuery 4 77 flags counts question
question-IsQuery = record {
  id_sized = omega arith;
  flags_sized = refl;
  counts_sized = refl;
  name = host_name-IsName;
  fuel = host_name_fuel;
  type_sized = omega arith;
  class_sized = omega arith;
}

handle_query-add_peer_example :
    (out : Bytes) × (handle_query 4
        (add_peer node host_name (ipv4 10 0 0 2))
        (query_packet 77 flags counts question [])
      ≡ ok (reply out))
    × IsAnswer 4 out 77 question 300 (10 ∷ 0 ∷ 0 ∷ 2 ∷ [])
handle_query-add_peer_example =
    handle_query-add_peer 4 node 77 flags counts (codes "a") (ipv4 10 0 0 2) 10 0 0 2 1 []
      (to4-ipv4 10 0 0 2) question-IsQuery

-- a is recorded, and removed again.
abbrev changes : List Change
changes = added (codes "a.n.l") (ipv4 10 0 0 2) ∷ removed (codes "a.n.l") ∷ []

abbrev changed : DnsServer
changed = on_changes (new_dns_server node.cfg) changes

changed_question-IsQuery : IsQuery 4 77 flags counts (node_question changed (codes "a") 1)
unfolding on_changes on_change add_peer remove_peer new_dns_server
changed_question-IsQuery = question-IsQuery

a_not_star : codes "a" ≢ b'*' ∷ []
unfolding equal
a_not_star e =
    let same : equal (codes "a") (b'*' ∷ []) ≡ true = (equal_iff (codes "a") (b'*' ∷ [])).1 e in
    absurd (cc same)

handle_query_refines_example :
    let q = node_question changed (codes "a") 1 in
    ((ip : Bytes) × (out : Bytes) × (account (λ _. none) changes q.name ≡ some ip)
      × (handle_query 4 changed (query_packet 77 flags counts q []) ≡ ok (reply out))
      × IsAnswer 4 out 77 q (ttl_of changed) (to4 ip))
    ⊎ ((out : Bytes) × (account (λ _. none) changes q.name ≡ none)
        × (handle_query 4 changed (query_packet 77 flags counts q []) ≡ ok (reply out))
        × IsNxdomain 4 out 77 q)
handle_query_refines_example =
    handle_query_refines 4 77 flags counts (codes "a") 1 [] node.cfg changes
      changed_question-IsQuery a_not_star

handle_query-Survives_example : Survives (handle_query 9 node (1 ∷ 2 ∷ 3 ∷ []))
handle_query-Survives_example = handle_query-Survives 9 node (1 ∷ 2 ∷ 3 ∷ [])

handle_query_cycle_example :
    handle_query 1000 node (
      put_uint16 77
      ++ (flags ++ (put_uint16 1 ++ (counts ++ labels_onto ((97 ∷ []) ∷ []) (pointer 12 ++ [])))))
    ≡ out_of_fuel
handle_query_cycle_example =
    handle_query_cycle 1000 node 77 1 flags counts ((97 ∷ []) ∷ []) [] (omega arith) (omega arith)
      (omega arith) refl refl (single-IsLabel b'a', tt)

-- Two packets of three bytes, read into a buffer of four.
handled_late_example :
    (v : World) × Reach 9 node
      (record { buffer = 0 ∷ 0 ∷ 0 ∷ 0 ∷ []; handlers = [] })
      v
      ((1, handle_query 9 node (4 ∷ 5 ∷ 6 ∷ [])) ∷ (2, handle_query 9 node (4 ∷ 5 ∷ 6 ∷ [])) ∷ [])
handled_late_example =
    handled_late 9 node (0 ∷ 0 ∷ 0 ∷ 0 ∷ []) (1 ∷ 2 ∷ 3 ∷ []) (4 ∷ 5 ∷ 6 ∷ []) 1 2 [] (omega arith)
      refl
