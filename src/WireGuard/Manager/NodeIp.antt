-- ===== src/WireGuard/Manager/NodeIp.antt =====
-- wireguard.go's getNodeIP against the records that dns.go's Start makes from the same configuration.
use nexus_stun.Common.{
  ℕ, ok, ◌≡◌, refl, sym, ap, ◌∙◌, inl, inr, Option, none, some, List, [], ◌∷◌, ◌++◌, if◌then◌else◌,
  Bytes, equal, equal_iff, Bool-cases, arith,
}
use nexus_stun.Common.Dict.{Dict, lookup, lookup-insert, IsUnique, ne→equal, equal_refl}
use mathlib.Core.List.{append_cancel_right}
use nexus_stun.Config.{Config, PeerConf}
use nexus_stun.Dns.{dot}
use nexus_stun.Common.Ip.{to4}
use nexus_stun.Dns.Server.Packets.{IsQuery, query_packet}
use nexus_stun.Dns.Server.Queries.{node_question, handle_query_recorded}
use nexus_stun.Dns.Server.Replies.{IsAnswer}
use nexus_stun.Dns.Server.{
  handle_query, reply, ttl_of, DnsServer, new_dns_server, add_peer, add_record, add_configured,
  add_configured_peers,
}
use nexus_stun.WireGuard.Manager.{first_ip, own_ip, ip_or, get_node_ip, default_ip}

-- fmt.Sprintf("%s.%s", name, domain)
abbrev hostname : Bytes → Bytes → Bytes
hostname name domain = name ++ (dot ∷ domain)

abbrev or_else : Option Bytes → Option Bytes → Option Bytes
or_else none old = old
or_else (some ip) old = some ip

or_else-none :
    (name : Bytes) (o : Option Bytes)
    → ip_or o (default_ip name) ≡ ip_or (or_else o none) (default_ip name)
or_else-none name none = refl
or_else-none name (some ip) = refl

equal-hostname : (domain j k : Bytes) → equal (hostname j domain) (hostname k domain) ≡ equal j k
equal-hostname domain j k = elim (Bool-cases (equal j k)) [
  | inl y ↦ rw ((equal_iff j k).0 y) (equal_refl (hostname k domain) ∙ sym (equal_refl k))
  | inr n ↦
      ne→equal (hostname j domain) (hostname k domain)
        (λ e. absurd (cc (n, (equal_iff j k).1 (append_cancel_right j k (dot ∷ domain) e))))
      ∙ sym n
]

add_record-cfg :
    (s : DnsServer) (name : Bytes) (o : Option Bytes) → (add_record s name o).cfg ≡ s.cfg
unfolding add_record add_peer
add_record-cfg s name none = refl
add_record-cfg s name (some ip) = refl

add_record_lem :
    (s : DnsServer) (name k : Bytes) (o : Option Bytes)
    → lookup (hostname k s.cfg.domain) (add_record s name o).peers ≡ (
        if equal name k
        then or_else o (lookup (hostname k s.cfg.domain) s.peers)
        else lookup (hostname k s.cfg.domain) s.peers)
unfolding add_record add_peer
add_record_lem s name k none = ground arith
add_record_lem s name k (some ip) =
    rw (sym (equal-hostname s.cfg.domain name k))
      (lookup-insert (hostname name s.cfg.domain) (hostname k s.cfg.domain) ip s.peers)

module _ (parse_cidr : Bytes → Option Bytes) where
  -- a record of the list's first address is one of `first_ip`
  add_configured-add_record :
      (s : DnsServer) (name : Bytes) (ips : List Bytes)
      → add_configured parse_cidr s name ips ≡ add_record s name (first_ip parse_cidr ips)
  unfolding add_configured add_record first_ip
  add_configured-add_record s name [] = refl
  add_configured-add_record s name (cidr ∷ ips) = refl

  -- dns.go's Start makes a record for exactly the configured peers whose first allowed address is one.
  pub add_configured_peers_lem :
      (peers : Dict PeerConf) (s : DnsServer) (k : Bytes)
      → IsUnique peers
      → lookup (hostname k s.cfg.domain) (add_configured_peers parse_cidr s peers).peers
        ≡ or_else (own_ip parse_cidr (lookup k peers)) (lookup (hostname k s.cfg.domain) s.peers)
  unfolding add_configured_peers lookup own_ip add_record equal
  add_configured_peers_lem [] s k u = refl
  add_configured_peers_lem ((name, peer) ∷ peers) s k (fresh, u) =
      let o = first_ip parse_cidr peer.allowed_ips in
      let s' = add_record s name o in
      let one = add_record_lem s name k o in
      let rest = add_configured_peers_lem peers s' k u in
      let rest' = rw (add_record-cfg s name o) at rest in
      ap (λ t. lookup (hostname k s.cfg.domain) (add_configured_peers parse_cidr t peers).peers)
        (add_configured-add_record s name peer.allowed_ips)
      ∙ (elim (Bool-cases (equal name k)) [
        | inl y ↦ let same = (equal_iff name k).0 y in rw (rest', one, y, sym same, fresh) refl
        | inr n ↦ rw (rest', one, n) refl
      ])

  add_configured_peers-cfg :
      (peers : Dict PeerConf) (s : DnsServer)
      → (add_configured_peers parse_cidr s peers).cfg ≡ s.cfg
  unfolding add_configured_peers
  add_configured_peers-cfg [] s = refl
  add_configured_peers-cfg ((name, peer) ∷ peers) s =
      add_configured_peers-cfg peers (add_configured parse_cidr s name peer.allowed_ips)
      ∙ ap (λ t. t.cfg) (add_configured-add_record s name peer.allowed_ips)
      ∙ add_record-cfg s name (first_ip parse_cidr peer.allowed_ips)

  -- The address of the tunnel is the one under which the DNS server of the same configuration, with each peer
  -- once, knows the node, and the default of its name where there is no such record.
  pub get_node_ip-add_configured_peers :
      (cfg : Config)
      → IsUnique cfg.peers
      → get_node_ip parse_cidr cfg
        ≡ ip_or
            (lookup
              (hostname cfg.node_name cfg.dns.domain)
              (add_configured_peers parse_cidr (new_dns_server cfg.dns) cfg.peers).peers)
            (default_ip cfg.node_name)
  unfolding get_node_ip new_dns_server lookup
  get_node_ip-add_configured_peers cfg u =
      rw (add_configured_peers_lem cfg.peers (new_dns_server cfg.dns) cfg.node_name u)
        (or_else-none cfg.node_name (own_ip parse_cidr (lookup cfg.node_name cfg.peers)))

  -- A DNS server that starts with a node's configuration, in which each peer stands once, answers a packet with one question
  -- of type A for the node's own name below the domain by a packet that carries the address of the
  -- node's tunnel in the form of To4, where the configuration gives the node an address. The name's labels have at least one and
  -- fewer than 192 bytes, and the fuel exceeds their number.
  pub handle_query-get_node_ip :
      (f id : ℕ) (flags counts : Bytes) (cfg : Config) (ip : Bytes) (qclass : ℕ) (rest : Bytes)
      → let s = add_configured_peers parse_cidr (new_dns_server cfg.dns) cfg.peers in
        let q = node_question s cfg.node_name qclass in
        IsUnique cfg.peers
        → IsQuery f id flags counts q
        → own_ip parse_cidr (lookup cfg.node_name cfg.peers) ≡ some ip
        → (out : Bytes) × (handle_query f s (query_packet id flags counts q rest) ≡ ok (reply out))
          × IsAnswer f out id q (ttl_of s) (to4 (get_node_ip parse_cidr cfg))
  unfolding get_node_ip new_dns_server lookup
  handle_query-get_node_ip f id flags counts cfg ip qclass rest u h own =
      let s = add_configured_peers parse_cidr (new_dns_server cfg.dns) cfg.peers in
      let domain_lem : cfg.dns.domain ≡ s.cfg.domain =
        ap (λ c. c.domain) (sym (add_configured_peers-cfg cfg.peers (new_dns_server cfg.dns))) in
      let recorded : lookup (hostname cfg.node_name cfg.dns.domain) s.peers ≡ some ip =
        add_configured_peers_lem cfg.peers (new_dns_server cfg.dns) cfg.node_name u ∙ rw own refl in
      rw own (
        handle_query_recorded f s id flags counts cfg.node_name ip qclass rest h
          (ap (λ d. lookup (hostname cfg.node_name d) s.peers) (sym domain_lem) ∙ recorded))
