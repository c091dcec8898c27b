-- ===== src/Dns/Server/Queries.antt =====
-- dns.go: what handleQuery does with a packet.
use nexus_stun.Common.{
  ℕ, ◌≡◌, ◌≢◌, ◌⊎◌, refl, subst, ap, ◌∙◌, inl, inr, false, none, some, [], ◌∷◌, ◌++◌, length, Bytes,
  ok, arith, length-append,
}
use nexus_stun.Common.Dict.{lookup, lookup-insert_self, ne→equal}
use nexus_stun.Common.Text.{has_suffix, has_suffix-append}
use nexus_stun.Dns.{dot}
use nexus_stun.Dns.Server.Replies.{IsAnswer, build_response-IsAnswer}
use nexus_stun.Common.Ip.{to4}
use mathlib.Core.List.{append_cancel_right}
use nexus_stun.Dns.Server.{
  DnsServer, DnsQuestion, reply, upstream, add_peer, build_response, build_nxdomain,
  wildcard_response, handle_nexus_query, dispatch_question, handle_query, ttl_of,
}
use nexus_stun.Dns.Server.Packets.{query_packet, IsQuery, handle_query-query_packet}

-- The question for the address of a node by its name below the domain.
abbrev pub node_question : DnsServer → Bytes → ℕ → DnsQuestion
node_question s host qclass = record {
  name = host ++ (dot ∷ s.cfg.domain);
  qtype = 1;
  qclass = qclass;
}

-- A packet with one question of type A for a name below the domain, which has a record, is answered by
-- a packet that carries its address.
pub handle_query_recorded :
    (f : ℕ) (s : DnsServer) (id : ℕ) (flags counts host ip : Bytes) (qclass : ℕ) (rest : Bytes)
    → let q = node_question s host qclass in
      IsQuery f id flags counts q
      → lookup q.name s.peers ≡ some ip
      → (out : Bytes) × (handle_query f s (query_packet id flags counts q rest) ≡ ok (reply out))
        × IsAnswer f out id q (ttl_of s) (to4 ip)
unfolding dispatch_question handle_nexus_query
handle_query_recorded f s id flags counts host ip qclass rest h l = (
  build_response id q ip (ttl_of s),
  handle_query-query_packet f s id flags counts q rest h
      ∙ rw (has_suffix-append host (dot ∷ s.cfg.domain), l) refl,
  build_response-IsAnswer f id q ip (ttl_of s) h.name h.fuel,
)
  where
    q : DnsQuestion
    q = node_question s host qclass

-- A packet with one question of type A for a name below the domain is answered, once AddPeer has recorded
-- an IPv4 address for the name (one whose To4 form has four bytes), by a packet that carries these four
-- bytes. The name's labels have at least one and fewer than 192 bytes, and the fuel exceeds their number.
pub handle_query-add_peer :
    (f : ℕ) (s : DnsServer) (id : ℕ) (flags counts host ip : Bytes) (b0 b1 b2 b3 qclass : ℕ)
    (rest : Bytes)
    → let q = node_question s host qclass in
      to4 ip ≡ b0 ∷ b1 ∷ b2 ∷ b3 ∷ []
      → IsQuery f id flags counts q
      → (out : Bytes) × (handle_query f (add_peer s q.name ip) (query_packet id flags counts q rest)
          ≡ ok (reply out))
        × IsAnswer f out id q (ttl_of s) (b0 ∷ b1 ∷ b2 ∷ b3 ∷ [])
unfolding add_peer
handle_query-add_peer f s id flags counts host ip b0 b1 b2 b3 qclass rest four h =
    let name = host ++ (dot ∷ s.cfg.domain) in
    let (out, answered, carries) =
      handle_query_recorded f (add_peer s name ip) id flags counts host ip qclass rest h
        (lookup-insert_self name ip s.peers) in
    (out, answered, subst (IsAnswer f out id (node_question s host qclass) (ttl_of s)) four carries)

-- A packet with one question of type A for a name below the domain that has no record, and is not
-- the wildcard, gets NXDOMAIN with the question's id and name. The name's labels have at least one
-- and fewer than 192 bytes, and the fuel exceeds their number.
pub handle_query_unknown :
    (f : ℕ) (s : DnsServer) (id : ℕ) (flags counts host : Bytes) (qclass : ℕ) (rest : Bytes)
    → let q = node_question s host qclass in
      IsQuery f id flags counts q
      → lookup q.name s.peers ≡ none
      → host ≢ b'*' ∷ []
      → handle_query f s (query_packet id flags counts q rest) ≡ ok (reply (build_nxdomain id q))
unfolding dispatch_question handle_nexus_query wildcard_response
handle_query_unknown f s id flags counts host qclass rest h l star =
    handle_query-query_packet f s id flags counts q rest h
    ∙ rw
        (
          has_suffix-append host (dot ∷ s.cfg.domain),
          l,
          ne→equal q.name s.cfg.domain not_apex,
          ne→equal q.name (b'*' ∷ dot ∷ s.cfg.domain) not_star,
        )
        refl
  where
    q : DnsQuestion
    q = node_question s host qclass

    not_apex : q.name ≢ s.cfg.domain
    not_apex e = absurd (omega (arith, ap length e, length-append host (dot ∷ s.cfg.domain)))

    not_star : q.name ≢ b'*' ∷ dot ∷ s.cfg.domain
    not_star e = star (append_cancel_right host (b'*' ∷ []) (dot ∷ s.cfg.domain) e)

-- A packet with one question of another type than A, or for a name that does not end in a dot and
-- the domain, is passed on whole to the upstream servers. The name's labels have at least one and
-- fewer than 192 bytes, and the fuel exceeds their number.
pub handle_query_foreign :
    (f : ℕ) (s : DnsServer) (id : ℕ) (flags counts : Bytes) (q : DnsQuestion) (rest : Bytes)
    → IsQuery f id flags counts q
    → (q.qtype ≢ 1) ⊎ (has_suffix q.name (dot ∷ s.cfg.domain) ≡ false)
    → let d = query_packet id flags counts q rest in handle_query f s d ≡ ok (upstream d)
unfolding dispatch_question
handle_query_foreign f s id flags counts q rest h (inl t) =
    handle_query-query_packet f s id flags counts q rest h ∙ ground (arith, t)
handle_query_foreign f s id flags counts q rest h (inr t) =
    handle_query-query_packet f s id flags counts q rest h ∙ rw t refl

-- A packet with one question for the domain itself is passed on to the upstream servers, of
-- whatever type the question is and whatever peers are on record. The domain's labels have at least
-- one and fewer than 192 bytes, and the fuel exceeds their number.
pub handle_query_apex :
    (f : ℕ) (s : DnsServer) (id : ℕ) (flags counts : Bytes) (q : DnsQuestion) (rest : Bytes)
    → IsQuery f id flags counts q
    → q.name ≡ s.cfg.domain
    → let d = query_packet id flags counts q rest in handle_query f s d ≡ ok (upstream d)
handle_query_apex f s id flags counts q rest h e =
    handle_query_foreign f s id flags counts q rest h
      (inr (unfold has_suffix in ground (arith, ap length e)))
