-- ===== src/Dns/Server/Records.antt =====
-- dns.go: AddPeer, RemovePeer and the answers, against a plain account of the records.
use nexus_stun.Common.{
  ℕ, ◌≡◌, ◌≢◌, ◌⊎◌, refl, sym, ap, ◌∙◌, inl, inr, Option, none, some, List, [], ◌∷◌, if◌then◌else◌,
  Bytes, equal, ok, Option-cases, fun_ext,
}
use nexus_stun.Common.Dict.{lookup, lookup-insert, lookup-delete}
use nexus_stun.Common.Ip.{to4}
use nexus_stun.Config.{DnsConf}
use nexus_stun.Dns.Server.{
  DnsServer, new_dns_server, add_peer, remove_peer, reply, build_nxdomain, handle_query, ttl_of,
}
use nexus_stun.Dns.Server.Packets.{IsQuery, query_packet}
use nexus_stun.Dns.Server.Queries.{node_question, handle_query_recorded, handle_query_unknown}
use nexus_stun.Dns.Server.Replies.{IsAnswer, IsNxdomain, build_nxdomain-IsNxdomain}

-- A call of AddPeer or RemovePeer.
pub data Change : Type 0 where
  added : Bytes → Bytes → Change
  removed : Bytes → Change

unfoldable pub on_change : DnsServer → Change → DnsServer
unfolding add_peer remove_peer
on_change s (added hostname ip) = add_peer s hostname ip
on_change s (removed hostname) = remove_peer s hostname

unfoldable pub on_changes : DnsServer → List Change → DnsServer
unfolding on_change
on_changes s [] = s
on_changes s (c ∷ changes) = on_changes (on_change s c) changes

-- The account: for each name the address of the last call that added it, unless it was removed since.
abbrev pub noted : (Bytes → Option Bytes) → Change → Bytes → Option Bytes
noted f (added hostname ip) k = if equal hostname k then some ip else f k
noted f (removed hostname) k = if equal hostname k then none else f k

abbrev pub account : (Bytes → Option Bytes) → List Change → Bytes → Option Bytes
account f [] = f
account f (c ∷ changes) = account (noted f c) changes

abbrev records : DnsServer → Bytes → Option Bytes
records s k = lookup k s.peers

on_change-records : (s : DnsServer) (c : Change) → records (on_change s c) ≡ noted (records s) c
unfolding on_change add_peer remove_peer
on_change-records s (added hostname ip) = fun_ext λ k. lookup-insert hostname k ip s.peers
on_change-records s (removed hostname) = fun_ext λ k. lookup-delete hostname k s.peers

on_changes-records :
    (changes : List Change) (s : DnsServer)
    → records (on_changes s changes) ≡ account (records s) changes
unfolding on_changes
on_changes-records [] s = refl
on_changes-records (c ∷ changes) s =
    on_changes-records changes (on_change s c) ∙ ap (λ f. account f changes) (on_change-records s c)

-- The server answers by the account of its records: after any calls of AddPeer and RemovePeer, a packet
-- with one question of type A for a name below the domain, not the wildcard, is answered by the To4 form of
-- the address that the account has for the name (which is empty for an address that is no IPv4 address),
-- and where it has none by NXDOMAIN: the query's id, the response code 3, the question, and no record. The name's labels have at least one
-- and fewer than 192 bytes, and the fuel exceeds their number.
pub handle_query_refines :
    (f id : ℕ) (flags counts host : Bytes) (qclass : ℕ) (rest : Bytes) (cfg : DnsConf)
    (changes : List Change)
    → let s = on_changes (new_dns_server cfg) changes in
      let q = node_question s host qclass in
      IsQuery f id flags counts q
      → host ≢ b'*' ∷ []
      → ((ip : Bytes) × (out : Bytes) × (account (λ _. none) changes q.name ≡ some ip)
          × (handle_query f s (query_packet id flags counts q rest) ≡ ok (reply out))
          × IsAnswer f out id q (ttl_of s) (to4 ip))
        ⊎ ((out : Bytes) × (account (λ _. none) changes q.name ≡ none)
            × (handle_query f s (query_packet id flags counts q rest) ≡ ok (reply out))
            × IsNxdomain f out id q)
unfolding new_dns_server lookup
handle_query_refines f id flags counts host qclass rest cfg changes h star =
    let s = on_changes (new_dns_server cfg) changes in
    let q = node_question s host qclass in
    let agree : lookup q.name s.peers ≡ account (λ _. none) changes q.name =
      ap (λ g. g q.name) (on_changes-records changes (new_dns_server cfg)) in
    elim (Option-cases (lookup q.name s.peers)) [
      | inl absent ↦ inr (
        build_nxdomain id q,
        sym agree ∙ absent,
        handle_query_unknown f s id flags counts host qclass rest h absent star,
        build_nxdomain-IsNxdomain f id q h.name h.fuel,
      )
      | inr (ip, known) ↦
          let (out, answered, is_answer) =
            handle_query_recorded f s id flags counts host ip qclass rest h known in
          inl (ip, out, sym agree ∙ known, answered, is_answer)
    ]
