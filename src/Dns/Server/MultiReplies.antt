-- ===== src/Dns/Server/MultiReplies.antt =====
-- dns.go: what a resolver finds in an answer with all peers.
use nexus_stun.Common.{
  ℕ, ◌+◌, ◌*◌, ◌<◌, ◌≡◌, refl, sym, ap, subst, ◌∙◌, List, [], ◌∷◌, ◌++◌, length, Bytes, slice,
  slice_at, uint16, put_uint16, put_uint32, uint16-put_uint16, ok, ◌>>=◌, arith, length-append,
  append_assoc, All, All-append_inv,
}
use nexus_stun.Common.Ip.{to4}
use nexus_stun.Common.Text.{split}
use nexus_stun.Dns.Names.{IsName}
use nexus_stun.Dns.{dot, DnsError, parse_dns_name, encode_dns_name}
use nexus_stun.Dns.Server.{DnsQuestion, answer_onto, answers, build_multi_response}
use nexus_stun.Dns.Server.Layout.{
  packet, parse_dns_name-packet, records_at, length-question_onto, record_slice,
}

length-answer_onto :
    (ttl : ℕ) (ip rest : Bytes)
    → length (to4 ip) ≡ 4
    → length (answer_onto ttl ip rest) ≡ 16 + length rest
unfolding answer_onto
length-answer_onto ttl ip rest h = omega (arith, length-append (to4 ip) rest)

length-answers :
    (ttl : ℕ) (ips : List Bytes)
    → All (λ ip. length (to4 ip) ≡ 4) ips
    → length (answers ttl ips) ≡ 16 * length ips
unfolding answers
length-answers ttl [] h = omega arith
length-answers ttl (ip ∷ ips) (h, hs) =
    omega (arith, length-answer_onto ttl ip (answers ttl ips) h, length-answers ttl ips hs)

answers-append :
    (ttl : ℕ) (ips : List Bytes) (ip : Bytes) (after : List Bytes)
    → answers ttl (ips ++ (ip ∷ after)) ≡ answers ttl ips ++ answer_onto ttl ip (answers ttl after)
unfolding answers answer_onto
answers-append ttl [] ip after = refl
answers-append ttl (x ∷ ips) ip after =
    ap
      (λ (t : Bytes).
        0xC0 ∷ 0x0C ∷ 0x00 ∷ 0x01 ∷ 0x00 ∷ 0x01 ∷ (put_uint32 ttl ++ (0x00 ∷ 0x04 ∷ (to4 x ++ t))))
      (answers-append ttl ips ip after)
    ∙ rw (append_assoc (to4 x)) refl

-- The header of an answer with several records.
abbrev several : ℕ → ℕ → Bytes
several query_id count =
    put_uint16 query_id
    ++ (0x81 ∷ 0x80 ∷ 0x00 ∷ 0x01 ∷ (put_uint16 count ++ (0x00 ∷ 0x00 ∷ 0x00 ∷ 0x00 ∷ [])))

build_multi_response-packet :
    (query_id : ℕ) (q : DnsQuestion) (ips : List Bytes) (ttl : ℕ)
    → build_multi_response query_id q ips ttl
      ≡ packet (several query_id (length ips)) q (answers ttl ips)
unfolding build_multi_response
build_multi_response-packet query_id q ips ttl = refl

-- For fewer than 65536 addresses, all of them IPv4, and a question whose labels have at least one
-- and fewer than 192 bytes, buildMultiResponse counts its records, repeats the name, gives each
-- address a record of sixteen bytes with the address at its place, and ends behind the last.
pub build_multi_response_lem :
    (f query_id : ℕ) (q : DnsQuestion) (before : List Bytes) (ip : Bytes) (after : List Bytes)
    (ttl : ℕ)
    → IsName q.name
    → length (split dot q.name) < f
    → length (before ++ (ip ∷ after)) < 65536
    → All (λ ip. length (to4 ip) ≡ 4) (before ++ (ip ∷ after))
    → let d = build_multi_response query_id q (before ++ (ip ∷ after)) ttl in
      let at_record = records_at q + 16 * length before in
      ((slice {E = DnsError} d 6 8 >>= uint16) ≡ ok (length (before ++ (ip ∷ after))))
      × (parse_dns_name f d 12 ≡ ok (q.name, 12 + length (encode_dns_name q.name)))
      × (slice {E = DnsError} d (at_record + 12) (at_record + 16) ≡ ok (to4 ip))
      × (length d ≡ records_at q + 16 * length (before ++ (ip ∷ after)))
unfolding build_multi_response
build_multi_response_lem f query_id q before ip after ttl n k few h =
    let (hb, hr) = All-append_inv (λ ip. length (to4 ip) ≡ 4) before (ip ∷ after) h in
    (
      rw
          (slice_at {E = DnsError} d (put_uint16 query_id ++ (0x81 ∷ 0x80 ∷ 0 ∷ 1 ∷ []))
            (put_uint16 count) _ 6 8 refl refl refl)
          (uint16-put_uint16 count [] few),
      parse_dns_name-packet f header q (answers ttl (before ++ (ip ∷ after))) refl n k,
      subst
          (λ (rs : Bytes).
            slice {E = DnsError} (packet header q rs) (at_record + 12) (at_record + 16)
            ≡ ok (to4 ip))
          (sym split_eq)
          (record_slice header q (answers ttl before ++ head) (to4 ip) (answers ttl after)
            (at_record + 12) (at_record + 16) refl
            (omega (arith, length-append (answers ttl before) head, length-answers ttl before hb))
            (omega (arith, hr.0))),
      omega (
        arith,
        length-question_onto q (answers ttl (before ++ (ip ∷ after))),
        length-answers ttl (before ++ (ip ∷ after)) h,
      ),
    )
  where
    count : ℕ
    count = length (before ++ (ip ∷ after))

    at_record : ℕ
    at_record = records_at q + 16 * length before

    header : Bytes
    header = several query_id count

    d : Bytes
    d = build_multi_response query_id q (before ++ (ip ∷ after)) ttl

    head : Bytes
    head = 0xC0 ∷ 0x0C ∷ 0x00 ∷ 0x01 ∷ 0x00 ∷ 0x01 ∷ (put_uint32 ttl ++ (0x00 ∷ 0x04 ∷ []))

    split_eq :
        answers ttl (before ++ (ip ∷ after))
        ≡ (answers ttl before ++ head) ++ (to4 ip ++ answers ttl after)
    split_eq =
        answers-append ttl before ip after
        ∙ unfold answer_onto in
          sym (append_assoc (answers ttl before) head (to4 ip ++ answers ttl after))
