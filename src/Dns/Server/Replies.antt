-- ===== src/Dns/Server/Replies.antt =====
-- dns.go: what a resolver finds in the packets that answer a query, at the offsets of RFC 1035.
use nexus_stun.Common.{
  ℕ, ◌+◌, ◌<◌, ◌≡◌, refl, sym, ap, [], ◌∷◌, ◌++◌, length, Bytes, slice, slice_at, put_uint16,
  put_uint32, ok, arith, length-append, append_assoc,
}
use nexus_stun.Common.Ip.{to4}
use nexus_stun.Common.Text.{split}
use nexus_stun.Dns.Names.{IsName}
use nexus_stun.Dns.{dot, DnsError, parse_dns_name, encode_dns_name}
use nexus_stun.Dns.Server.{DnsQuestion, answer_onto, question_onto, build_nxdomain, build_response}
use nexus_stun.Dns.Server.Layout.{
  packet, parse_dns_name-packet, records_at, length-question_onto, record_slice,
}

-- The header of an answer with one record.
abbrev one_answer : ℕ → Bytes
one_answer query_id =
    put_uint16 query_id
    ++ (0x81 ∷ 0x80 ∷ 0x00 ∷ 0x01 ∷ 0x00 ∷ 0x01 ∷ 0x00 ∷ 0x00 ∷ 0x00 ∷ 0x00 ∷ [])

build_response-packet :
    (query_id : ℕ) (q : DnsQuestion) (ip : Bytes) (ttl : ℕ)
    → build_response query_id q ip ttl ≡ packet (one_answer query_id) q (answer_onto ttl ip [])
unfolding build_response
build_response-packet query_id q ip ttl = refl

-- What stands in an answer packet `d` for the address bytes `rdata`.
pub record IsAnswer (f : ℕ) (d : Bytes) (query_id : ℕ) (q : DnsQuestion) (ttl : ℕ) (rdata : Bytes)
    : Type 0 where
  pub id : slice {E = DnsError} d 0 2 ≡ ok (put_uint16 query_id)
  -- response, recursion available, no error; one question, one answer
  pub flags_and_counts : slice {E = DnsError} d 2 8 ≡ ok (0x81 ∷ 0x80 ∷ 0 ∷ 1 ∷ 0 ∷ 1 ∷ [])
  pub question : parse_dns_name f d 12 ≡ ok (q.name, 12 + length (encode_dns_name q.name))
  -- a pointer to offset 12, type A, class IN
  pub head :
      slice {E = DnsError} d (records_at q) (records_at q + 6) ≡ ok (0xC0 ∷ 12 ∷ 0 ∷ 1 ∷ 0 ∷ 1 ∷ [])
  pub time_to_live :
      slice {E = DnsError} d (records_at q + 6) (records_at q + 10) ≡ ok (put_uint32 ttl)
  pub data_length : slice {E = DnsError} d (records_at q + 10) (records_at q + 12) ≡ ok (0 ∷ 4 ∷ [])
  pub address :
      slice {E = DnsError} d (records_at q + 12) (records_at q + 12 + length rdata) ≡ ok rdata
  pub size : length d ≡ records_at q + 12 + length rdata

-- For a question whose labels have at least one and fewer than 192 bytes, buildResponse writes an
-- answer that a resolver can read: the query's id and name, one record of type A and class IN with
-- the time to live, the length 4, and, as all the rest of the packet, the address in the form of
-- To4.
pub build_response-IsAnswer :
    (f query_id : ℕ) (q : DnsQuestion) (ip : Bytes) (ttl : ℕ)
    → IsName q.name
    → length (split dot q.name) < f
    → IsAnswer f (build_response query_id q ip ttl) query_id q ttl (to4 ip)
unfolding build_response answer_onto
build_response-IsAnswer f query_id q ip ttl n k = record {
  id = slice_at d [] (put_uint16 query_id) _ 0 2 refl refl refl;
  flags_and_counts =
      slice_at d (put_uint16 query_id) (0x81 ∷ 0x80 ∷ 0 ∷ 1 ∷ 0 ∷ 1 ∷ []) _ 2 8 refl refl refl;
  question = parse_dns_name-packet f h q (answer_onto ttl ip []) refl n k;
  head =
      record_slice h q [] (0xC0 ∷ 12 ∷ 0 ∷ 1 ∷ 0 ∷ 1 ∷ []) _ (records_at q) (records_at q + 6) refl
        (omega arith) refl;
  time_to_live =
      record_slice h q (0xC0 ∷ 12 ∷ 0 ∷ 1 ∷ 0 ∷ 1 ∷ []) (put_uint32 ttl) _ (records_at q + 6)
        (records_at q + 10) refl refl (omega arith);
  data_length =
      record_slice h q (0xC0 ∷ 12 ∷ 0 ∷ 1 ∷ 0 ∷ 1 ∷ put_uint32 ttl) (0 ∷ 4 ∷ []) _
        (records_at q + 10) (records_at q + 12) refl refl (omega arith);
  address =
      record_slice h q (0xC0 ∷ 12 ∷ 0 ∷ 1 ∷ 0 ∷ 1 ∷ (put_uint32 ttl ++ (0 ∷ 4 ∷ []))) (to4 ip) []
        (records_at q + 12) (records_at q + 12 + length (to4 ip)) refl refl refl;
  size = omega (arith, length-question_onto q (answer_onto ttl ip []), length-append (to4 ip) []);
}
  where
    h : Bytes
    h = one_answer query_id

    d : Bytes
    d = build_response query_id q ip ttl

-- For a peer whose address has no IPv4 form, the answer to a question whose labels have at least
-- one and fewer than 192 bytes is broken: its data length says 4, and the packet ends there.
pub build_response_no_ipv4 :
    (f query_id : ℕ) (q : DnsQuestion) (ip : Bytes) (ttl : ℕ)
    → IsName q.name
    → length (split dot q.name) < f
    → to4 ip ≡ []
    → let d = build_response query_id q ip ttl in
      (slice {E = DnsError} d (records_at q + 10) (records_at q + 12) ≡ ok (0 ∷ 4 ∷ []))
      × (length d ≡ records_at q + 12)
build_response_no_ipv4 f query_id q ip ttl n k no_form =
    let a = build_response-IsAnswer f query_id q ip ttl n k in
    (a.data_length, omega (arith, a.size, ap length no_form))

-- The header of a refusal of the name.
abbrev no_answer : ℕ → Bytes
no_answer query_id =
    put_uint16 query_id
    ++ (0x81 ∷ 0x83 ∷ 0x00 ∷ 0x01 ∷ 0x00 ∷ 0x00 ∷ 0x00 ∷ 0x00 ∷ 0x00 ∷ 0x00 ∷ [])

-- What stands in an NXDOMAIN packet `d`.
pub record IsNxdomain (f : ℕ) (d : Bytes) (query_id : ℕ) (q : DnsQuestion) : Type 0 where
  pub id : slice {E = DnsError} d 0 2 ≡ ok (put_uint16 query_id)
  -- response, recursion available, the response code 3; one question, and no record
  pub flags_and_counts :
      slice {E = DnsError} d 2 12 ≡ ok (0x81 ∷ 0x83 ∷ 0 ∷ 1 ∷ 0 ∷ 0 ∷ 0 ∷ 0 ∷ 0 ∷ 0 ∷ [])
  pub question : parse_dns_name f d 12 ≡ ok (q.name, 12 + length (encode_dns_name q.name))
  pub type_and_class :
      slice {E = DnsError} d (12 + length (encode_dns_name q.name)) (records_at q)
      ≡ ok (put_uint16 q.qtype ++ put_uint16 q.qclass)
  pub size : length d ≡ records_at q

-- For a question whose labels have at least one and fewer than 192 bytes, buildNXDOMAIN writes the query's
-- id, the response code 3, the question as it was, and no record.
pub build_nxdomain-IsNxdomain :
    (f query_id : ℕ) (q : DnsQuestion)
    → IsName q.name
    → length (split dot q.name) < f
    → IsNxdomain f (build_nxdomain query_id q) query_id q
unfolding build_nxdomain
build_nxdomain-IsNxdomain f query_id q n k = record {
  id = slice_at d [] (put_uint16 query_id) _ 0 2 refl refl refl;
  flags_and_counts =
      slice_at d (put_uint16 query_id) (0x81 ∷ 0x83 ∷ 0 ∷ 1 ∷ 0 ∷ 0 ∷ 0 ∷ 0 ∷ 0 ∷ 0 ∷ []) _ 2 12
        refl refl refl;
  question = parse_dns_name-packet f h q [] refl n k;
  type_and_class =
      slice_at d (h ++ encode_dns_name q.name) (put_uint16 q.qtype ++ put_uint16 q.qclass) []
        (12 + length (encode_dns_name q.name)) (records_at q) d_eq
        (omega (arith, length-append h (encode_dns_name q.name))) (omega arith);
  size = omega (arith, length-question_onto q []);
}
  where
    h : Bytes
    h = no_answer query_id

    d : Bytes
    d = build_nxdomain query_id q

    d_eq : d ≡ (h ++ encode_dns_name q.name) ++ ((put_uint16 q.qtype ++ put_uint16 q.qclass) ++ [])
    d_eq =
        unfold question_onto in
        sym (
          append_assoc h (encode_dns_name q.name)
            (put_uint16 q.qtype ++ (put_uint16 q.qclass ++ [])))
