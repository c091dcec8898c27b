-- ===== src/Dns/Server/Layout.antt =====
-- dns.go: where the parts of a packet stand, behind a header of twelve bytes and one question.
use nexus_stun.Common.{
  ℕ, ◌+◌, ◌<◌, ◌≡◌, refl, sym, ap, subst, ◌∙◌, [], ◌++◌, length, Bytes, slice, slice_at, put_uint16,
  ok, arith, length-append, append_assoc,
}
use nexus_stun.Common.Text.{split}
use nexus_stun.Dns.Names.{IsName, parse_dns_name-encode_dns_name}
use nexus_stun.Dns.{dot, DnsError, parse_dns_name, encode_dns_name}
use nexus_stun.Dns.Server.{DnsQuestion, question_onto}

-- A packet with a header of twelve bytes and one question.
abbrev pub packet : Bytes → DnsQuestion → Bytes → Bytes
packet header q rest = header ++ question_onto q rest

pub parse_dns_name-packet :
    (f : ℕ) (header : Bytes) (q : DnsQuestion) (rest : Bytes)
    → length header ≡ 12
    → IsName q.name
    → length (split dot q.name) < f
    → parse_dns_name f (packet header q rest) 12 ≡ ok (q.name, 12 + length (encode_dns_name q.name))
unfolding question_onto
parse_dns_name-packet f header q rest h n k =
    subst
      (λ (o : ℕ).
        parse_dns_name f (packet header q rest) o
        ≡ ok (q.name, o + length (encode_dns_name q.name)))
      h
      (parse_dns_name-encode_dns_name f header q.name
        (put_uint16 q.qtype ++ (put_uint16 q.qclass ++ rest)) n k)

-- Where the records behind the question begin.
abbrev pub records_at : DnsQuestion → ℕ
records_at q = 16 + length (encode_dns_name q.name)

pub length-question_onto :
    (q : DnsQuestion) (rest : Bytes)
    → length (question_onto q rest) ≡ length (encode_dns_name q.name) + 4 + length rest
unfolding question_onto
length-question_onto q rest = omega (
  arith,
  length-append (encode_dns_name q.name) (put_uint16 q.qtype ++ (put_uint16 q.qclass ++ rest)),
)

pub question_onto-append :
    (q : DnsQuestion) (rest : Bytes) → question_onto q rest ≡ question_onto q [] ++ rest
unfolding question_onto
question_onto-append q rest = rw (append_assoc (encode_dns_name q.name)) refl

-- A slice of the records.
pub record_slice :
    (header : Bytes) (q : DnsQuestion) (front mid back : Bytes) (lo hi : ℕ)
    → length header ≡ 12
    → lo ≡ records_at q + length front
    → hi ≡ lo + length mid
    → slice {E = DnsError} (packet header q (front ++ (mid ++ back))) lo hi ≡ ok mid
record_slice header q front mid back lo hi h p e =
    slice_at (packet header q (front ++ (mid ++ back))) (header ++ (question_onto q [] ++ front))
      mid back lo hi split_eq
      (omega (
        arith,
        length-append header (question_onto q [] ++ front),
        length-append (question_onto q []) front,
        length-question_onto q [],
      ))
      e
  where
    split_eq :
        packet header q (front ++ (mid ++ back))
        ≡ (header ++ (question_onto q [] ++ front)) ++ (mid ++ back)
    split_eq =
        ap (◌++◌ header) (
          question_onto-append q (front ++ (mid ++ back))
          ∙ sym (append_assoc (question_onto q []) front (mid ++ back)))
        ∙ sym (append_assoc header (question_onto q [] ++ front) (mid ++ back))
