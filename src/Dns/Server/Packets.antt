-- ===== src/Dns/Server/Packets.antt =====
-- dns.go: how handleQuery reads a packet of one question.
use nexus_stun.Common.{
  ℕ, ◌+◌, ◌<◌, ◌≡◌, refl, sym, ap, ◌∙◌, [], ◌++◌, length, Bytes, slice_at, put_uint16,
  uint16-put_uint16, ok, arith, length-append, append_assoc, le→not_ltb, lt→ltb,
}
use nexus_stun.Common.Text.{split}
use nexus_stun.Dns.Names.{IsName, parse_dns_name-encode_dns_name}
use nexus_stun.Dns.{dot, DnsError, encode_dns_name}
use nexus_stun.Dns.Server.{
  DnsServer, DnsQuestion, dispatch_question, read_question, questions_loop, on_questions,
  handle_counted, handle_query, question_onto,
}

-- A query packet: id, flags, one question, the other three counts, the question, and the rest.
abbrev pub query_packet : ℕ → Bytes → Bytes → DnsQuestion → Bytes → Bytes
query_packet id flags counts q rest =
    put_uint16 id ++ (flags ++ (put_uint16 1 ++ (counts ++ question_onto q rest)))

read_question-question_onto :
    (f : ℕ) (pre : Bytes) (q : DnsQuestion) (rest : Bytes)
    → IsName q.name
    → length (split dot q.name) < f
    → q.qtype < 65536
    → q.qclass < 65536
    → read_question f (pre ++ question_onto q rest) (length pre)
      ≡ ok (q, length pre + length (encode_dns_name q.name) + 4)
unfolding read_question question_onto
read_question-question_onto f pre q rest n k ht hc =
    rw
      (
        parse_dns_name-encode_dns_name f pre q.name (t ++ (c ++ rest)) n k,
        le→not_ltb (length d) (o + 4) (omega (arith, length_d)),
        slice_at {E = DnsError} d (pre ++ encode_dns_name q.name) t (c ++ rest) o (o + 2) d_eq at_o
            refl,
        uint16-put_uint16 {E = DnsError} q.qtype [] ht,
        slice_at {E = DnsError} d ((pre ++ encode_dns_name q.name) ++ t) c rest (o + 2) (o + 4)
            (d_eq ∙ sym (append_assoc (pre ++ encode_dns_name q.name) t (c ++ rest)))
            (omega (arith, at_o, length-append (pre ++ encode_dns_name q.name) t)) (omega arith),
        uint16-put_uint16 {E = DnsError} q.qclass [] hc,
      )
      refl
  where
    t : Bytes
    t = put_uint16 q.qtype

    c : Bytes
    c = put_uint16 q.qclass

    o : ℕ
    o = length pre + length (encode_dns_name q.name)

    d : Bytes
    d = pre ++ (encode_dns_name q.name ++ (t ++ (c ++ rest)))

    d_eq : d ≡ (pre ++ encode_dns_name q.name) ++ (t ++ (c ++ rest))
    d_eq = sym (append_assoc pre (encode_dns_name q.name) (t ++ (c ++ rest)))

    at_o : o ≡ length (pre ++ encode_dns_name q.name)
    at_o = omega (arith, length-append pre (encode_dns_name q.name))

    length_d : length d ≡ o + 4 + length rest
    length_d = omega (
      arith,
      ap length d_eq,
      at_o,
      length-append (pre ++ encode_dns_name q.name) (t ++ (c ++ rest)),
    )

read_question_at :
    (f : ℕ) (d pre : Bytes) (q : DnsQuestion) (rest : Bytes) (offset end : ℕ)
    → IsName q.name
    → length (split dot q.name) < f
    → q.qtype < 65536
    → q.qclass < 65536
    → d ≡ pre ++ question_onto q rest
    → offset ≡ length pre
    → end ≡ offset + length (encode_dns_name q.name) + 4
    → read_question f d offset ≡ ok (q, end)
read_question_at f d pre q rest offset end n k ht hc e p r =
    rw (e, r, p) (read_question-question_onto f pre q rest n k ht hc)

pub header_of :
    (f : ℕ) (s : DnsServer) (id qd : ℕ) (flags counts body : Bytes)
    → id < 65536
    → qd < 65536
    → length flags ≡ 2
    → length counts ≡ 6
    → let d = put_uint16 id ++ (flags ++ (put_uint16 qd ++ (counts ++ body))) in
      handle_query f s d ≡ handle_counted f s d id qd
unfolding handle_query
header_of f s id qd flags counts body hi hq lf lc =
    rw
      (
        le→not_ltb (length d) 12 (
            omega (
              arith,
              length-append flags (put_uint16 qd ++ (counts ++ body)),
              length-append counts body,
            )),
        slice_at {E = DnsError} d [] (put_uint16 id) (flags ++ (put_uint16 qd ++ (counts ++ body)))
            0 2 refl refl refl,
        uint16-put_uint16 {E = DnsError} id [] hi,
        slice_at {E = DnsError} d (put_uint16 id ++ flags) (put_uint16 qd) (counts ++ body) 4 6
            (sym (append_assoc (put_uint16 id) flags (put_uint16 qd ++ (counts ++ body))))
            (omega (arith, length-append (put_uint16 id) flags)) refl,
        uint16-put_uint16 {E = DnsError} qd [] hq,
      )
      refl
  where
    d : Bytes
    d = put_uint16 id ++ (flags ++ (put_uint16 qd ++ (counts ++ body)))

-- A packet of one question.
pub record IsQuery (f id : ℕ) (flags counts : Bytes) (q : DnsQuestion) : Type 0 where
  pub id_sized : id < 65536
  pub flags_sized : length flags ≡ 2
  pub counts_sized : length counts ≡ 6
  pub name : IsName q.name
  pub fuel : length (split dot q.name) < f
  pub type_sized : q.qtype < 65536
  pub class_sized : q.qclass < 65536

-- It is answered by its question alone, whatever follows that.
pub handle_query-query_packet :
    (f : ℕ) (s : DnsServer) (id : ℕ) (flags counts : Bytes) (q : DnsQuestion) (rest : Bytes)
    → IsQuery f id flags counts q
    → handle_query f s (query_packet id flags counts q rest)
      ≡ ok (dispatch_question s (query_packet id flags counts q rest) id q)
unfolding handle_counted questions_loop
handle_query-query_packet f s id flags counts q rest h =
    header_of f s id 1 flags counts (question_onto q rest) h.id_sized (omega arith) h.flags_sized
      h.counts_sized
    ∙ rw (lt→ltb 12 (length d) (omega (arith, length_d)), read) (unfold on_questions in refl)
  where
    header : Bytes
    header = put_uint16 id ++ (flags ++ (put_uint16 1 ++ counts))

    d : Bytes
    d = query_packet id flags counts q rest

    d_eq : d ≡ header ++ question_onto q rest
    d_eq =
        ap (◌++◌ (put_uint16 id))
          (sym (append_assoc flags (put_uint16 1 ++ counts) (question_onto q rest)))

    length_header : length header ≡ 12
    length_header =
        omega (arith, length-append flags (put_uint16 1 ++ counts), h.flags_sized, h.counts_sized)

    length_d : length d ≡ 16 + length (encode_dns_name q.name) + length rest
    length_d =
        unfold question_onto in
        omega (
          arith,
          ap length d_eq,
          length_header,
          length-append header (question_onto q rest),
          length-append (encode_dns_name q.name)
              (put_uint16 q.qtype ++ (put_uint16 q.qclass ++ rest)),
        )

    read : read_question f d 12 ≡ ok (q, 16 + length (encode_dns_name q.name))
    read =
        read_question_at f d header q rest 12 (16 + length (encode_dns_name q.name)) h.name h.fuel
          h.type_sized h.class_sized d_eq (sym length_header) (omega arith)
