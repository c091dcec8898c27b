-- ===== src/Stun/RoundTrip.antt =====
-- stun.go reads back the address that a STUN server encodes.
use nexus_stun.Common.{
  ℕ, suc, ◌+◌, ◌*◌, ◌/◌, ◌%◌, ◌≤◌, ◌<◌, ◌≡◌, refl, ap, ◌∙◌, bit_xor, List, [], ◌∷◌, ◌++◌, arith,
  le→not_ltb, lt→ltb, length, length-append, Bytes, slice, index, uint16, put_uint16, put_uint32,
  slice_within, All, ok,
}
use nexus_stun.Common.Bits.{bit_xor_0x21, bit_xor_0x12, bit_xor_0xa4, bit_xor_0x42, bit_xor_0x2112}
use nexus_stun.Stun.Message.{
  Attr, attr_onto, attrs_onto, message_onto, length-message_onto,
  parse_binding_response-message_onto,
}
use nexus_stun.Common.Ip.{ipv4}
use nexus_stun.Stun.{
  StunError, StunResult, found, mapped, xor_ip, read_xor_addr, parse_xor_mapped_addr,
  read_mapped_addr, parse_mapped_addr, dispatch_attr, attr_loop, parse_binding_response,
}
use nexus_stun.Stun.Skipping.{IsSkipped, attr_round-attr_onto, value_at, attr_loop-attrs_onto}

abbrev pub magic : ℕ
magic = 0x2112A442

-- The values of the two address attributes for an IPv4 address, with any first byte and family.
abbrev pub xor_value : ℕ → ℕ → ℕ → ℕ → ℕ → ℕ → ℕ → Bytes
xor_value reserved family port w x y z =
    reserved
    ∷ family
    ∷ (put_uint16 (bit_xor port 0x2112)
        ++ (bit_xor w 0x21 ∷ bit_xor x 0x12 ∷ bit_xor y 0xa4 ∷ bit_xor z 0x42 ∷ []))

abbrev pub plain_value : ℕ → ℕ → ℕ → ℕ → ℕ → ℕ → ℕ → Bytes
plain_value reserved family port w x y z =
    reserved ∷ family ∷ (put_uint16 port ++ (w ∷ x ∷ y ∷ z ∷ []))

word_of_bytes : (n : ℕ) → n < 65536 → n / 256 % 256 * 256 + n % 256 ≡ n
word_of_bytes n h = omega arith

pub parse_xor_mapped_addr-xor_value :
    (reserved family port w x y z : ℕ) (tid : Bytes)
    → port < 65536
    → w < 256
    → x < 256
    → y < 256
    → z < 256
    → parse_xor_mapped_addr (xor_value reserved family port w x y z) tid
      ≡ ok (w ∷ x ∷ y ∷ z ∷ [], port)
unfolding parse_xor_mapped_addr read_xor_addr xor_ip slice index uint16
parse_xor_mapped_addr-xor_value reserved family port w x y z tid hp hw hx hy hz = rw (
  (bit_xor_0x21 w hw).0,
  (bit_xor_0x12 x hx).0,
  (bit_xor_0xa4 y hy).0,
  (bit_xor_0x42 z hz).0,
  word_of_bytes (bit_xor port 0x2112) (bit_xor_0x2112 port hp).1,
  (bit_xor_0x2112 port hp).0,
)

pub parse_mapped_addr-plain_value :
    (reserved family port w x y z : ℕ)
    → port < 65536
    → parse_mapped_addr (plain_value reserved family port w x y z) ≡ ok (ipv4 w x y z, port)
unfolding parse_mapped_addr read_mapped_addr slice index uint16
parse_mapped_addr-plain_value reserved family port w x y z hp = ground arith

-- A response whose attribute area holds skipped attributes, then an address attribute, then
-- anything. `msg_len` may end anywhere behind the start of the address attribute.
module _ (tid : Bytes) (skipped : List Attr) (a : Attr) (after : Bytes) (msg_len : ℕ) where
  abbrev pub area : Bytes
  area = attrs_onto skipped (attr_onto a after)

  abbrev pub response : Bytes
  response = message_onto 0x0101 msg_len magic tid area

  pub record IsResponse : Type 0 where
    pub id : length tid ≡ 12
    pub all_skipped : All IsSkipped skipped
    pub whole : msg_len ≤ length area
    pub inside : length area < msg_len + length (attr_onto a after)
    pub sized : msg_len < 65536
    pub value_sized : length a.value < 65536
    pub type_sized : a.attr_type < 65536

  -- The parser comes to the switch on the address attribute.
  parse_binding_response-response :
      (r : StunResult)
      → IsResponse
      → ((offset : ℕ)
          → slice {E = StunError} response offset (offset + length a.value) ≡ ok a.value
          → dispatch_attr response offset a.attr_type (length a.value) ≡ ok (found r))
      → parse_binding_response response ≡ ok r
  parse_binding_response-response r h k =
      parse_binding_response-message_onto 0x0101 msg_len magic tid area (omega arith) h.sized
        (omega arith) h.id
      ∙ rw (le→not_ltb (length area) msg_len h.whole) refl
      ∙ attr_loop-attrs_onto skipped (suc (length response)) response header (attr_onto a after)
          (20 + msg_len) 20 (ok r) h.all_skipped header_eq length_header (omega arith)
          (omega (arith, length_response, h.inside)) last_round
    where
      header : Bytes
      header = put_uint16 0x0101 ++ (put_uint16 msg_len ++ (put_uint32 magic ++ tid))

      header_eq : response ≡ header ++ area
      header_eq = refl

      length_header : 20 ≡ length header
      length_header = omega (arith, h.id)

      length_response : length response ≡ 20 + length area
      length_response = length-message_onto 0x0101 msg_len magic tid area h.id

      last_round :
          (f : ℕ) (pre : Bytes)
          → response ≡ pre ++ attr_onto a after
          → attr_loop (suc f) response (20 + msg_len) (length pre) ≡ ok r
      last_round f pre e =
          let lt : length pre < 20 + msg_len = omega (
            arith,
            ap length e,
            length-append pre (attr_onto a after),
            length_response,
            h.inside,
          ) in
          unfold attr_loop in
          rw
            (
              lt→ltb (length pre) (20 + msg_len) lt,
              attr_round-attr_onto response pre after a (length pre) e refl h.type_sized
                  h.value_sized,
              k (length pre + 4) (value_at response pre after a (length pre) e refl),
            )
            refl

abbrev pub xor_attr : Bytes → Attr
xor_attr v = record { attr_type = 0x0020; value = v }

abbrev pub plain_attr : Bytes → Attr
plain_attr v = record { attr_type = 0x0001; value = v }

-- A Binding Success Response that carries an IPv4 address in XOR-MAPPED-ADDRESS, behind attributes
-- of other types, gives exactly that address and port, whatever follows the attribute. All lengths
-- fit 16 bits; the message length ends behind the start of the attribute and within the data.
pub parse_binding_response-xor_attr :
    (tid : Bytes) (skipped : List Attr) (after : Bytes) (msg_len reserved family port w x y z : ℕ)
    → IsResponse tid skipped (xor_attr (xor_value reserved family port w x y z)) after msg_len
    → port < 65536
    → w < 256
    → x < 256
    → y < 256
    → z < 256
    → parse_binding_response
        (response tid skipped (xor_attr (xor_value reserved family port w x y z)) after msg_len)
      ≡ ok (mapped (w ∷ x ∷ y ∷ z ∷ []) port)
parse_binding_response-xor_attr tid skipped after msg_len reserved family port w x y z h hp hw hx hy
      hz =
    parse_binding_response-response tid skipped a after msg_len (mapped (w ∷ x ∷ y ∷ z ∷ []) port) h
      λ offset e.
        let (t, e', _) = slice_within {E = StunError} d 4 20 (omega arith) (omega (arith, long)) in
        unfold dispatch_attr in
        rw (e, e', parse_xor_mapped_addr-xor_value reserved family port w x y z t hp hw hx hy hz)
          refl
  where
    a : Attr
    a = xor_attr (xor_value reserved family port w x y z)

    d : Bytes
    d = response tid skipped a after msg_len

    long : length d ≡ 20 + length (area tid skipped a after msg_len)
    long = length-message_onto 0x0101 msg_len magic tid (area tid skipped a after msg_len) h.id

-- A Binding Success Response that carries an IPv4 address in MAPPED-ADDRESS, behind attributes of
-- other types, gives that address, in net.IP's 16-byte form, and port, whatever follows. All
-- lengths fit 16 bits; the message length ends behind the start of the attribute and within the
-- data.
pub parse_binding_response-plain_attr :
    (tid : Bytes) (skipped : List Attr) (after : Bytes) (msg_len reserved family port w x y z : ℕ)
    → IsResponse tid skipped (plain_attr (plain_value reserved family port w x y z)) after msg_len
    → port < 65536
    → parse_binding_response
        (response tid skipped (plain_attr (plain_value reserved family port w x y z)) after msg_len)
      ≡ ok (mapped (ipv4 w x y z) port)
parse_binding_response-plain_attr tid skipped after msg_len reserved family port w x y z h hp =
    parse_binding_response-response tid skipped
      (plain_attr (plain_value reserved family port w x y z)) after msg_len
      (mapped (ipv4 w x y z) port) h
      λ offset e.
        unfold dispatch_attr in
        rw (e, parse_mapped_addr-plain_value reserved family port w x y z hp) refl

-- An XOR-MAPPED-ADDRESS attribute with a value of fewer than eight bytes, behind attributes of
-- other types, is taken for an answer: the result is the nil address with port 0, and no error.
pub parse_binding_response_short_attr :
    (tid : Bytes) (skipped : List Attr) (after value : Bytes) (msg_len : ℕ)
    → IsResponse tid skipped (xor_attr value) after msg_len
    → length value < 8
    → parse_binding_response (response tid skipped (xor_attr value) after msg_len)
      ≡ ok (mapped [] 0)
parse_binding_response_short_attr tid skipped after value msg_len h short =
    parse_binding_response-response tid skipped (xor_attr value) after msg_len (mapped [] 0) h
      λ offset e.
        let (t, e', _) = slice_within {E = StunError} d 4 20 (omega arith) (omega (arith, long)) in
        unfold dispatch_attr parse_xor_mapped_addr in rw (e, e', lt→ltb (length value) 8 short) refl
  where
    d : Bytes
    d = response tid skipped (xor_attr value) after msg_len

    long : length d ≡ 20 + length (area tid skipped (xor_attr value) after msg_len)
    long =
        length-message_onto 0x0101 msg_len magic tid
          (area tid skipped (xor_attr value) after msg_len) h.id
