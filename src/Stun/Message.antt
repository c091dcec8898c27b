-- ===== src/Stun/Message.antt =====
-- The layout of RFC 8489 messages as the sender writes them, and what parseBindingResponse of
-- stun.go makes of a message by its header.
use nexus_stun.Common.{
  ℕ, zero, suc, ◌+◌, ◌-◌, ◌%◌, ◌<◌, ◌≡◌, refl, sym, ap, ◌∙◌, inl, inr, false, not, List, [], ◌∷◌,
  ◌++◌, arith, ltb, ◌==◌, if◌then◌else◌, Bool-cases, le→not_ltb, length, length-append,
  append_assoc, Bytes, put_uint16, put_uint32, slice_at, uint16-put_uint16, uint32-put_uint32, ok,
  err,
}
use nexus_stun.Stun.{
  StunError, bad_cookie, bad_message_type, truncated, attr_loop, attr_header,
  parse_binding_response, stun_magic_cookie,
}

abbrev pub zeros : ℕ → Bytes
zeros zero = []
zeros (suc n) = 0 ∷ zeros n

-- An attribute, and its encoding in front of what follows it: type, length, value, padding.
pub record Attr : Type 0 where
  pub attr_type : ℕ
  pub value : Bytes

abbrev pub padding : Bytes → Bytes
padding v = zeros ((4 - length v % 4) % 4)

abbrev pub attr_onto : Attr → Bytes → Bytes
attr_onto a rest =
    put_uint16 a.attr_type
    ++ (put_uint16 (length a.value) ++ (a.value ++ (padding a.value ++ rest)))

abbrev pub attrs_onto : List Attr → Bytes → Bytes
attrs_onto [] rest = rest
attrs_onto (a ∷ attrs) rest = attr_onto a (attrs_onto attrs rest)

-- The header: message type, message length, cookie and transaction id, in front of the rest.
abbrev pub message_onto : ℕ → ℕ → ℕ → Bytes → Bytes → Bytes
message_onto msg_type msg_len cookie tid rest =
    put_uint16 msg_type ++ (put_uint16 msg_len ++ (put_uint32 cookie ++ (tid ++ rest)))

pub length-zeros : (n : ℕ) → length (zeros n) ≡ n
length-zeros zero = refl
length-zeros (suc n) = ap suc (length-zeros n)

pub attr_header_lem :
    (d pre rest : Bytes) (t n offset : ℕ)
    → d ≡ pre ++ (put_uint16 t ++ (put_uint16 n ++ rest))
    → offset ≡ length pre
    → t < 65536
    → n < 65536
    → attr_header d offset ≡ ok (t, n)
attr_header_lem d pre rest t n offset e p ht hn =
    rw
      (
        slice_at {E = StunError} d pre (put_uint16 t) (put_uint16 n ++ rest) offset (offset + 2) e p
            refl,
        uint16-put_uint16 {E = StunError} t [] ht,
        slice_at {E = StunError} d (pre ++ put_uint16 t) (put_uint16 n) rest (offset + 2)
            (offset + 4) (e ∙ sym (append_assoc pre (put_uint16 t) (put_uint16 n ++ rest)))
            (omega (arith, length-append pre (put_uint16 t))) (omega arith),
        uint16-put_uint16 {E = StunError} n [] hn,
      )
      refl

pub length-message_onto :
    (msg_type msg_len cookie : ℕ) (tid rest : Bytes)
    → length tid ≡ 12
    → length (message_onto msg_type msg_len cookie tid rest) ≡ 20 + length rest
length-message_onto msg_type msg_len cookie tid rest l = omega (arith, length-append tid rest)

-- On a message with a whole header, whose fields fit their widths, the answer is decided by the
-- cookie, the type and the length, in this order, and by the attribute loop where all three are
-- right.
pub parse_binding_response-message_onto :
    (msg_type msg_len cookie : ℕ) (tid rest : Bytes)
    → msg_type < 65536
    → msg_len < 65536
    → cookie < 4294967296
    → length tid ≡ 12
    → let d = message_onto msg_type msg_len cookie tid rest in
      parse_binding_response d ≡ (
        if not (cookie == 0x2112A442)
        then err bad_cookie
        else if not (msg_type == 0x0101)
        then err bad_message_type
        else if ltb (length rest) msg_len
        then err truncated
        else attr_loop (suc (length d)) d (20 + msg_len) 20)
unfolding parse_binding_response
parse_binding_response-message_onto msg_type msg_len cookie tid rest ht hn hc l =
    rw
      (
        long,
        slice_at {E = StunError} d (t ++ n) c (tid ++ rest) 4 8 refl refl refl,
        uint32-put_uint32 {E = StunError} cookie [] hc,
      )
      (elim (Bool-cases (not (cookie == stun_magic_cookie))) [
        | inl bad ↦ rw bad refl
        | inr good ↦
            rw
              (
                good,
                slice_at {E = StunError} d [] t (n ++ (c ++ (tid ++ rest))) 0 2 refl refl refl,
                uint16-put_uint16 {E = StunError} msg_type [] ht,
              )
              (elim (Bool-cases (not (msg_type == 0x0101))) [
                | inl bad ↦ rw bad refl
                | inr good' ↦
                    rw
                      (
                        good',
                        slice_at {E = StunError} d t n (c ++ (tid ++ rest)) 2 4 refl refl refl,
                        uint16-put_uint16 {E = StunError} msg_len [] hn,
                        fits,
                      )
                      (elim (Bool-cases (ltb (length rest) msg_len)) [
                        | inl bad ↦ rw bad refl
                        | inr enough ↦ rw enough refl
                      ])
              ])
      ])
  where
    t : Bytes
    t = put_uint16 msg_type

    n : Bytes
    n = put_uint16 msg_len

    c : Bytes
    c = put_uint32 cookie

    d : Bytes
    d = message_onto msg_type msg_len cookie tid rest

    length_d : length d ≡ 20 + length rest
    length_d = length-message_onto msg_type msg_len cookie tid rest l

    long : ltb (length d) 20 ≡ false
    long = le→not_ltb (length d) 20 (omega (arith, length_d))

    fits : ltb (length d) (20 + msg_len) ≡ ltb (length rest) msg_len
    fits = ground (arith, length_d)
