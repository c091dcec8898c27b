-- ===== src/Relay/Frames.antt =====
-- relay.go: readMessage reads what sendMessage wrote.
use nexus_stun.Common.{
  ℕ, ◌%◌, ◌^◌, ◌≤◌, ◌<◌, ◌≡◌, refl, sym, ap, ◌∙◌, inl, inr, [], ◌∷◌, ◌++◌, ◌==◌, if◌then◌else◌,
  length, take, drop, Bytes, index, put_uint32, uint32-put_uint32, ok, err, arith, Bool-cases,
  le→not_ltb, lt→ltb, length-append, take-append, drop-append, append_assoc, take-append-drop,
  take-length,
}
use nexus_stun.Relay.{
  RelayMessage, relay_msg_data, RelayError, payload_too_large, read_full, read_string,
  is_ping_or_pong, read_sized, read_payload, read_body, bare, read_message, write_string,
  send_message,
}

pub read_full-append :
    (n : ℕ) (s rest : Bytes) → n ≡ length s → read_full n (s ++ rest) ≡ ok (s, rest)
unfolding read_full
read_full-append n s rest e =
    rw
      (
        e,
        le→not_ltb (length (s ++ rest)) (length s) (omega (arith, length-append s rest)),
        take-append s rest,
        drop-append s rest,
      )
      refl

read_string_prefix :
    (n : ℕ) (s rest : Bytes) → n ≡ length s → read_string (n ∷ (s ++ rest)) ≡ ok (s, rest)
unfolding read_string index
read_string_prefix n s rest e =
    rw (read_full-append 1 (n ∷ []) (s ++ rest) refl) (read_full-append n s rest e)

-- Whatever was written as a string, as much of it is read as its length modulo 256 says.
pub read_string-write_string :
    (s rest : Bytes)
    → let n = length s % 256 in
      read_string (write_string s ++ rest) ≡ ok (take n s, drop n s ++ rest)
unfolding write_string
read_string-write_string s rest =
    let n = length s % 256 in
    ap (λ (t : Bytes). read_string (n ∷ t))
      (ap (λ (t : Bytes). t ++ rest) (sym (take-append-drop n s))
        ∙ append_assoc (take n s) (drop n s) rest)
    ∙ read_string_prefix n (take n s) (drop n s ++ rest) (sym (take-length n s (omega arith)))

-- So a string of fewer than 256 bytes is read back.
pub read_string-write_string_short :
    (s rest : Bytes) → length s < 256 → read_string (write_string s ++ rest) ≡ ok (s, rest)
unfolding write_string
read_string-write_string_short s rest h = read_string_prefix (length s % 256) s rest (omega arith)

read_payload-put :
    (t : ℕ) (payload rest : Bytes)
    → length payload ≤ 65535
    → read_payload t (
        (if t == relay_msg_data then put_uint32 (length payload % 2 ^ 32) ++ payload else [])
        ++ rest)
      ≡ ok ((if t == relay_msg_data then payload else []), rest)
unfolding read_payload read_sized
read_payload-put t payload rest h = elim (Bool-cases (t == relay_msg_data)) [
  | inl is_data ↦
      rw
        (
          is_data,
          read_full-append 4 (put_uint32 (length payload % 2 ^ 32)) (payload ++ rest) refl,
          uint32-put_uint32 {E = RelayError} (length payload % 2 ^ 32) [] (omega arith),
          le→not_ltb 65535 (length payload % 2 ^ 32) (omega arith),
          read_full-append (length payload % 2 ^ 32) payload rest (omega arith),
        )
        refl
  | inr other ↦ rw other refl
]

-- What arrives of a message: pings and pongs carry their type alone, and only data a payload.
abbrev pub delivered : ℕ → Bytes → Bytes → Bytes → RelayMessage
delivered t src dst payload = if is_ping_or_pong t then bare t else record {
  msg_type = t;
  src_node = src;
  dst_node = dst;
  payload = if t == relay_msg_data then payload else [];
}

read_body-write :
    (t : ℕ) (src dst payload rest : Bytes)
    → length src < 256
    → length dst < 256
    → length payload ≤ 65535
    → let p = if t == relay_msg_data then put_uint32 (length payload % 2 ^ 32) ++ payload else [] in
      read_body t (write_string src ++ (write_string dst ++ (p ++ rest)))
      ≡ ok (
        record {
          msg_type = t;
          src_node = src;
          dst_node = dst;
          payload = if t == relay_msg_data then payload else [];
        },
        rest,
      )
unfolding read_body
read_body-write t src dst payload rest hs hd hp =
    rw
      (
        read_string-write_string_short src _ hs,
        read_string-write_string_short dst _ hd,
        read_payload-put t payload rest hp,
      )
      refl

-- readMessage returns the message that sendMessage wrote, and leaves what follows it, for node names
-- of fewer than 256 bytes and payloads of at most 65535.
pub read_message-send_message :
    (t : ℕ) (src dst payload rest : Bytes)
    → length src < 256
    → length dst < 256
    → length payload ≤ 65535
    → read_message (send_message t src dst payload ++ rest) ≡ ok (delivered t src dst payload, rest)
unfolding read_message send_message index
read_message-send_message t src dst payload rest hs hd hp = elim (Bool-cases (is_ping_or_pong t)) [
  | inl bare_type ↦ rw (bare_type, read_full-append 1 (t ∷ []) rest refl, bare_type) refl
  | inr other ↦
      let p : Bytes =
        if t == relay_msg_data then put_uint32 (length payload % 2 ^ 32) ++ payload else [] in
      rw
        (
          other,
          append_assoc (write_string src) (write_string dst ++ p) rest,
          append_assoc (write_string dst) p rest,
          read_full-append 1 (t ∷ []) (write_string src ++ (write_string dst ++ (p ++ rest))) refl,
          other,
        )
        (read_body-write t src dst payload rest hs hd hp)
]

-- A data message with a payload of more than 65535 bytes (and fewer than 2^32), which sendMessage
-- writes all the same, is refused by readMessage.
pub read_message-send_message_large :
    (src dst payload rest : Bytes)
    → length src < 256
    → length dst < 256
    → 65535 < length payload
    → length payload < 2 ^ 32
    → read_message (send_message relay_msg_data src dst payload ++ rest) ≡ err payload_too_large
unfolding read_message send_message index read_body read_payload read_sized
read_message-send_message_large src dst payload rest hs hd hp hq =
    let n = put_uint32 (length payload % 2 ^ 32) in
    rw
      (
        append_assoc (write_string src) (write_string dst ++ (n ++ payload)) rest,
        append_assoc (write_string dst) (n ++ payload) rest,
        read_full-append 1 (relay_msg_data ∷ [])
            (write_string src ++ (write_string dst ++ ((n ++ payload) ++ rest))) refl,
        read_string-write_string_short src (write_string dst ++ ((n ++ payload) ++ rest)) hs,
        read_string-write_string_short dst ((n ++ payload) ++ rest) hd,
        read_full-append 4 n (payload ++ rest) refl,
        uint32-put_uint32 {E = RelayError} (length payload % 2 ^ 32) [] (omega arith),
        lt→ltb 65535 (length payload % 2 ^ 32) (omega arith),
      )
      refl
