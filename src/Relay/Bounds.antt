-- ===== src/Relay/Bounds.antt =====
-- relay.go: the sizes of what readMessage returns, so that it can be sent on.
use nexus_stun.Common.{
  ℕ, ◌≤◌, ◌<◌, ◌≡◌, subst, inl, inr, [], ◌∷◌, ◌==◌, ltb, if◌then◌else◌, length, Bytes, AreBytes,
  index, uint32, ok, ◌>>◌, reject, arith, Bool-cases, ok_steps, All-append_inv, IsByte,
}
use nexus_stun.Relay.{
  RelayMessage, relay_msg_data, RelayError, payload_too_large, read_full, read_string,
  is_ping_or_pong, read_sized, read_payload, read_body, bare, read_message,
}
use nexus_stun.Relay.Streams.{read_full_inv}

index-IsByte : (b : Bytes) {n : ℕ} → AreBytes b → index {E = RelayError} b 0 ≡ ok n → n < 256
unfolding index
index-IsByte [] h e = cc
index-IsByte (x ∷ b) (hx, h) e = ground (arith, e, hx)

-- A read keeps what is left within bytes.
read_full-AreBytes :
    (n : ℕ) (s a r : Bytes) → AreBytes s → read_full n s ≡ ok (a, r) → AreBytes a × AreBytes r
read_full-AreBytes n s a r h e =
    let (p, _) = read_full_inv n s a r e in All-append_inv IsByte a r (subst AreBytes p h)

read_string_bounds :
    (s a r : Bytes) → AreBytes s → read_string s ≡ ok (a, r) → (length a < 256) × AreBytes r
unfolding read_string
read_string_bounds s a r h e =
    let ((b, s'), p, q) = ok_steps (read_full 1 s) _ e in
    let (n, p', q') = ok_steps (index b 0) (λ n. read_full n s') q in
    let (hb, hs) = read_full-AreBytes 1 s b s' h p in
    let lt : n < 256 = index-IsByte b hb p' in
    (omega (arith, (read_full_inv n s' a r q').1), (read_full-AreBytes n s' a r hs q').1)

read_sized_bounds : (s a r : Bytes) → read_sized s ≡ ok (a, r) → length a ≤ 65535
unfolding read_sized
read_sized_bounds s a r e =
    let ((b, s'), p, q) = ok_steps (read_full 4 s) _ e in
    let (n, p', q') =
      ok_steps (uint32 b) (λ n. reject (ltb 65535 n) payload_too_large >> read_full n s') q in
    within n s' q'
  where
    within :
        (n : ℕ) (s' : Bytes)
        → (reject (ltb 65535 n) payload_too_large >> read_full n s') ≡ ok (a, r)
        → length a ≤ 65535
    within n s' q = elim (Bool-cases (ltb 65535 n)) [
      | inl large ↦ cc (rw large at q)
      | inr small ↦ let p = (read_full_inv n s' a r (rw small at q)).1 in ground (arith, p)
    ]

read_payload_bounds : (t : ℕ) (s a r : Bytes) → read_payload t s ≡ ok (a, r) → length a ≤ 65535
unfolding read_payload
read_payload_bounds t s a r e = elim (Bool-cases (t == relay_msg_data)) [
  | inl is_data ↦ read_sized_bounds s a r (rw is_data at e)
  | inr other ↦ let p = rw other at e in ground (arith, p)
]

-- What a message on the wire can be.
pub record IsSendable (m : RelayMessage) : Type 0 where
  pub src_short : length m.src_node < 256
  pub dst_short : length m.dst_node < 256
  pub payload_short : length m.payload ≤ 65535

read_body-IsSendable :
    (t : ℕ) (s : Bytes) (m : RelayMessage) (r : Bytes)
    → AreBytes s
    → read_body t s ≡ ok (m, r)
    → IsSendable m
unfolding read_body
read_body-IsSendable t s m r h e =
    let ((src, s1), p, q) = ok_steps (read_string s) _ e in
    let ((dst, s2), p', q') = ok_steps (read_string s1) _ q in
    let ((payload, s3), p'', q'') = ok_steps (read_payload t s2) _ q' in
    let (hs, h1) = read_string_bounds s src s1 h p in
    let (hd, _) = read_string_bounds s1 dst s2 h1 p' in
    let hp = read_payload_bounds t s2 payload s3 p'' in ground (arith, q'', hs, hd, hp)

-- Every message that readMessage returns from a sequence of bytes has node names of fewer than 256
-- bytes and a payload of at most 65535.
pub read_message-IsSendable :
    (s : Bytes) (m : RelayMessage) (r : Bytes)
    → AreBytes s
    → read_message s ≡ ok (m, r)
    → IsSendable m
unfolding read_message
read_message-IsSendable s m r h e =
    let ((b, s'), p, q) = ok_steps (read_full 1 s) _ e in
    let (t, p', q') =
      ok_steps (index b 0) (λ t. if is_ping_or_pong t then ok (bare t, s') else read_body t s') q in
    let (_, hs) = read_full-AreBytes 1 s b s' h p in
    elim (Bool-cases (is_ping_or_pong t)) [
      | inl small ↦ let k = rw small at q' in ground (arith, k)
      | inr other ↦ read_body-IsSendable t s' m r hs (rw other at q')
    ]
