-- ===== src/Relay/Streams.antt =====
-- relay.go: a frame says where it ends. What readMessage takes does not depend on the bytes that come
-- later, and no frame is the beginning of another.
use nexus_stun.Common.{
  ℕ, ◌≡◌, refl, sym, ap, ◌∙◌, inl, inr, Bool, true, false, [], ◌∷◌, ◌++◌, ◌==◌, ltb, if◌then◌else◌,
  length, Bytes, index, uint32, Outcome, ok, err, panic, out_of_fuel, ◌>>=◌, reject, arith,
  Bool-cases, Returns, ok_steps, length-append, append_assoc, take-append-drop, take-length,
  index_within, uint32_within,
}
use nexus_stun.Relay.{
  RelayMessage, relay_msg_data, RelayError, payload_too_large, Read, read_full, read_string,
  is_ping_or_pong, read_sized, read_payload, read_body, bare, read_message,
}
use nexus_stun.Relay.Frames.{read_full-append}

-- What was taken, and that it suffices whatever comes behind it.
pub record Takes {A : Type 0} (reader : Bytes → Read A) (s : Bytes) (a : A) (r : Bytes)
    : Type 0 where
  pub front : Bytes
  pub splits : s ≡ front ++ r
  pub again : (more : Bytes) → reader (front ++ more) ≡ ok (a, more)

abbrev pub IsStream : {A : Type 0} → (Bytes → Read A) → Type 0
IsStream {A} reader = (s : Bytes) (a : A) (r : Bytes) → reader s ≡ ok (a, r) → Takes reader s a r

pub read_full_inv :
    (n : ℕ) (s a r : Bytes) → read_full n s ≡ ok (a, r) → (s ≡ a ++ r) × (n ≡ length a)
unfolding read_full
read_full_inv n s a r e = elim (Bool-cases (ltb (length s) n)) [
  | inl short ↦ cc (e, short)
  | inr enough ↦ ground (arith, enough, take-append-drop n s, take-length n s)
]

read_full-IsStream : (n : ℕ) → IsStream (read_full n)
read_full-IsStream n s a r e =
    let (p, q) = read_full_inv n s a r e in
    record { front = a; splits = p; again = λ more. read_full-append n a more q }

ok-IsStream : {A : Type 0} (a : A) → IsStream (λ s. ok (a, s))
ok-IsStream a s b r e = record {
  front = [];
  splits = ground (arith, e);
  again = λ more. ground (arith, e);
}

bind-IsStream :
    {A B : Type 0} (m : Bytes → Read A) (k : A → Bytes → Read B)
    → IsStream m
    → ((a : A) → IsStream (k a))
    → IsStream (λ s. m s >>= λ (a, s'). k a s')
bind-IsStream m k hm hk s b r e =
    let ((a, s'), p, q) = ok_steps (m s) (λ (a, s'). k a s') e in
    let t = hm s a s' p in
    let u = hk a s' b r q in
    record {
      front = t.front ++ u.front;
      splits = t.splits ∙ ap (◌++◌ t.front) u.splits ∙ sym (append_assoc t.front u.front r);
      again =
          λ more. rw (append_assoc t.front u.front more, t.again (u.front ++ more)) (u.again more);
    }

-- A step that reads nothing.
pure-IsStream :
    {A B : Type 0} (m : Outcome RelayError A) (k : A → Bytes → Read B)
    → ((a : A) → IsStream (k a))
    → IsStream (λ s. m >>= λ a. k a s)
pure-IsStream (ok a) k hk s b r e = hk a s b r e
pure-IsStream (err x) k hk s b r e = cc
pure-IsStream panic k hk s b r e = cc
pure-IsStream out_of_fuel k hk s b r e = cc

if-IsStream :
    {A : Type 0} (b : Bool) (m k : Bytes → Read A)
    → IsStream m
    → IsStream k
    → IsStream (λ s. if b then m s else k s)
if-IsStream true m k hm hk = hm
if-IsStream false m k hm hk = hk

read_string-IsStream : IsStream read_string
unfolding read_string
read_string-IsStream =
    bind-IsStream (read_full 1) (λ b s. index b 0 >>= λ n. read_full n s) (read_full-IsStream 1)
      λ b. pure-IsStream (index b 0) read_full read_full-IsStream

read_payload-IsStream : (t : ℕ) → IsStream (read_payload t)
unfolding read_payload read_sized
read_payload-IsStream t =
    if-IsStream (t == relay_msg_data) read_sized (λ s. ok ([], s))
      (bind-IsStream (read_full 4)
        (λ b s. uint32 b >>= λ n. reject (ltb 65535 n) payload_too_large >>= λ _. read_full n s)
        (read_full-IsStream 4)
        (λ b.
          pure-IsStream (uint32 b)
            (λ n s. reject (ltb 65535 n) payload_too_large >>= λ _. read_full n s)
            (λ n.
              pure-IsStream (reject (ltb 65535 n) payload_too_large) (λ _ s. read_full n s)
                (λ _. read_full-IsStream n))))
      (ok-IsStream [])

read_body-IsStream : (t : ℕ) → IsStream (read_body t)
unfolding read_body
read_body-IsStream t = bind-IsStream read_string _ read_string-IsStream λ src.
    bind-IsStream read_string _ read_string-IsStream
      λ dst. bind-IsStream (read_payload t) _ (read_payload-IsStream t) λ payload. ok-IsStream _

pub read_message-IsStream : IsStream read_message
unfolding read_message
read_message-IsStream =
    bind-IsStream (read_full 1)
      (λ b s. index b 0 >>= λ t. if is_ping_or_pong t then ok (bare t, s) else read_body t s)
      (read_full-IsStream 1)
      λ b.
        pure-IsStream (index b 0) _
          λ t. if-IsStream (is_ping_or_pong t) _ _ (ok-IsStream (bare t)) (read_body-IsStream t)

-- Totality, by the same steps.
then-Returns :
    {A B : Type 0} (m : Read A) (k : A → Bytes → Read B)
    → Returns m
    → ((a : A) (s : Bytes) → m ≡ ok (a, s) → Returns (k a s))
    → Returns (m >>= λ (a, s). k a s)
then-Returns (ok (a, s)) k h hk = hk a s refl
then-Returns (err e) k h hk = tt
then-Returns panic k h hk = elim h [ ]
then-Returns out_of_fuel k h hk = elim h [ ]

read_full-Returns : (n : ℕ) (s : Bytes) → Returns (read_full n s)
unfolding read_full
read_full-Returns n s = elim (Bool-cases (ltb (length s) n)) [ inl e ↦ rw e tt | inr e ↦ rw e tt ]

-- A read of one byte gives that byte.
byte-Returns :
    {B : Type 0} (s : Bytes) (k : ℕ → Bytes → Read B)
    → ((n : ℕ) (s' : Bytes) → Returns (k n s'))
    → Returns (read_full 1 s >>= λ (b, s'). index b 0 >>= λ n. k n s')
byte-Returns s k h =
    then-Returns (read_full 1 s) (λ b s'. index b 0 >>= λ n. k n s') (read_full-Returns 1 s)
      λ b s' e.
        let (n, p) =
          index_within {E = RelayError} b 0 (omega (arith, (read_full_inv 1 s b s' e).1)) in
        rw p (h n s')

read_string-Returns : (s : Bytes) → Returns (read_string s)
unfolding read_string
read_string-Returns s = byte-Returns s read_full read_full-Returns

read_sized-Returns : (s : Bytes) → Returns (read_sized s)
unfolding read_sized
read_sized-Returns s = then-Returns (read_full 4 s) _ (read_full-Returns 4 s) λ b s' e.
    let (n, p) = uint32_within {E = RelayError} b (omega (arith, (read_full_inv 4 s b s' e).1)) in
    rw p
      (elim (Bool-cases (ltb 65535 n)) [ inl x ↦ rw x tt | inr x ↦ rw x (read_full-Returns n s') ])

read_payload-Returns : (t : ℕ) (s : Bytes) → Returns (read_payload t s)
unfolding read_payload
read_payload-Returns t s = elim (Bool-cases (t == relay_msg_data)) [
  | inl e ↦ rw e (read_sized-Returns s)
  | inr e ↦ rw e tt
]

read_body-Returns : (t : ℕ) (s : Bytes) → Returns (read_body t s)
unfolding read_body
read_body-Returns t s = then-Returns (read_string s) _ (read_string-Returns s) λ src s1 _.
    then-Returns (read_string s1) _ (read_string-Returns s1)
      λ dst s2 _. then-Returns (read_payload t s2) _ (read_payload-Returns t s2) λ payload s3 _. tt

-- readMessage returns a message or an error on every sequence of bytes: no slice or index is out of
-- range.
pub read_message-Returns : (s : Bytes) → Returns (read_message s)
unfolding read_message
read_message-Returns s = byte-Returns s _ λ t s'. elim (Bool-cases (is_ping_or_pong t)) [
  | inl e ↦ rw e tt
  | inr e ↦ rw e (read_body-Returns t s')
]

error_of :
    {A : Type 0} (m : Read A)
    → Returns m
    → ((a : A) (r : Bytes) → m ≡ ok (a, r) → ⊥)
    → (e : RelayError) × (m ≡ err e)
error_of (ok (a, r)) h k = absurd (k a r refl)
error_of (err e) h k = (e, refl)
error_of panic h k = elim h [ ]
error_of out_of_fuel h k = elim h [ ]

-- Where a sequence of bytes is one whole readable frame, readMessage returns an error on every
-- proper beginning of it: it neither returns a message nor panics.
pub read_message_partial :
    (front back : Bytes) (x : ℕ) (m : RelayMessage)
    → read_message (front ++ (x ∷ back)) ≡ ok (m, [])
    → (e : RelayError) × (read_message front ≡ err e)
read_message_partial front back x m h =
    error_of (read_message front) (read_message-Returns front) λ m' r e.
      let t = read_message-IsStream front m' r e in
      let whole =
        ap read_message
          (ap (λ (s : Bytes). s ++ (x ∷ back)) t.splits ∙ append_assoc t.front r (x ∷ back)) in
      let left = ok-rest (sym h ∙ whole ∙ t.again (r ++ (x ∷ back))) in
      absurd (omega (arith, ap length left, length-append r (x ∷ back)))
  where
    ok-rest :
        {a b : RelayMessage} {s t : Bytes}
        → ◌≡◌ {A = Read RelayMessage} (ok (a, s)) (ok (b, t))
        → s ≡ t
    ok-rest e = cc
