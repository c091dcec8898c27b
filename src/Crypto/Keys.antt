-- ===== src/Crypto/Keys.antt =====
-- crypto.go: the hash chains of the two sides of a handshake.
use nexus_stun.Common.{
  ℕ, ◌≤◌, ◌<◌, ◌≡◌, ◌≢◌, ◌⊎◌, refl, sym, ap, ◌∙◌, inl, inr, not, Option, some, [], ◌++◌, ltb,
  length, length-append, take, take-append, Bytes, equal, equal_iff, slice, slice_at, Outcome, ok,
  reject, ok_steps, le→not_ltb, append-nil, slice_beyond, panic, arith, Bool-cases,
}
use nexus_stun.Crypto.{
  Primitives, NoiseHandshake, NoiseError, not_initialized, no_randomness, too_short, dh_failed,
  open_failed, or_fail, clamp, zeros_of, protocol_name, new_noise_handshake, mix_hash, mix_key,
  after_ee, sealed_static, write_message_a, read_message_a, read_message_b, get_session_key,
}

-- Two different inputs with one hash.
abbrev pub Collision : (Bytes → Bytes) → Type 0
Collision hash = (x : Bytes) × (y : Bytes) × (x ≢ y) × (hash x ≡ hash y)

same_front : (x y u v : Bytes) → x ++ u ≡ y ++ v → length x ≡ length y → x ≡ y
same_front x y u v e l =
    sym (take-append x u)
    ∙ ap (take (length x)) e
    ∙ ap (λ (n : ℕ). take n (y ++ v)) l
    ∙ take-append y v

collide_or_agree : (hash : Bytes → Bytes) (x y : Bytes) → hash x ≡ hash y → Collision hash ⊎ (x ≡ y)
collide_or_agree hash x y e = elim (Bool-cases (equal x y)) [
  | inl same ↦ inr ((equal_iff x y).0 same)
  | inr apart ↦ inl (x, y, (λ q. cc (apart, (equal_iff x y).1 q)), e)
]

-- The hash after another input: hash(hash so far ++ input).
abbrev mixed : (Bytes → Bytes) → Bytes → Bytes → Bytes
mixed hash so_far input = hash (so_far ++ input)

step_back :
    (hash : Bytes → Bytes) (a b u v : Bytes)
    → length a ≡ length b
    → mixed hash a u ≡ mixed hash b v
    → Collision hash ⊎ (a ≡ b)
step_back hash a b u v l e = elim (collide_or_agree hash (a ++ u) (b ++ v) e) [
  | inl c ↦ inl c
  | inr same ↦ inr (same_front a b u v same l)
]

-- The hash after the four inputs of a whole handshake.
abbrev chain : (Bytes → Bytes) → Bytes → Bytes → Bytes → Bytes → Bytes → Bytes
chain hash start remote ee sealed es =
    mixed hash (mixed hash (mixed hash (mixed hash start remote) ee) sealed) es

chain_back :
    (hash : Bytes → Bytes) (a b r r' ee ee' s s' es es' : Bytes)
    → ((x : Bytes) → length (hash x) ≡ 32)
    → length a ≡ length b
    → chain hash a r ee s es ≡ chain hash b r' ee' s' es'
    → Collision hash ⊎ (a ≡ b)
chain_back hash a b r r' ee ee' s s' es es' sized l e =
    elim (step_back hash _ _ es es' (sized _ ∙ sym (sized _)) e) [
      | inl c ↦ inl c
      | inr e1 ↦ elim (step_back hash _ _ s s' (sized _ ∙ sym (sized _)) e1) [
        | inl c ↦ inl c
        | inr e2 ↦ elim (step_back hash _ _ ee ee' (sized _ ∙ sym (sized _)) e2) [
          | inl c ↦ inl c
          | inr e3 ↦ step_back hash a b r r' l e3
        ]
      ]
    ]

ok_inv :
    {A B : Type 0} {a a' : A} {b b' : B}
    → ◌≡◌ {A = Outcome NoiseError (A × B)} (ok (a, b)) (ok (a', b'))
    → (a ≡ a') × (b ≡ b')
ok_inv e = (cc e, cc e)

value_inv : {A : Type 0} {a a' : A} → ◌≡◌ {A = Outcome NoiseError A} (ok a) (ok a') → a ≡ a'
value_inv e = cc e

module _ (p : Primitives) where
  write_message_a-hash :
      (h : NoiseHandshake) (random : Option Bytes) (a : Bytes) (h' : NoiseHandshake)
      → write_message_a p h random ≡ ok (a, h')
      → (key : Bytes) × (a ≡ p.base_mult key)
        × (h'.handshake_hash ≡ mixed p.sha256 h.handshake_hash a)
  unfolding write_message_a
  write_message_a-hash h random a h' e =
      let (_, _, e1) = ok_steps (reject (not h.initialized) not_initialized) _ e in
      let (key, _, e2) = ok_steps (or_fail random no_randomness) _ e1 in
      let (at_a, at_h) = ok_inv e2 in
      (
        clamp key,
        sym at_a,
        ap (λ (g : NoiseHandshake). g.handshake_hash) (sym at_h)
            ∙ ap (mixed p.sha256 h.handshake_hash) at_a,
      )

  read_message_a-hash :
      (h : NoiseHandshake) (random : Option Bytes) (a b : Bytes) (h' : NoiseHandshake)
      → read_message_a p h random a ≡ ok (b, h')
      → (remote : Bytes) × (ee : Bytes) × (sealed : Bytes) × (es : Bytes) × (h'.handshake_hash
          ≡ chain p.sha256 h.handshake_hash remote ee sealed es)
  unfolding read_message_a
  read_message_a-hash h random a b h' e =
      let (_, _, e1) = ok_steps (reject (ltb (length a) 32) too_short) _ e in
      let (remote, _, e2) = ok_steps (slice a 0 32) _ e1 in
      let (key, _, e3) = ok_steps (or_fail random no_randomness) _ e2 in
      let (ee, _, e4) = ok_steps (or_fail (p.x25519 (clamp key) remote) dh_failed) _ e3 in
      let (es, _, e5) = ok_steps (or_fail (p.x25519 h.static_key remote) dh_failed) _ e4 in
      (
        remote,
        ee,
        sealed_static p (after_ee p h remote (clamp key) ee),
        es,
        ap (λ (g : NoiseHandshake). g.handshake_hash) (sym (ok_inv e5).1),
      )

  read_message_b-hash :
      (h : NoiseHandshake) (b : Bytes) (h' : NoiseHandshake)
      → read_message_b p h b ≡ ok h'
      → (remote : Bytes) × (ee : Bytes) × (sealed : Bytes) × (es : Bytes) × (h'.handshake_hash
          ≡ chain p.sha256 h.handshake_hash remote ee sealed es)
  unfolding read_message_b
  read_message_b-hash h b h' e =
      let (_, _, e1) = ok_steps (reject (ltb (length b) 64) too_short) _ e in
      let (remote, _, e2) = ok_steps (slice b 0 32) _ e1 in
      let (ee, _, e3) = ok_steps (or_fail (p.x25519 h.ephemeral_key remote) dh_failed) _ e2 in
      let h1 = after_ee p h remote h.ephemeral_key ee in
      let (sealed, _, e4) = ok_steps (slice b 32 (length b)) _ e3 in
      let (static_bytes, _, e5) =
        ok_steps (or_fail (p.open_sealed h1.handshake_hash (zeros_of 12) sealed) open_failed) _
          e4 in
      let (remote_static, _, e6) = ok_steps (slice static_bytes 0 32) _ e5 in
      let (es, _, e7) =
        ok_steps (or_fail (p.x25519 h.ephemeral_key remote_static) dh_failed) _ e6 in
      let done : mix_key p (record (mix_hash p h1 sealed) { remote_static = remote_static }) es
          ≡ h' =
        value_inv e7 in
      (remote, ee, sealed, es, ap (λ (g : NoiseHandshake). g.handshake_hash) (sym done))

  -- The two sides of a handshake do not come to one session key: where an initiator and a responder run
  -- it to the end with equal keys, two inputs with the same SHA-256 hash are found. Hashes and public
  -- keys have 32 bytes.
  pub get_session_key-Collision :
      (static_a static_b : Bytes) (random_a random_b : Option Bytes) (a b : Bytes)
      (i i' r : NoiseHandshake)
      → ((x : Bytes) → length (p.sha256 x) ≡ 32)
      → ((x : Bytes) → length (p.base_mult x) ≡ 32)
      → write_message_a p (new_noise_handshake p static_a) random_a ≡ ok (a, i)
      → read_message_a p (new_noise_handshake p static_b) random_b a ≡ ok (b, r)
      → read_message_b p i b ≡ ok i'
      → get_session_key i' ≡ get_session_key r
      → Collision p.sha256
  unfolding get_session_key new_noise_handshake
  get_session_key-Collision static_a static_b random_a random_b a b i i' r sized public_sized ea er
        eb same =
      let (key, at_a, at_i) =
        write_message_a-hash (new_noise_handshake p static_a) random_a a i ea in
      let (r1, ee1, s1, es1, at_r) =
        read_message_a-hash (new_noise_handshake p static_b) random_b a b r er in
      let (r2, ee2, s2, es2, at_i') = read_message_b-hash i b i' eb in
      let start = p.sha256 protocol_name in
      elim (chain_back p.sha256 start i.handshake_hash r1 r2 ee1 ee2 s1 s2 es1 es2 sized
        (sized protocol_name ∙ sym (ap length at_i ∙ sized (start ++ a)))
        (sym at_r ∙ (sym same ∙ at_i'))) [
          | inl c ↦ c
          | inr e ↦ (
            protocol_name,
            start ++ a,
            (λ q. absurd (
                omega (
                  arith,
                  ap length q,
                  length-append start a,
                  sized protocol_name,
                  ap length at_a,
                  public_sized key,
                ))),
            e ∙ at_i,
          )
        ]

  -- A second message whose sealed part opens to fewer than 32 bytes, the spare capacity of Open's result
  -- being none, makes ReadMessageB panic.
  pub read_message_b_short_static :
      (h : NoiseHandshake) (remote ee sealed static_bytes : Bytes)
      → length remote ≡ 32
      → 32 ≤ length sealed
      → p.x25519 h.ephemeral_key remote ≡ some ee
      → p.open_sealed (after_ee p h remote h.ephemeral_key ee).handshake_hash (zeros_of 12) sealed
        ≡ some static_bytes
      → length static_bytes < 32
      → read_message_b p h (remote ++ sealed) ≡ panic
  unfolding read_message_b
  read_message_b_short_static h remote ee sealed static_bytes l ls ex eo short =
      rw
        (
          le→not_ltb (length b) 64 (omega (arith, l, ls, length-append remote sealed)),
          slice_at {E = NoiseError} b [] remote sealed 0 32 refl refl (omega (arith, l)),
          ex,
          slice_at {E = NoiseError} b remote sealed [] 32 (length b) (rw append-nil refl) (sym l)
              (omega (arith, l, length-append remote sealed)),
          eo,
          slice_beyond {E = NoiseError} static_bytes 0 32 short,
        )
        refl
    where
      b : Bytes
      b = remote ++ sealed
