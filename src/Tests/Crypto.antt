-- ===== src/Tests/Crypto.antt =====
-- Runs of crypto.go, and its theorems at concrete values.
use nexus_stun.Common.{
  arith, ℕ, zero, suc, ◌%◌, ◌^◌, ◌≤◌, ◌<◌, AreBytes, ◌≡◌, refl, true, some, [], ◌∷◌, ◌++◌, Bytes,
  codes, length, slice, ok, ◌>>=◌,
}
use nexus_stun.Crypto.{
  Primitives, NoiseHandshake, zeros_of, new_noise_handshake, write_message_a, read_message_a,
  read_message_b, encrypt, decrypt, clamp,
}
use nexus_stun.Crypto.Clamping.{scalar, clamp_lem}
use nexus_stun.Crypto.Sealing.{decrypt-encrypt}
use nexus_stun.Crypto.Keys.{Collision, get_session_key-Collision}

-- Operations of the right sizes, with one hash and one key for all, and an AEAD that changes nothing.
unfoldable toy : Primitives
toy = record {
  sha256 = λ x. zeros_of 32;
  base_mult = λ k. zeros_of 32;
  x25519 = λ k q. some (zeros_of 32);
  seal = λ k n m. m;
  open_sealed = λ k n c. some c;
}

abbrev nonce : Bytes
nonce = 1 ∷ 2 ∷ 3 ∷ 4 ∷ 5 ∷ 6 ∷ 7 ∷ 8 ∷ 9 ∷ 10 ∷ 11 ∷ 12 ∷ []

decrypt-encrypt_example :
    (encrypt toy (zeros_of 32) (some nonce) (codes "hi") >>= decrypt toy (zeros_of 32))
    ≡ ok (codes "hi")
unfolding toy
decrypt-encrypt_example = decrypt-encrypt toy (zeros_of 32) nonce (codes "hi") refl refl

toy_sha256_sized : (x : Bytes) → length (toy.sha256 x) ≡ 32
unfolding toy
toy_sha256_sized x = refl

toy_base_mult_sized : (k : Bytes) → length (toy.base_mult k) ≡ 32
unfolding toy
toy_base_mult_sized k = refl

abbrev key : Bytes
key = zeros_of 32

-- Either side once its ephemeral key is drawn: the toy hash leaves nothing else behind.
unfoldable drawn : NoiseHandshake
drawn = record {
  static_key = key;
  ephemeral_key = clamp key;
  remote_static = key;
  remote_ephemeral = key;
  handshake_hash = key;
  initialized = true;
}

initiator_writes : write_message_a toy (new_noise_handshake toy key) (some key) ≡ ok (key, drawn)
unfolding write_message_a new_noise_handshake toy drawn
initiator_writes = refl

responder_answers :
    read_message_a toy (new_noise_handshake toy key) (some key) key ≡ ok (key ++ key, drawn)
unfolding read_message_a new_noise_handshake toy drawn slice
responder_answers = refl

initiator_finishes : read_message_b toy drawn (key ++ key) ≡ ok drawn
unfolding read_message_b toy drawn slice
initiator_finishes = refl

get_session_key-Collision_example : Collision toy.sha256
get_session_key-Collision_example =
    get_session_key-Collision toy key key (some key) (some key) key (key ++ key) drawn drawn drawn
      toy_sha256_sized toy_base_mult_sized initiator_writes responder_answers initiator_finishes
      refl

-- An AEAD that opens everything to nothing.
unfoldable empty_opening : Primitives
unfolding toy
empty_opening = record toy { open_sealed = λ k n c. some [] }

x25519_answers : empty_opening.x25519 drawn.ephemeral_key key ≡ some key
unfolding empty_opening
x25519_answers = refl

opens_to_nothing : (k n c : Bytes) → empty_opening.open_sealed k n c ≡ some []
unfolding empty_opening
opens_to_nothing k n c = refl

zeros_of-AreBytes : (n : ℕ) → AreBytes (zeros_of n)
zeros_of-AreBytes zero = tt
zeros_of-AreBytes (suc n) = (omega arith, zeros_of-AreBytes n)

clamp_lem_example :
    (scalar (clamp (zeros_of 32)) % 8 ≡ 0)
    × (2 ^ 254 ≤ scalar (clamp (zeros_of 32)))
    × (scalar (clamp (zeros_of 32)) < 2 ^ 255)
clamp_lem_example = clamp_lem (zeros_of 32) refl (zeros_of-AreBytes 32)
