-- ===== src/Crypto.antt =====
-- crypto.go: the Noise handshake and the encryption with the session key. SHA-256, Curve25519 and
-- ChaCha20-Poly1305 are parameters, as one record of operations; a [32]byte array is a byte list.
-- chacha20poly1305.New does not fail on a 32-byte key. A call that returns an error gives no state.
pub mod Clamping
pub mod Keys
pub mod Sealing
use nexus_stun.Common.{
  ℕ, zero, suc, ◌+◌, Bool, true, not, Option, none, some, List, [], ◌∷◌, ◌++◌, ltb, length, Bytes,
  codes, bit_and, bit_or, slice, Outcome, ok, err, ◌>>=◌, ◌>>◌, reject,
}

pub record Primitives : Type 0 where
  pub sha256 : Bytes → Bytes
  -- curve25519.ScalarBaseMult and X25519, which fails on a low-order point
  pub base_mult : Bytes → Bytes
  pub x25519 : Bytes → Bytes → Option Bytes
  -- Seal and Open of the AEAD, by key and nonce, with no associated data
  pub seal : Bytes → Bytes → Bytes → Bytes
  pub open_sealed : Bytes → Bytes → Bytes → Option Bytes

pub record NoiseHandshake : Type 0 where
  pub static_key : Bytes
  pub ephemeral_key : Bytes
  pub remote_static : Bytes
  pub remote_ephemeral : Bytes
  pub handshake_hash : Bytes
  pub initialized : Bool

pub data NoiseError : Type 0 where
  not_initialized no_randomness too_short dh_failed open_failed : NoiseError

abbrev pub or_fail : {A : Type 0} → Option A → NoiseError → Outcome NoiseError A
or_fail none e = err e
or_fail (some a) e = ok a

abbrev pub zeros_of : ℕ → Bytes
zeros_of zero = []
zeros_of (suc n) = 0 ∷ zeros_of n

-- key[i] = f(key[i])
unfoldable pub update : ℕ → (ℕ → ℕ) → Bytes → Bytes
update i f [] = []
update zero f (b ∷ key) = f b ∷ key
update (suc i) f (b ∷ key) = b ∷ update i f key

-- key[0] &= 248; key[31] = (key[31] & 127) | 64
unfoldable pub clamp : Bytes → Bytes
unfolding update
clamp key = update 31 (λ b. bit_or (bit_and b 127) 64) (update 0 (λ b. bit_and b 248) key)

abbrev pub protocol_name : Bytes
protocol_name = codes "Noise_XX_25519_ChaChaPoly_SHA256"

unfoldable pub get_remote_static : NoiseHandshake → Bytes
get_remote_static h = h.remote_static

unfoldable pub get_session_key : NoiseHandshake → Bytes
get_session_key h = h.handshake_hash

module _ (p : Primitives) where
  unfoldable pub new_noise_handshake : Bytes → NoiseHandshake
  new_noise_handshake static_key = record {
    static_key = static_key;
    ephemeral_key = zeros_of 32;
    remote_static = zeros_of 32;
    remote_ephemeral = zeros_of 32;
    handshake_hash = p.sha256 protocol_name;
    initialized = true;
  }

  -- mixHash; mixKey has the same body
  abbrev pub mix_hash : NoiseHandshake → Bytes → NoiseHandshake
  mix_hash h input = record h { handshake_hash = p.sha256 (h.handshake_hash ++ input) }

  abbrev pub mix_key : NoiseHandshake → Bytes → NoiseHandshake
  mix_key h input = record h { handshake_hash = p.sha256 (h.handshake_hash ++ input) }

  -- The message, and the state behind it; `random` is what rand.Read gives.
  unfoldable pub write_message_a :
      NoiseHandshake → Option Bytes → Outcome NoiseError (Bytes × NoiseHandshake)
  write_message_a h random = do
    reject (not h.initialized) not_initialized
    key ← or_fail random no_randomness
    ok (
      p.base_mult (clamp key),
      mix_hash (record h { ephemeral_key = clamp key }) (p.base_mult (clamp key)),
    )

  -- the state once the peer's ephemeral key, our own and their shared secret are in
  abbrev pub after_ee : NoiseHandshake → Bytes → Bytes → Bytes → NoiseHandshake
  after_ee h remote own shared =
      mix_key
        (record (mix_hash (record h { remote_ephemeral = remote }) remote) { ephemeral_key = own })
        shared

  abbrev pub sealed_static : NoiseHandshake → Bytes
  sealed_static h = p.seal h.handshake_hash (zeros_of 12) (p.base_mult h.static_key)

  unfoldable pub read_message_a :
      NoiseHandshake → Option Bytes → Bytes → Outcome NoiseError (Bytes × NoiseHandshake)
  read_message_a h random msg = do
    reject (ltb (length msg) 32) too_short
    remote ← slice msg 0 32
    key ← or_fail random no_randomness
    shared_ee ← or_fail (p.x25519 (clamp key) remote) dh_failed
    let h' = after_ee h remote (clamp key) shared_ee
    shared_es ← or_fail (p.x25519 h.static_key remote) dh_failed
    ok (
      p.base_mult (clamp key) ++ sealed_static h',
      mix_key (mix_hash h' (sealed_static h')) shared_es,
    )

  unfoldable pub read_message_b : NoiseHandshake → Bytes → Outcome NoiseError NoiseHandshake
  read_message_b h msg = do
    reject (ltb (length msg) 64) too_short
    remote ← slice msg 0 32
    shared_ee ← or_fail (p.x25519 h.ephemeral_key remote) dh_failed
    let h' = after_ee h remote h.ephemeral_key shared_ee
    sealed ← slice msg 32 (length msg)
    static_bytes ← or_fail (p.open_sealed h'.handshake_hash (zeros_of 12) sealed) open_failed
    remote_static ← slice static_bytes 0 32
    shared_es ← or_fail (p.x25519 h.ephemeral_key remote_static) dh_failed
    ok (mix_key (record (mix_hash h' sealed) { remote_static = remote_static }) shared_es)

  -- `random` is the nonce that rand.Read gives.
  unfoldable pub encrypt : Bytes → Option Bytes → Bytes → Outcome NoiseError Bytes
  encrypt key random plaintext = do
    nonce ← or_fail random no_randomness
    ok (nonce ++ p.seal key nonce plaintext)

  unfoldable pub decrypt : Bytes → Bytes → Outcome NoiseError Bytes
  decrypt key ciphertext = do
    reject (ltb (length ciphertext) 12) too_short
    nonce ← slice ciphertext 0 12
    sealed ← slice ciphertext 12 (length ciphertext)
    or_fail (p.open_sealed key nonce sealed) open_failed
