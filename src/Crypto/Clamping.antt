-- ===== src/Crypto/Clamping.antt =====
-- crypto.go and wireguard.go: the clamping of a random private key, as a scalar of Curve25519.
use nexus_stun.Common.{
  ℕ, zero, suc, ◌+◌, ◌*◌, ◌%◌, ◌^◌, ◌≤◌, ◌<◌, ◌≡◌, [], ◌∷◌, length, Bytes, AreBytes, arith, bit_and,
  bit_or,
}
use nexus_stun.Common.Bits.{bit_and_248, bit_or_64}
use nexus_stun.Crypto.{update, clamp}

-- The bytes of a key, the lowest first, as a number.
abbrev pub scalar : Bytes → ℕ
scalar [] = 0
scalar (b ∷ key) = b + 256 * scalar key

-- 256 ^ n
abbrev place : ℕ → ℕ
place zero = 1
place (suc n) = 256 * place n

abbrev high : ℕ → ℕ
high b = bit_or (bit_and b 127) 64

-- The last byte of a key of n + 1 bytes decides in which power of two the number lies.
scalar-update :
    (n : ℕ) (key : Bytes)
    → length key ≡ suc n
    → AreBytes key
    → (64 * place n ≤ scalar (update n high key)) × (scalar (update n high key) < 128 * place n)
unfolding update
scalar-update n [] l h = absurd (omega (arith, l))
scalar-update zero (b ∷ []) l (small, h) =
    let (low, top) = bit_or_64 b small in (omega (arith, low), omega (arith, top))
scalar-update zero (b ∷ c ∷ key) l h = absurd (omega (arith, l))
scalar-update (suc n) (b ∷ key) l (small, h) =
    let (low, top) = scalar-update n key (omega (arith, l)) h in
    (omega (arith, low, small), omega (arith, top, small))

-- A clamped key of 32 bytes is a number as Curve25519 wants it: divisible by the cofactor 8, and with 254 as
-- its highest bit.
pub clamp_lem :
    (key : Bytes)
    → length key ≡ 32
    → AreBytes key
    → (scalar (clamp key) % 8 ≡ 0) × (2 ^ 254 ≤ scalar (clamp key)) × (scalar (clamp key) < 2 ^ 255)
unfolding clamp update
clamp_lem [] l h = absurd (omega (arith, l))
clamp_lem (b ∷ key) l (small, h) =
    let (even, byte) = bit_and_248 b small in
    let (low, top) = scalar-update 30 key (omega (arith, l)) h in
    (omega (arith, even), omega (arith, low, byte), omega (arith, top, byte))
