-- ===== src/Common/Bits.antt =====
-- Exclusive or over small ranges, by evaluation.
use Prim.Native.Nat.{ℕ, zero, suc, ◌%◌, ◌<◌, ◌≤◌, bit_xor, bit_and, bit_or}
use mathlib.Core.Path.{◌≡◌, refl}
use mathlib.Core.Logic.{◌⊎◌, ◌≢◌, inl, inr}
use mathlib.Core.Bool.{Bool, true, false, ◌&&◌}
use native.Mathlib.Omega.{arith}
use nexus_stun.Common.Tests.{◌==◌, ==_iff, ltb, if◌then◌else◌, Bool-cases}

-- Every number under the bound passes the test.
passes : (ℕ → Bool) → ℕ → Bool
passes test zero = true
passes test (suc k) = if test k then passes test k else false

==-cases : (a b : ℕ) → (a ≡ b) ⊎ (a ≢ b)
==-cases a b = elim (Bool-cases (a == b)) [
  | inl same ↦ inl ((==_iff a b).0 same)
  | inr apart ↦ inr (λ e. cc (apart, (==_iff a b).1 e))
]

passes-under :
    (test : ℕ → Bool) (bound : ℕ) {k : ℕ} → k < bound → passes test bound ≡ true → test k ≡ true
unfolding passes
passes-under test zero under all = absurd (omega arith)
passes-under test (suc bound) {k} under all = elim (Bool-cases (test bound)) [
  | inl last ↦ elim (==-cases k bound) [
    | inl e ↦ rw e last
    | inr earlier ↦ passes-under test bound (omega arith) (rw last at all)
  ]
  | inr fails ↦ cc (rw fails at all)
]

-- A mask that is undone by a second use, and keeps the values within the range.
abbrev undoes : ℕ → ℕ → ℕ → Bool
undoes n k x = bit_xor (bit_xor x k) k == x && ltb (bit_xor x k) n

module _ (n k : ℕ) (table : passes (undoes n k) n ≡ true) (x : ℕ) (h : x < n) where
  bit_xor_undoes : (bit_xor (bit_xor x k) k ≡ x) × (bit_xor x k < n)
  bit_xor_undoes = let row = passes-under (undoes n k) n h table in (ground arith, ground arith)

byte_table_0x21 : passes (undoes 256 0x21) 256 ≡ true
unfolding passes
byte_table_0x21 = refl

byte_table_0x12 : passes (undoes 256 0x12) 256 ≡ true
unfolding passes
byte_table_0x12 = refl

byte_table_0xa4 : passes (undoes 256 0xa4) 256 ≡ true
unfolding passes
byte_table_0xa4 = refl

byte_table_0x42 : passes (undoes 256 0x42) 256 ≡ true
unfolding passes
byte_table_0x42 = refl

word_table_0x2112 : passes (undoes 65536 0x2112) 65536 ≡ true
unfolding passes
word_table_0x2112 = refl

pub bit_xor_0x21 : (x : ℕ) → x < 256 → (bit_xor (bit_xor x 0x21) 0x21 ≡ x) × (bit_xor x 0x21 < 256)
bit_xor_0x21 x h = bit_xor_undoes 256 0x21 byte_table_0x21 x h

pub bit_xor_0x12 : (x : ℕ) → x < 256 → (bit_xor (bit_xor x 0x12) 0x12 ≡ x) × (bit_xor x 0x12 < 256)
bit_xor_0x12 x h = bit_xor_undoes 256 0x12 byte_table_0x12 x h

pub bit_xor_0xa4 : (x : ℕ) → x < 256 → (bit_xor (bit_xor x 0xa4) 0xa4 ≡ x) × (bit_xor x 0xa4 < 256)
bit_xor_0xa4 x h = bit_xor_undoes 256 0xa4 byte_table_0xa4 x h

pub bit_xor_0x42 : (x : ℕ) → x < 256 → (bit_xor (bit_xor x 0x42) 0x42 ≡ x) × (bit_xor x 0x42 < 256)
bit_xor_0x42 x h = bit_xor_undoes 256 0x42 byte_table_0x42 x h

pub bit_xor_0x2112 :
    (x : ℕ) → x < 65536 → (bit_xor (bit_xor x 0x2112) 0x2112 ≡ x) × (bit_xor x 0x2112 < 65536)
bit_xor_0x2112 x h = bit_xor_undoes 65536 0x2112 word_table_0x2112 x h

mask_table_0x3fff : passes (λ x. bit_and x 0x3FFF == x % 16384) 65536 ≡ true
unfolding passes
mask_table_0x3fff = refl

pub bit_and_0x3fff : (x : ℕ) → x < 65536 → bit_and x 0x3FFF ≡ x % 16384
bit_and_0x3fff x h =
    (==_iff (bit_and x 0x3FFF) (x % 16384)).0
      (passes-under (λ x. bit_and x 0x3FFF == x % 16384) 65536 h mask_table_0x3fff)

low_table : passes (λ x. bit_and x 248 % 8 == 0 && ltb (bit_and x 248) 256) 256 ≡ true
unfolding passes
low_table = refl

pub bit_and_248 : (x : ℕ) → x < 256 → (bit_and x 248 % 8 ≡ 0) × (bit_and x 248 < 256)
bit_and_248 x h =
    let row =
      passes-under (λ x. bit_and x 248 % 8 == 0 && ltb (bit_and x 248) 256) 256 h low_table in
    (ground arith, ground arith)

high_table :
    passes (λ x. ltb 63 (bit_or (bit_and x 127) 64) && ltb (bit_or (bit_and x 127) 64) 128) 256
    ≡ true
unfolding passes
high_table = refl

pub bit_or_64 :
    (x : ℕ) → x < 256 → (64 ≤ bit_or (bit_and x 127) 64) × (bit_or (bit_and x 127) 64 < 128)
bit_or_64 x h =
    let row =
      passes-under (λ x. ltb 63 (bit_or (bit_and x 127) 64) && ltb (bit_or (bit_and x 127) 64) 128)
        256 h high_table in
    (ground arith, ground arith)
