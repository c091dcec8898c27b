-- ===== src/Common/Slices.antt =====
-- Byte slices and strings as lists of bytes, with Go's slicing, indexing and encoding/binary.
use Prim.Native.Char.{code}
use Prim.Native.String.{String}
use Prim.Native.Nat.{ℕ, zero, suc, ◌+◌, ◌-◌, ◌*◌, ◌/◌, ◌%◌, ◌≤◌, ◌<◌, zero, suc}
use mathlib.Core.Path.{◌≡◌, refl, ap}
use mathlib.Core.Logic.{◌↔◌}
use mathlib.Core.Bool.{Bool, true, false, ◌&&◌}
use mathlib.Core.Option.{none, some}
use mathlib.Core.List.{List, [], ◌∷◌, ◌++◌}
use native.Mathlib.Omega.{arith}
use nexus_stun.Common.Tests.{◌==◌, leb, if◌then◌else◌, le→leb}
use nexus_stun.Common.Lists.{
  length, get_elem?, take, drop, All, length-append, length-drop, take-append, take-length,
  drop-append, get_elem?-append,
}
use nexus_stun.Common.Results.{Outcome, ok, panic}

-- A Go string is its bytes.
abbrev pub Bytes : Type 0
Bytes = List ℕ

abbrev pub IsByte : ℕ → Type 0
IsByte b = b < 256

abbrev pub AreBytes : Bytes → Type 0
AreBytes = All IsByte

-- The bytes of an ASCII literal.
abbrev pub codes : String → Bytes
codes String.[] = []
codes (String.◌∷◌ c s) = code c ∷ codes s

unfoldable pub equal : Bytes → Bytes → Bool
equal [] [] = true
equal (x ∷ xs) (y ∷ ys) = x == y && equal xs ys
equal _ _ = false

pub equal_iff : (s t : Bytes) → (equal s t ≡ true) ↔ (s ≡ t)
unfolding equal
equal_iff [] [] = ground arith
equal_iff [] (y ∷ t) = ground arith
equal_iff (x ∷ s) [] = ground arith
equal_iff (x ∷ s) (y ∷ t) = ground (arith, equal_iff s t)

module _ {ℓ} {E : Type ℓ} where
  -- d[lo:hi]
  unfoldable pub slice : Bytes → ℕ → ℕ → Outcome E Bytes
  slice d lo hi = if leb lo hi && leb hi (length d) then ok (take (hi - lo) (drop lo d)) else panic

  -- d[i]
  unfoldable pub index : Bytes → ℕ → Outcome E ℕ
  index d i = elim (get_elem? d i) [ none ↦ panic | some b ↦ ok b ]

  -- binary.BigEndian.Uint16 and Uint32, which panic on a short slice
  unfoldable pub uint16 : Bytes → Outcome E ℕ
  uint16 (a ∷ b ∷ _) = ok (a * 256 + b)
  uint16 _ = panic

  unfoldable pub uint32 : Bytes → Outcome E ℕ
  uint32 (a ∷ b ∷ c ∷ d ∷ _) = ok (((a * 256 + b) * 256 + c) * 256 + d)
  uint32 _ = panic

-- binary.BigEndian.PutUint16 and PutUint32 into a fresh slice
abbrev pub put_uint16 : ℕ → Bytes
put_uint16 n = n / 256 % 256 ∷ n % 256 ∷ []

abbrev pub put_uint32 : ℕ → Bytes
put_uint32 n = n / 16777216 % 256 ∷ n / 65536 % 256 ∷ n / 256 % 256 ∷ n % 256 ∷ []

module _ {ℓ} {E : Type ℓ} where
  -- A slice within bounds is the middle part of the data.
  pub slice-append :
      (pre mid post : Bytes) (lo hi : ℕ)
      → lo ≡ length pre
      → hi ≡ length pre + length mid
      → slice {E = E} (pre ++ (mid ++ post)) lo hi ≡ ok mid
  unfolding slice
  slice-append pre mid post lo hi p q =
      rw
        (
          p,
          q,
          drop-append pre (mid ++ post),
          length_mid,
          take-append mid post,
          le→leb (length pre) (length pre + length mid) (omega arith),
          le→leb (length pre + length mid) (length (pre ++ (mid ++ post))) fits,
        )
        refl
    where
      length_mid : length pre + length mid - length pre ≡ length mid
      length_mid = omega arith

      fits : length pre + length mid ≤ length (pre ++ (mid ++ post))
      fits = omega (arith, length-append pre (mid ++ post), length-append mid post)

  -- The same for data that is known by an equation.
  pub slice_at :
      (d pre mid post : Bytes) (lo hi : ℕ)
      → d ≡ pre ++ (mid ++ post)
      → lo ≡ length pre
      → hi ≡ lo + length mid
      → slice {E = E} d lo hi ≡ ok mid
  slice_at d pre mid post lo hi e p q = rw e (slice-append pre mid post lo hi p (omega arith))

  pub slice_within :
      (d : Bytes) (lo hi : ℕ)
      → lo ≤ hi
      → hi ≤ length d
      → (s : Bytes) × (slice {E = E} d lo hi ≡ ok s) × (length s ≡ hi - lo)
  unfolding slice
  slice_within d lo hi p q = (
    take (hi - lo) (drop lo d),
    rw (le→leb lo hi p, le→leb hi (length d) q) refl,
    take-length (hi - lo) (drop lo d) (omega (arith, length-drop lo d)),
  )

  pub slice_beyond : (d : Bytes) (lo hi : ℕ) → length d < hi → slice {E = E} d lo hi ≡ panic
  unfolding slice
  slice_beyond d lo hi h = ground arith

  pub uint16_within : (s : Bytes) → 2 ≤ length s → (n : ℕ) × (uint16 {E = E} s ≡ ok n)
  unfolding uint16
  uint16_within (a ∷ b ∷ r) h = (a * 256 + b, refl)
  uint16_within (a ∷ []) h = absurd (omega arith)
  uint16_within [] h = absurd (omega arith)

  pub uint32_within : (s : Bytes) → 4 ≤ length s → (n : ℕ) × (uint32 {E = E} s ≡ ok n)
  unfolding uint32
  uint32_within (a ∷ b ∷ c ∷ d ∷ r) h = (((a * 256 + b) * 256 + c) * 256 + d, refl)
  uint32_within (a ∷ b ∷ c ∷ []) h = absurd (omega arith)
  uint32_within (a ∷ b ∷ []) h = absurd (omega arith)
  uint32_within (a ∷ []) h = absurd (omega arith)
  uint32_within [] h = absurd (omega arith)

  pub index_within : (s : Bytes) (i : ℕ) → i < length s → (b : ℕ) × (index {E = E} s i ≡ ok b)
  unfolding index
  index_within [] i h = absurd (omega arith)
  index_within (b ∷ s) zero h = (b, refl)
  index_within (b ∷ s) (suc i) h = index_within s i (omega arith)

  pub index-append :
      (pre post : Bytes) (b i : ℕ) → i ≡ length pre → index {E = E} (pre ++ (b ∷ post)) i ≡ ok b
  unfolding index
  index-append pre post b i p = rw (p, get_elem?-append pre post b, index) refl

  -- Reading back what was put.
  pub uint16-put_uint16 :
      (n : ℕ) (r : Bytes) → n < 65536 → uint16 {E = E} (put_uint16 n ++ r) ≡ ok n
  unfolding uint16
  uint16-put_uint16 n r h = ap ok (omega arith)

  pub uint32-put_uint32 :
      (n : ℕ) (r : Bytes) → n < 4294967296 → uint32 {E = E} (put_uint32 n ++ r) ≡ ok n
  unfolding uint32
  uint32-put_uint32 n r h = ap ok (omega arith)
