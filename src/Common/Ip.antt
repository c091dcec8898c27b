-- ===== src/Common/Ip.antt =====
-- net.IP as the program uses it: four bytes, sixteen bytes, or nil (the empty list).
use Prim.Native.Nat.{ℕ}
use mathlib.Core.Path.{◌≡◌, refl}
use mathlib.Core.Bool.{Bool, true, false, ◌&&◌}
use mathlib.Core.List.{[], ◌∷◌}
use nexus_stun.Common.Tests.{◌==◌, if◌then◌else◌}
use nexus_stun.Common.Lists.{length, take, drop}
use nexus_stun.Common.Slices.{Bytes, equal, equal_iff}

abbrev pub v4_in_v6_prefix : Bytes
v4_in_v6_prefix = 0 ∷ 0 ∷ 0 ∷ 0 ∷ 0 ∷ 0 ∷ 0 ∷ 0 ∷ 0 ∷ 0 ∷ 0xff ∷ 0xff ∷ []

-- net.IPv4 gives the 16-byte form.
abbrev pub ipv4 : ℕ → ℕ → ℕ → ℕ → Bytes
ipv4 a b c d = 0 ∷ 0 ∷ 0 ∷ 0 ∷ 0 ∷ 0 ∷ 0 ∷ 0 ∷ 0 ∷ 0 ∷ 0xff ∷ 0xff ∷ a ∷ b ∷ c ∷ d ∷ []

abbrev pub has_v4_prefix : Bytes → Bool
has_v4_prefix ip = equal (take 12 ip) v4_in_v6_prefix

-- IP.To4: nil for an address that is no IPv4 address
unfoldable pub to4 : Bytes → Bytes
unfolding equal
to4 ip =
    if length ip == 4 then ip else if length ip == 16 && has_v4_prefix ip then drop 12 ip else []

-- IP.Equal: an IPv4 address equals its 16-byte form.
unfoldable pub ip_equal : Bytes → Bytes → Bool
unfolding equal
ip_equal ip x =
    if length ip == length x
    then equal ip x
    else if length ip == 4 && length x == 16
    then has_v4_prefix x && equal ip (drop 12 x)
    else if length ip == 16 && length x == 4
    then has_v4_prefix ip && equal (drop 12 ip) x
    else false

pub to4-four : (ip : Bytes) → length ip ≡ 4 → to4 ip ≡ ip
unfolding to4
to4-four ip h = rw h refl

pub to4-ipv4 : (a b c d : ℕ) → to4 (ipv4 a b c d) ≡ a ∷ b ∷ c ∷ d ∷ []
unfolding to4 equal
to4-ipv4 a b c d = refl

-- The two forms of an IPv4 address are equal to IP.Equal.
pub ip_equal-ipv4 : (a b c d : ℕ) → ip_equal (a ∷ b ∷ c ∷ d ∷ []) (ipv4 a b c d) ≡ true
unfolding ip_equal
ip_equal-ipv4 a b c d = (equal_iff (a ∷ b ∷ c ∷ d ∷ []) (a ∷ b ∷ c ∷ d ∷ [])).1 refl
