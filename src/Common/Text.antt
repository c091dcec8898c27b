-- ===== src/Common/Text.antt =====
-- strings.Split, strings.Join and strings.HasSuffix on byte strings, with a separator of one byte.
use Prim.Native.Nat.{ℕ, zero, suc, ◌+◌, ◌-◌, ◌/◌, ◌%◌}
use mathlib.Core.Path.{◌≡◌, refl, ap, sym, ◌∙◌}
use mathlib.Core.Logic.{◌≢◌, inl, inr}
use mathlib.Core.Bool.{Bool, true, ◌&&◌}
use mathlib.Core.List.{List, [], ◌∷◌, ◌++◌}
use native.Mathlib.Omega.{arith}
use nexus_stun.Common.Tests.{◌==◌, ltb, leb, if◌then◌else◌, Bool-cases, ==_iff, le→leb}
use nexus_stun.Common.Lists.{length, length-append, drop, drop-append, All}
use nexus_stun.Common.Slices.{Bytes, codes, equal, equal_iff}

abbrev pub Lacks : ℕ → Bytes → Type 0
Lacks b = All (λ c. c ≢ b)

-- the byte goes to the front of the first part
abbrev pub push_front : ℕ → List Bytes → List Bytes
push_front c [] = (c ∷ []) ∷ []
push_front c (p ∷ ps) = (c ∷ p) ∷ ps

unfoldable pub split : ℕ → Bytes → List Bytes
split sep [] = [] ∷ []
split sep (c ∷ s) = if c == sep then [] ∷ split sep s else push_front c (split sep s)

unfoldable pub join : ℕ → List Bytes → Bytes
join sep [] = []
join sep (p ∷ []) = p
join sep (p ∷ q ∷ ps) = p ++ (sep ∷ join sep (q ∷ ps))

unfoldable pub has_suffix : Bytes → Bytes → Bool
has_suffix s suffix =
    leb (length suffix) (length s) && equal (drop (length s - length suffix) s) suffix

pub split-ne-nil : (sep : ℕ) (s : Bytes) → split sep s ≢ []
unfolding split
split-ne-nil sep [] e = cc
split-ne-nil sep (c ∷ s) e = elim (Bool-cases (c == sep)) [
  | inl at_sep ↦ cc (rw at_sep at e)
  | inr inside ↦ push_front-ne-nil (split sep s) (rw inside at e)
]
  where
    push_front-ne-nil : (ps : List Bytes) → push_front c ps ≢ []
    push_front-ne-nil [] e = cc
    push_front-ne-nil (p ∷ ps) e = cc

join-cons :
    (sep : ℕ) (p : Bytes) (ps : List Bytes) → ps ≢ [] → join sep (p ∷ ps) ≡ p ++ (sep ∷ join sep ps)
unfolding join
join-cons sep p [] h = absurd (h refl)
join-cons sep p (q ∷ ps) h = refl

join-push_front :
    (sep c : ℕ) (ps : List Bytes) → ps ≢ [] → join sep (push_front c ps) ≡ c ∷ join sep ps
unfolding join
join-push_front sep c [] h = absurd (h refl)
join-push_front sep c (p ∷ []) h = refl
join-push_front sep c (p ∷ q ∷ ps) h = refl

-- Joining the parts of a split gives the text back.
pub join-split : (sep : ℕ) (s : Bytes) → join sep (split sep s) ≡ s
unfolding split
join-split sep [] = unfold join in refl
join-split sep (c ∷ s) = elim (Bool-cases (c == sep)) [
  | inl at_sep ↦ rw at_sep (
      join-cons sep [] (split sep s) (split-ne-nil sep s)
      ∙ ap (λ (t : Bytes). sep ∷ t) (join-split sep s)
      ∙ ap (λ (b : ℕ). b ∷ s) (sym ((==_iff c sep).0 at_sep)))
  | inr inside ↦
      rw inside
        (join-push_front sep c (split sep s) (split-ne-nil sep s) ∙ ap (◌∷◌ c) (join-split sep s))
]

pub split-append_sep :
    (sep : ℕ) (p s : Bytes) → Lacks sep p → split sep (p ++ (sep ∷ s)) ≡ p ∷ split sep s
unfolding split
split-append_sep sep [] s h = ground arith
split-append_sep sep (c ∷ p) s (hc, h) = ground (arith, split-append_sep sep p s h)

split-Lacks : (sep : ℕ) (p : Bytes) → Lacks sep p → split sep p ≡ p ∷ []
unfolding split
split-Lacks sep [] h = refl
split-Lacks sep (c ∷ p) (hc, h) = ground (arith, split-Lacks sep p h)

-- Splitting a join gives the parts back, if there is one and none holds the separator.
pub split-join :
    (sep : ℕ) (ps : List Bytes) → ps ≢ [] → All (Lacks sep) ps → split sep (join sep ps) ≡ ps
unfolding join
split-join sep [] h k = absurd (h refl)
split-join sep (p ∷ []) h (kp, _) = split-Lacks sep p kp
split-join sep (p ∷ q ∷ ps) h (kp, k) =
    split-append_sep sep p (join sep (q ∷ ps)) kp ∙ ap (◌∷◌ p) (split-join sep (q ∷ ps) (λ e. cc) k)

pub has_suffix-append : (s suffix : Bytes) → has_suffix (s ++ suffix) suffix ≡ true
unfolding has_suffix
has_suffix-append s suffix =
    rw
      (
        le→leb (length suffix) (length (s ++ suffix)) (omega (arith, length-append s suffix)),
        length_front,
        drop-append s suffix,
      )
      ((equal_iff suffix suffix).1 refl)
  where
    length_front : length (s ++ suffix) - length suffix ≡ length s
    length_front = omega (arith, length-append s suffix)

-- the decimal digits of n, in front of the rest; the fuel is for the digits
digits_onto : ℕ → ℕ → Bytes → Bytes
digits_onto zero n rest = rest
digits_onto (suc f) n rest =
    let more = digits_onto f (n / 10) ((b'0' + n % 10) ∷ rest) in
    if ltb n 10 then (b'0' + n) ∷ rest else more

unfoldable pub decimal : ℕ → Bytes
unfolding digits_onto
decimal n = digits_onto (suc n) n []

decimal_port : decimal 51820 ≡ codes "51820"
unfolding decimal
decimal_port = refl
