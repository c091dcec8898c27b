-- ===== src/Common/Dict.antt =====
-- Go maps with string keys as association lists. A new key goes to the end, an old one keeps its
-- place, and `delete` takes every entry of the key away; Go leaves the order of a range open.
use nexus_stun.Common.Tests.{if◌then◌else◌, Bool-cases}
use nexus_stun.Common.Slices.{Bytes, equal, equal_iff}
use mathlib.Core.Path.{◌≡◌, refl, sym, ◌∙◌}
use mathlib.Core.Logic.{◌≢◌, inl, inr}
use mathlib.Core.Bool.{true, false}
use mathlib.Core.Option.{Option, none, some}
use mathlib.Core.List.{List, [], ◌∷◌}
use native.Mathlib.Omega.{arith}

abbrev pub Dict {ℓ} : Type ℓ → Type ℓ
Dict V = List (Bytes × V)

pub equal_refl : (k : Bytes) → equal k k ≡ true
equal_refl k = (equal_iff k k).1 refl

pub ne→equal : (j k : Bytes) → j ≢ k → equal j k ≡ false
ne→equal j k h = elim (Bool-cases (equal j k)) [
  | inl e ↦ absurd (h ((equal_iff j k).0 e))
  | inr e ↦ e
]

module _ {ℓ} {V : Type ℓ} where
  unfoldable pub lookup : Bytes → Dict V → Option V
  lookup k [] = none
  lookup k ((j, v) ∷ m) = if equal j k then some v else lookup k m

  unfoldable pub insert : Bytes → V → Dict V → Dict V
  insert k v [] = (k, v) ∷ []
  insert k v ((j, w) ∷ m) = if equal j k then (k, v) ∷ m else (j, w) ∷ insert k v m

  unfoldable pub delete : Bytes → Dict V → Dict V
  delete k [] = []
  delete k ((j, w) ∷ m) = if equal j k then delete k m else (j, w) ∷ delete k m

  pub lookup-insert :
      (k j : Bytes) (v : V) (m : Dict V)
      → lookup j (insert k v m) ≡ (if equal k j then some v else lookup j m)
  unfolding lookup insert
  lookup-insert k j v [] = refl
  lookup-insert k j v ((i, w) ∷ m) =
      ground (arith, equal_iff k j, equal_iff i k, equal_iff i j, lookup-insert k j v m)

  pub lookup-delete :
      (k j : Bytes) (m : Dict V) → lookup j (delete k m) ≡ (if equal k j then none else lookup j m)
  unfolding lookup delete
  lookup-delete k j [] = ground arith
  lookup-delete k j ((i, w) ∷ m) =
      ground (arith, equal_iff k j, equal_iff i k, equal_iff i j, lookup-delete k j m)

  pub lookup-insert_self : (k : Bytes) (v : V) (m : Dict V) → lookup k (insert k v m) ≡ some v
  lookup-insert_self k v m = rw (lookup-insert k k v m, equal_refl k) refl

  pub lookup-insert_ne :
      (k j : Bytes) (v : V) (m : Dict V) → k ≢ j → lookup j (insert k v m) ≡ lookup j m
  lookup-insert_ne k j v m h = rw (lookup-insert k j v m, ne→equal k j h) refl

  pub lookup-delete_self : (k : Bytes) (m : Dict V) → lookup k (delete k m) ≡ none
  lookup-delete_self k m = rw (lookup-delete k k m, equal_refl k) refl

  pub lookup-delete_ne : (k j : Bytes) (m : Dict V) → k ≢ j → lookup j (delete k m) ≡ lookup j m
  lookup-delete_ne k j m h = rw (lookup-delete k j m, ne→equal k j h) refl

  -- every key once
  abbrev pub IsUnique : Dict V → Type ℓ
  IsUnique [] = Unit
  IsUnique ((j, v) ∷ m) = (lookup j m ≡ none) × IsUnique m

  pub insert-IsUnique : (k : Bytes) (v : V) (m : Dict V) → IsUnique m → IsUnique (insert k v m)
  unfolding lookup insert
  insert-IsUnique k v [] h = (refl, tt)
  insert-IsUnique k v ((j, w) ∷ m) (fresh, rest) = elim (Bool-cases (equal j k)) [
    | inl y ↦ rw y (let e = (equal_iff j k).0 y in (rw (sym e) fresh, rest))
    | inr n ↦ rw n (
      lookup-insert k j v m
          ∙ (rw (ne→equal k j (λ e. absurd (cc (n, (equal_iff j k).1 (sym e))))) fresh),
      insert-IsUnique k v m rest,
    )
  ]
