-- ===== src/Base/Members.antt =====
-- Membership in a list by the equality test of its type, for the sets of keys that Go keeps as maps.
use Prim.Native.Nat.{ℕ, suc, ◌≤◌, ◌<◌}
use mathlib.Core.Path.{◌≡◌, refl, ap}
use mathlib.Core.Bool.{Bool, true, false, not, ◌||◌, ◌&&◌}
use mathlib.Core.List.{List, [], ◌∷◌, ◌++◌}
use native.Mathlib.Omega.{arith}
use goravel_mine.Base.Tests.{if◌then◌else◌}
use goravel_mine.Base.Eq.{Eq, beq_iff}
use goravel_mine.Base.Lists.{length}

module _ {ℓ} {K : Type ℓ} ⦃e : Eq K⦄ where
  unfoldable pub member : K → List K → Bool
  member k [] = false
  member k (j ∷ js) = e.beq j k || member k js

  pub member-++ : (k : K) (xs ys : List K) → member k (xs ++ ys) ≡ (member k xs || member k ys)
  unfolding member
  member-++ k [] ys = refl
  member-++ k (x ∷ xs) ys = ground (arith, member-++ k xs ys)

  -- No key occurs twice.
  unfoldable pub distinct : List K → Bool
  distinct [] = true
  distinct (k ∷ ks) = not (member k ks) && distinct ks

  pub distinct-snoc :
      (xs : List K) (k : K)
      → distinct xs ≡ true
      → member k xs ≡ false
      → distinct (xs ++ k ∷ []) ≡ true
  unfolding distinct member
  distinct-snoc [] k h n = refl
  distinct-snoc (x ∷ xs) k h n =
      ground (arith, distinct-snoc xs k, member-++ x xs (k ∷ []), h, n, beq_iff k x, beq_iff x k)

  -- How many of the keys are not in a list.
  unfoldable pub missing : List K → List K → ℕ
  missing [] seen = 0
  missing (k ∷ ks) seen = let rest = missing ks seen in if member k seen then rest else suc rest

  pub missing-le : (ks : List K) (seen : List K) → missing ks seen ≤ length ks
  unfolding missing
  missing-le [] seen = omega arith
  missing-le (k ∷ ks) seen = ground (arith, missing-le ks seen)

  missing_cons-le : (ks : List K) (k : K) (seen : List K) → missing ks (k ∷ seen) ≤ missing ks seen
  unfolding missing member
  missing_cons-le [] k seen = omega arith
  missing_cons-le (j ∷ ks) k seen = ground (arith, missing_cons-le ks k seen)

  -- A new key of the list is one key less that is missing.
  pub missing_cons-lt :
      (ks : List K) (k : K) (seen : List K)
      → member k ks ≡ true
      → member k seen ≡ false
      → missing ks (k ∷ seen) < missing ks seen
  unfolding missing member
  missing_cons-lt [] k seen h n = cc
  missing_cons-lt (j ∷ ks) k seen h n = ground (
    arith,
    missing_cons-lt ks k seen,
    missing_cons-le ks k seen,
    beq_iff j k,
    beq_iff k j,
    h,
    n,
    ap (λ i. member i seen) {x = j} {y = k},
  )
