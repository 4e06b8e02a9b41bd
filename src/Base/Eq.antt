-- ===== src/Base/Eq.antt =====
-- Keys of maps: a type with a Boolean equality test that decides paths.
use mathlib.Core.Path.{◌≡◌, refl, subst}
use mathlib.Core.Logic.{◌↔◌}
use mathlib.Core.Bool.{Bool, true, false, ◌&&◌}
use mathlib.Core.List.{List, [], ◌∷◌}
use native.Mathlib.Omega.{arith}
use Prim.Native.Nat.{ℕ}
use goravel_mine.Base.Tests.{◌==◌ as nat_beq, ==_refl}

-- The test, and that it holds of equal keys only and of each key with itself.
pub record Eq {ℓ} (K : Type ℓ) : Type ℓ where
  pub beq : K → K → Bool
  pub sound : {j k : K} → beq j k ≡ true → j ≡ k
  pub self : (k : K) → beq k k ≡ true

pub nat_sound : {m n : ℕ} → nat_beq m n ≡ true → m ≡ n
nat_sound h = ground arith

instance abbrev pub nat_eq : Eq ℕ
nat_eq = record { beq = nat_beq; sound = nat_sound; self = ==_refl }

module _ {ℓ} {K : Type ℓ} ⦃e : Eq K⦄ where
  pub beq_of_eq : {j k : K} → j ≡ k → e.beq j k ≡ true
  beq_of_eq {j} h = subst (λ i. e.beq j i ≡ true) h (e.self j)

  pub beq_iff : (j k : K) → (e.beq j k ≡ true) ↔ (j ≡ k)
  beq_iff j k = (e.sound, beq_of_eq)

module _ {ℓ} {A : Type ℓ} ⦃e : Eq A⦄ where
  unfoldable pub list_beq : List A → List A → Bool
  list_beq [] [] = true
  list_beq [] (y ∷ ys) = false
  list_beq (x ∷ xs) [] = false
  list_beq (x ∷ xs) (y ∷ ys) = e.beq x y && list_beq xs ys

  pub list_beq_iff : (xs ys : List A) → (list_beq xs ys ≡ true) ↔ (xs ≡ ys)
  unfolding list_beq
  list_beq_iff [] [] = (λ _. refl, λ _. refl)
  list_beq_iff [] (y ∷ ys) = (λ h. cc, λ h. cc)
  list_beq_iff (x ∷ xs) [] = (λ h. cc, λ h. cc)
  list_beq_iff (x ∷ xs) (y ∷ ys) = (
    λ h. ground (arith, beq_iff x y, list_beq_iff xs ys),
    λ h. ground (arith, beq_iff x y, list_beq_iff xs ys),
  )

pub list_sound {ℓ} : {A : Type ℓ} ⦃e : Eq A⦄ {xs ys : List A} → list_beq xs ys ≡ true → xs ≡ ys
list_sound {xs} {ys} h = (list_beq_iff xs ys).0 h

pub list_self {ℓ} : {A : Type ℓ} ⦃e : Eq A⦄ (xs : List A) → list_beq xs xs ≡ true
list_self xs = (list_beq_iff xs xs).1 refl

instance abbrev pub list_eq {ℓ} : {A : Type ℓ} ⦃e : Eq A⦄ → Eq (List A)
list_eq = record { beq = list_beq; sound = list_sound; self = list_self }
