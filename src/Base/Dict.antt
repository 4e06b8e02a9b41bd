-- ===== src/Base/Dict.antt =====
-- A Go map as an association list with one entry for each key, behind its laws.
use mathlib.Core.Path.{◌≡◌, refl}
use mathlib.Core.Bool.{Bool, not}
use mathlib.Core.Option.{Option, none, some}
use mathlib.Core.List.{List, [], ◌∷◌}
use native.Mathlib.Omega.{arith}
use goravel_mine.Base.Tests.{if◌then◌else◌}
use goravel_mine.Base.Eq.{Eq, beq_iff}

abbrev pub Dict {ℓ} : Type ℓ → Type ℓ → Type ℓ
Dict K V = List (K × V)

module _ {ℓ} {K V : Type ℓ} ⦃e : Eq K⦄ where
  -- `v, ok := m[k]`
  unfoldable pub get : Dict K V → K → Option V
  get [] k = none
  get ((j, v) ∷ m) k = if e.beq j k then some v else get m k

  -- `m[k]`, with the zero value of a missing key
  unfoldable pub get_or : Dict K V → K → V → V
  get_or m k d = elim (get m k) [ none ↦ d | some v ↦ v ]

  -- `m[k] = v`
  unfoldable pub put : Dict K V → K → V → Dict K V
  put [] k v = (k, v) ∷ []
  put ((j, w) ∷ m) k v = if e.beq j k then (k, v) ∷ m else (j, w) ∷ put m k v

  -- The entries whose key passes a test; `delete(m, k)` keeps the other keys.
  unfoldable pub keep : (K → Bool) → Dict K V → Dict K V
  keep p [] = []
  keep p ((j, v) ∷ m) = let rest = keep p m in if p j then (j, v) ∷ rest else rest

  unfoldable pub remove : Dict K V → K → Dict K V
  unfolding keep
  remove m k = keep (λ j. not (e.beq j k)) m

  pub get-put :
      (m : Dict K V) (k : K) (v : V) (j : K)
      → get (put m k v) j ≡ (if e.beq k j then some v else get m j)
  unfolding get put
  get-put [] k v j = refl
  get-put ((i, w) ∷ m) k v j =
      ground (arith, beq_iff i k, beq_iff i j, beq_iff k j, get-put m k v j)

  -- For a test that does not tell equal keys apart.
  pub get-keep :
      (p : K → Bool) (m : Dict K V) (j : K) → get (keep p m) j ≡ (if p j then get m j else none)
  unfolding get keep
  get-keep p [] j = ground arith
  get-keep p ((i, w) ∷ m) j = ground (arith, beq_iff i j, get-keep p m j)

  pub get-remove :
      (m : Dict K V) (k j : K) → get (remove m k) j ≡ (if e.beq k j then none else get m j)
  unfolding remove
  get-remove m k j = ground (arith, get-keep (λ i. not (e.beq i k)) m j, beq_iff j k, beq_iff k j)

  pub get-put_self : (m : Dict K V) (k : K) (v : V) → get (put m k v) k ≡ some v
  get-put_self m k v = ground (arith, get-put m k v k, beq_iff k k)

  pub get-remove_self : (m : Dict K V) (k : K) → get (remove m k) k ≡ none
  get-remove_self m k = ground (arith, get-remove m k k, beq_iff k k)

  pub get_or-put :
      (m : Dict K V) (k : K) (v : V) (j : K) (d : V)
      → get_or (put m k v) j d ≡ (if e.beq k j then v else get_or m j d)
  unfolding get_or
  get_or-put m k v j d = ground (arith, get-put m k v j)

  pub get_or-put_self : (m : Dict K V) (k : K) (v d : V) → get_or (put m k v) k d ≡ v
  unfolding get_or
  get_or-put_self m k v d = ground (arith, get-put_self m k v)

pub ruleset dict_laws = (get-put, get-remove, get-keep)
