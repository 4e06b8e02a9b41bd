-- ===== src/Protection/State/Counts.antt =====
-- The circuits of a map by their keys: probes in flight, and what releasing probes does to them.
use goravel_mine.Base.{
  ℕ, ◌+◌, ◌-◌, ◌≡◌, ap, inl, inr, Bool, List, [], ◌∷◌, ◌++◌, arith, if◌then◌else◌, Option-cases,
}
use goravel_mine.Base.Texts.{Text}
use goravel_mine.Base.Dict
use goravel_mine.Base.Dict.{Dict, get-put}
use goravel_mine.Base.Eq.{list_eq, nat_eq, list_beq, list_beq_iff}
use goravel_mine.Protection.State.{Circuit, circuit, release, release_half_open, is_open}

abbrev pub in_flight_at : Dict Text Circuit → Text → ℕ
in_flight_at m k = (circuit m k).in_flight

abbrev pub open_at : Dict Text Circuit → Text → Bool
open_at m k = is_open (circuit m k).state

unfoldable pub times : Text → List Text → ℕ
times k [] = 0
times k (j ∷ js) = (if list_beq j k then 1 else 0) + times k js

pub times-snoc :
    (k j : Text) (js : List Text)
    → times k (js ++ j ∷ []) ≡ times k js + (if list_beq j k then 1 else 0)
unfolding times
times-snoc k j [] = omega arith
times-snoc k j (i ∷ js) = omega (arith, times-snoc k j js)

pub circuit-put :
    (m : Dict Text Circuit) (j k : Text) (c : Circuit)
    → circuit (Dict.put m j c) k ≡ (if list_beq j k then c else circuit m k)
unfolding circuit
circuit-put m j k c = ground (arith, get-put m j c k)

-- One probe less at the released key, if it has any; no circuit changes its state.
pub release_lem :
    (m : Dict Text Circuit) (j k : Text)
    → (in_flight_at (release m j) k ≡ in_flight_at m k - (if list_beq j k then 1 else 0))
      × (open_at (release m j) k ≡ open_at m k)
unfolding release circuit
release_lem m j k = elim (Option-cases (Dict.get m j)) [
  | inl e ↦ ground (arith, e, list_beq_iff j k, ap (λ i. (circuit m i).in_flight))
  | inr (c, e) ↦
      ground (arith, e, list_beq_iff j k, get-put m j (record c { in_flight = c.in_flight - 1 }) k)
]

pub release_half_open_lem :
    (m : Dict Text Circuit) (ks : List Text) (k : Text)
    → (in_flight_at (release_half_open m ks) k ≡ in_flight_at m k - times k ks)
      × (open_at (release_half_open m ks) k ≡ open_at m k)
unfolding release_half_open times
release_half_open_lem m [] k = ground arith
release_half_open_lem m (j ∷ js) k =
    ground (arith, release_lem m j k, release_half_open_lem (release m j) js k)
