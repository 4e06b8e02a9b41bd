-- ===== src/Registry/Disabled.antt =====
-- Which modules are off, and why: propagateDisabledReasons of app/modules/registry_kernel.go.
pub mod Named
pub mod Rounds
pub mod Fixpoint
use goravel_mine.Base.{
  ℕ, zero, suc, ◌+◌, Bool, true, false, not, ◌&&◌, Option, none, some, List, [], ◌∷◌, ◌++◌,
  if◌then◌else◌, length,
}
use goravel_mine.Base.Texts.{Text, codes}
use goravel_mine.Base.Eq.{nat_eq, list_eq, list_beq}
use goravel_mine.Base.Dict.{Dict, get_or, put}
use goravel_mine.Lifecycle.Versions.{Dependency}
use goravel_mine.Registry.Sort.{ModuleInfo}

-- The map of reasons: an id without a reason has the empty one.
abbrev pub Reasons : Type 0
Reasons = Dict Text Text

unfoldable pub is_off : Reasons → Text → Bool
is_off reasons id = not (list_beq (get_or reasons id []) [])

abbrev pub explicit_one : ModuleInfo → (Text → Bool) → Reasons → Reasons
explicit_one m disabled reasons =
    if disabled m.id then put reasons m.id (codes "disabled by MODULE_DISABLED") else reasons

-- The loop of explicitDisabledReasons
unfoldable pub explicit_reasons : List ModuleInfo → (Text → Bool) → Reasons → Reasons
explicit_reasons [] disabled reasons = reasons
explicit_reasons (m ∷ source) disabled reasons =
    explicit_reasons source disabled (explicit_one m disabled reasons)

unfoldable pub first_disabled : List Dependency → Reasons → Text
first_disabled [] reasons = []
first_disabled (d ∷ ds) reasons =
    if d.required && is_off reasons d.id then d.id else first_disabled ds reasons

abbrev pub dependency_reason : Text → Text
dependency_reason id = codes "disabled because dependency " ++ id ++ codes " is disabled"

-- The map and the flag `changed`.
abbrev pub Round : Type 0
Round = Reasons × Bool

abbrev pub propagate_one : ModuleInfo → Round → Round
propagate_one m (reasons, changed) =
    if is_off reasons m.id
    then (reasons, changed)
    else let id = first_disabled m.dependencies reasons in
      if list_beq id [] then (reasons, changed) else (put reasons m.id (dependency_reason id), true)

-- propagateDependencyReasons
unfoldable pub propagate_round : List ModuleInfo → Round → Round
propagate_round [] r = r
propagate_round (m ∷ source) r = propagate_round source (propagate_one m r)

abbrev pub again : (Reasons → Option Reasons) → Round → Option Reasons
again rest (reasons, changed) = elim changed [ true ↦ rest reasons | false ↦ some reasons ]

-- The rounds, until one changes nothing. Each that does adds a module, so that one more than the modules
-- is enough fuel.
unfoldable pub propagate : ℕ → List ModuleInfo → Reasons → Option Reasons
propagate zero source reasons = none
propagate (suc fuel) source reasons =
    again (propagate fuel source) (propagate_round source (reasons, false))

unfoldable pub disabled_reasons : List ModuleInfo → (Text → Bool) → Option Reasons
disabled_reasons source disabled =
    propagate (length source + 1) source (explicit_reasons source disabled [])
