-- ===== src/Registry/Kernel.antt =====
-- The registry kernel, app/modules/registry_kernel.go.
pub mod Members
pub mod Active
pub mod Valid
use goravel_mine.Base.{
  inl, inr, Bool, not, ◌||◌, Option, none, some, List, [], ◌∷◌, ◌++◌, map, if◌then◌else◌, select,
}
use goravel_mine.Base.Texts.{Text}
use goravel_mine.Base.Eq.{nat_eq, list_eq, list_beq}
use goravel_mine.Base.Members.{member}
use goravel_mine.Base.Dict.{get_or}
use goravel_mine.Lifecycle.Versions.{Dependency}
use goravel_mine.Registry.Sort.{ModuleInfo, ids, SortError, sort_modules}
use goravel_mine.Registry.Disabled.{Reasons, is_off, disabled_reasons}

pub record Kernel : Type 0 where
  pub source : List ModuleInfo
  pub registered : List ModuleInfo
  pub lifecycle : List ModuleInfo
  pub active : List ModuleInfo
  pub disabled : Text → Bool
  pub reasons : Reasons

unfoldable pub exclude_disabled : List ModuleInfo → (Text → Bool) → List ModuleInfo
exclude_disabled source disabled = select (λ m. not (disabled m.id)) source

unfoldable pub exclude_with_reasons : List ModuleInfo → Reasons → List ModuleInfo
exclude_with_reasons source reasons = select (λ m. not (is_off reasons m.id)) source

unfoldable pub sorted_or_original : List ModuleInfo → List ModuleInfo
sorted_or_original source = elim (sort_modules source) [ inl e ↦ source | inr sorted ↦ sorted ]

abbrev pub kernel_of : List ModuleInfo → (Text → Bool) → Reasons → Kernel
kernel_of source disabled reasons =
    let registered = sorted_or_original (exclude_disabled source disabled) in
    record {
      source = source;
      registered = registered;
      lifecycle = sorted_or_original source;
      active = exclude_with_reasons registered reasons;
      disabled = disabled;
      reasons = reasons;
    }

-- newRegistryKernel; none is for rounds that run out of fuel.
unfoldable pub new_kernel : List ModuleInfo → (Text → Bool) → Option Kernel
new_kernel source disabled = elim (disabled_reasons source disabled) [
  | none ↦ none
  | some reasons ↦ some (kernel_of source disabled reasons)
]

-- The id, the flag and the reason of a ModuleState.
pub record StateView : Type 0 where
  pub id : Text
  pub enabled : Bool
  pub reason : Text

unfoldable pub project_states : List ModuleInfo → Reasons → List StateView
project_states source reasons =
    map
      (λ m.
        let reason = get_or reasons m.id [] in
        record { id = m.id; enabled = list_beq reason []; reason = reason })
      source

pub data DependencyError : Type 0 where
  disabled_dependency missing_dependency : Text → Text → DependencyError
  order : SortError → DependencyError

unfoldable pub missing_errors :
    Text → List Text → (Text → Bool) → List Dependency → List DependencyError
missing_errors module_id registered disabled [] = []
missing_errors module_id registered disabled (d ∷ ds) =
    let rest = missing_errors module_id registered disabled ds in
    if not d.required || list_beq d.id [] || member d.id registered
    then rest
    else (if disabled d.id
        then disabled_dependency module_id d.id ∷ rest
        else missing_dependency module_id d.id ∷ rest)

-- The loop of validateDependencies over the registered modules
unfoldable pub all_missing_errors :
    List ModuleInfo → List Text → (Text → Bool) → List DependencyError
all_missing_errors [] registered disabled = []
all_missing_errors (m ∷ ms) registered disabled =
    missing_errors m.id registered disabled m.dependencies
    ++ all_missing_errors ms registered disabled

unfoldable pub cycle_errors : List ModuleInfo → List DependencyError
cycle_errors ms = elim (sort_modules ms) [ inl e ↦ order e ∷ [] | inr sorted ↦ [] ]

unfoldable pub validate_dependencies : Kernel → List DependencyError
validate_dependencies k =
    all_missing_errors k.registered (ids k.registered) k.disabled ++ cycle_errors k.registered

-- MergeMigrationsAfter of app/modules/registry_artifacts.go, with migrations by their signatures.
unfoldable pub merge_after : List Text → Text → List Text → List Text
merge_after [] anchor module_migrations = module_migrations
merge_after (c ∷ core) anchor module_migrations =
    if list_beq c anchor
    then c ∷ module_migrations ++ merge_after core anchor []
    else c ∷ merge_after core anchor module_migrations
