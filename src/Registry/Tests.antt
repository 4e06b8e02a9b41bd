-- ===== src/Registry/Tests.antt =====
-- The registry on modules at hand.
use goravel_mine.Base.{
  String, ◌≡◌, refl, ◌↔◌, inl, inr, Bool, true, false, some, List, [], ◌∷◌, select, All,
}
use goravel_mine.Base.Texts.{Text, codes}
use goravel_mine.Base.Eq.{nat_eq, list_eq, list_beq}
use goravel_mine.Base.Members.{member, distinct, missing}
use goravel_mine.Base.Dict.{get, get_or, put}
use goravel_mine.Base.{head, tail}
use goravel_mine.Lifecycle.Versions.{Dependency}
use goravel_mine.Base.Texts.{text_less}
use goravel_mine.Base.Texts.{trim_space, trim_left, trim_right, is_space}
use goravel_mine.Registry.Catalog
use goravel_mine.Registry.Catalog.{
  CatalogModule, Stat, duplicates, errors_of, collect, permission_keys, add_keys,
}
use goravel_mine.Registry.Catalog.Valid.{ValidCatalog, validate-ValidCatalog}
use goravel_mine.Registry.Sort.{
  ModuleInfo, ids, find_module, insert_dependency, sort_dependencies, visit_dependencies, visit,
  visit_modules, cycle_at, sort_modules,
}
use goravel_mine.Registry.Sort.Topological.{Ordered, sort_modules-Ordered}
use goravel_mine.Registry.Sort.Cycle.{Cause, sort_modules-Cause}
use goravel_mine.Registry.Disabled.{
  Reasons, is_off, explicit_reasons, first_disabled, dependency_reason, propagate_round, propagate,
  disabled_reasons,
}
use goravel_mine.Registry.Disabled.Named.{Off}
use goravel_mine.Registry.Disabled.Fixpoint.{disabled_reasons-Off}
use goravel_mine.Registry.Kernel.{
  Kernel, exclude_disabled, exclude_with_reasons, sorted_or_original, new_kernel, missing_errors,
  all_missing_errors, cycle_errors, validate_dependencies, project_states, merge_after,
}
use goravel_mine.Registry.Kernel.Members.{All-at}
use goravel_mine.Registry.Kernel.Active.{WellNamed, new_kernel-closed}
use goravel_mine.Registry.Kernel.Valid.{new_kernel-valid}

abbrev needs : String → Dependency
needs id = record { id = codes id; version_constraint = []; required = true }

abbrev base : ModuleInfo
base = record { id = codes "base"; dependencies = [] }

abbrev core : ModuleInfo
core = record { id = codes "core"; dependencies = needs "base" ∷ [] }

abbrev shop : ModuleInfo
shop = record { id = codes "shop"; dependencies = needs "core" ∷ needs "base" ∷ [] }

abbrev two : List ModuleInfo
two = core ∷ base ∷ []

abbrev three : List ModuleInfo
three = shop ∷ two

three_sorted : sort_modules three ≡ inr (base ∷ core ∷ shop ∷ [])
unfolding distinct member missing find_module insert_dependency sort_dependencies visit_dependencies
    visit visit_modules sort_modules text_less list_beq
three_sorted = refl

abbrev loop_a : ModuleInfo
loop_a = record { id = codes "a"; dependencies = needs "b" ∷ [] }

abbrev loop_b : ModuleInfo
loop_b = record { id = codes "b"; dependencies = needs "a" ∷ [] }

loop_found : sort_modules (loop_a ∷ loop_b ∷ []) ≡ inl (cycle_at (codes "a"))
unfolding distinct member missing find_module insert_dependency sort_dependencies visit_dependencies
    visit visit_modules sort_modules text_less list_beq
loop_found = refl

sort_modules-Ordered_example : Ordered three (base ∷ core ∷ shop ∷ [])
sort_modules-Ordered_example = sort_modules-Ordered three (base ∷ core ∷ shop ∷ []) three_sorted

sort_modules-Cause_example : Cause (loop_a ∷ loop_b ∷ []) (cycle_at (codes "a"))
sort_modules-Cause_example =
    sort_modules-Cause (loop_a ∷ loop_b ∷ []) (cycle_at (codes "a")) loop_found

abbrev base_off : Text → Bool
base_off id = list_beq id (codes "base")

abbrev nothing_off : Text → Bool
nothing_off id = false

all-WellNamed :
    (ms : List ModuleInfo)
    → All (λ m. All (λ d. list_beq d.id [] ≡ false) m.dependencies) ms
    → WellNamed ms
all-WellNamed ms h m i d j = All-at _ m.dependencies d (All-at _ ms m h i) j

three-WellNamed : WellNamed three
unfolding list_beq
three-WellNamed = all-WellNamed three ((refl, (refl, tt)), ((refl, tt), (tt, tt)))

all_off :
    disabled_reasons three base_off
    ≡ some (
        (codes "base", codes "disabled by MODULE_DISABLED")
        ∷ (codes "shop", dependency_reason (codes "base"))
        ∷ (codes "core", dependency_reason (codes "base"))
        ∷ [])
unfolding disabled_reasons propagate propagate_round first_disabled explicit_reasons is_off list_beq
    get get_or put
all_off = refl

disabled_reasons-Off_example :
    (r : Reasons) × (disabled_reasons three base_off ≡ some r)
    × ((id : Text) → (is_off r id ≡ true) ↔ Off three base_off id)
disabled_reasons-Off_example = disabled_reasons-Off three base_off three-WellNamed

abbrev all_on : Kernel
all_on = record {
  source = three;
  registered = base ∷ core ∷ shop ∷ [];
  lifecycle = base ∷ core ∷ shop ∷ [];
  active = base ∷ core ∷ shop ∷ [];
  disabled = nothing_off;
  reasons = [];
}

all_on_built : new_kernel three nothing_off ≡ some all_on
unfolding new_kernel sorted_or_original exclude_disabled exclude_with_reasons disabled_reasons
    propagate propagate_round first_disabled explicit_reasons is_off get get_or put select distinct
    member missing find_module insert_dependency sort_dependencies visit_dependencies visit
    visit_modules sort_modules text_less list_beq
all_on_built = refl

core_listed : member (codes "core") (ids three) ≡ true
unfolding member list_beq
core_listed = refl

all_on_valid : validate_dependencies all_on ≡ []
unfolding validate_dependencies all_missing_errors missing_errors cycle_errors distinct member
    missing find_module insert_dependency sort_dependencies visit_dependencies visit visit_modules
    sort_modules text_less list_beq
all_on_valid = refl

new_kernel-closed_example : member (codes "core") (ids all_on.active) ≡ true
new_kernel-closed_example =
    new_kernel-closed three nothing_off all_on shop (needs "core") three-WellNamed all_on_built
      (tail (tail (head refl))) (head refl) refl core_listed

new_kernel-valid_example : all_on.active ≡ all_on.registered
new_kernel-valid_example =
    new_kernel-valid three nothing_off all_on three-WellNamed all_on_built all_on_valid

states_of_base :
    project_states (base ∷ []) [] ≡ record { id = codes "base"; enabled = true; reason = [] } ∷ []
unfolding project_states get get_or list_beq
states_of_base = refl

merges :
    merge_after (codes "x" ∷ codes "y" ∷ codes "x" ∷ []) (codes "x") (codes "m" ∷ [])
    ≡ codes "x" ∷ codes "m" ∷ codes "y" ∷ codes "x" ∷ []
unfolding merge_after list_beq
merges = refl

abbrev shop_catalog : List CatalogModule
shop_catalog =
    record {
      id = codes "shop";
      routes =
          record {
            name = codes "shop.index";
            method = codes "GET";
            path = codes "/shop";
            permission = codes "shop:read";
            permissions = codes "shop:read" ∷ [];
            has_installer = true;
          }
          ∷ [];
      menus = record { key = codes "shop"; permission = codes "shop:read" } ∷ [];
      permissions = codes "shop:read" ∷ [];
      openapi_files = codes "docs/shop.yaml" ∷ [];
      test_templates = [];
    }
    ∷ []

abbrev all_there : Text → Stat
all_there file = Stat.exists

shop_catalog-validate : Catalog.validate all_there true shop_catalog ≡ []
unfolding Catalog.validate duplicates errors_of collect permission_keys add_keys member list_beq
    trim_space trim_left trim_right is_space
shop_catalog-validate = refl

validate-ValidCatalog_example : ValidCatalog shop_catalog
validate-ValidCatalog_example =
    validate-ValidCatalog all_there true shop_catalog shop_catalog-validate
