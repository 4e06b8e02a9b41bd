-- ===== src/Lifecycle/Tests.antt =====
-- The theorems on the lifecycle of modules, app/modulecatalog, at concrete inputs.
use goravel_mine.Base.{◌≡◌, refl, ◌↔◌, inr, true, some, List, [], ◌∷◌, ◌++◌, map, any, All}
use goravel_mine.Base.Texts.{Text, codes, trim_space, strip_prefix, has_prefix}
use goravel_mine.Base.Texts.{trim_left, trim_right, is_space}
use goravel_mine.Base.Eq.{nat_eq, list_eq, list_beq}
use goravel_mine.Base.Dict.{get}
use goravel_mine.Lifecycle.Replacement.{
  ReplacementPlan, required_phases, forward_commands, rollback_of, validate, is_package_version,
  number, skip_digits, is_build, is_build_byte, same_phases, phase_name, hashes_match, hash_matches,
  policy_hash, words, join, commands, can_remove,
}
use goravel_mine.Lifecycle.Planner.{
  Planner, Plan, State, install, uninstall, plan, valid_action, ordered_states, find_state,
  reverses_order, replacement_removal, cutover_index, new_item, replacement_item,
}
use goravel_mine.Lifecycle.Planner.Removal.{Removal, plan-Removal}
use goravel_mine.Base.{ℕ, false, arith}
use goravel_mine.Lifecycle.Store.{Lock, Store, acquire}
use goravel_mine.Lifecycle.Store.Leases.{
  LockOp, try_acquire, try_release, apply_all, Foreign, lease-held,
}
use goravel_mine.Lifecycle.Versions.{
  compare_parts, version_satisfies, ModuleState, validate_version_constraints, parse_version,
  compare_versions, compare_equalized, padded, below, cut_at, split_at, is_digit, digits, atoi,
  parse_part, parse_parts, satisfies_all, satisfies_single, split_constraints, fields,
  split_operator, compare_result,
}
use goravel_mine.Lifecycle.Versions.Order.{Orders, part, compare_parts-Orders}
use goravel_mine.Lifecycle.Versions.Constraints.{Met, validate_version_constraints_iff}

compare_parts-Orders_example :
    Orders
      (compare_parts (1 ∷ 2 ∷ []) (1 ∷ 2 ∷ 0 ∷ 3 ∷ []))
      (part (1 ∷ 2 ∷ []))
      (part (1 ∷ 2 ∷ 0 ∷ 3 ∷ []))
compare_parts-Orders_example = compare_parts-Orders (1 ∷ 2 ∷ []) (1 ∷ 2 ∷ 0 ∷ 3 ∷ [])

abbrev two_modules : List ModuleState
two_modules =
    record { id = codes "core"; version = codes "v1.2"; dependencies = [] }
    ∷ record {
      id = codes "shop";
      version = codes "0.1.0";
      dependencies =
          record { id = codes "core"; version_constraint = codes ">=1.2.0, <2"; required = true }
          ∷ [];
    }
    ∷ []

validate_version_constraints_iff_example :
    (validate_version_constraints two_modules ≡ [])
    ↔ All (λ s. All (Met two_modules) s.dependencies) two_modules
validate_version_constraints_iff_example = validate_version_constraints_iff two_modules

compare_versions_runs : compare_versions (codes "v1.2") (codes "1.10.0+build") ≡ some below
unfolding cut_at split_at is_digit digits atoi parse_part parse_parts parse_version padded
    compare_equalized compare_parts compare_versions trim_space trim_left trim_right is_space
    strip_prefix list_beq any
compare_versions_runs = refl

satisfies_runs : version_satisfies (codes "v1.2") (codes ">=1.2.0, <2") ≡ some true
unfolding version_satisfies satisfies_all satisfies_single split_constraints fields split_operator
    compare_result cut_at split_at is_digit digits atoi parse_part parse_parts parse_version padded
    compare_equalized compare_parts compare_versions trim_space trim_left trim_right is_space
    strip_prefix list_beq any
satisfies_runs = refl

abbrev same_digest : Text → Text
same_digest s = s

abbrev hash_of : Text → Text
hash_of command = codes "sha256:" ++ command

abbrev shop_plan : ReplacementPlan
shop_plan = record {
  from_module = codes "shop";
  to_module = codes "store";
  data_migration = codes "d";
  config_migration = codes "c";
  permission_mapping = codes "p";
  validation = codes "v";
  cutover_command = codes "x";
  rollback_command = codes "r";
  announced_at = 10;
  end_of_support = 20;
  removal_version = codes "v1.2.0";
  phases = required_phases;
  hashes =
      (codes "data_migration", hash_of (codes "d"))
      ∷ (codes "config_migration", hash_of (codes "c"))
      ∷ (codes "permission_mapping", hash_of (codes "p"))
      ∷ (codes "validation", hash_of (codes "v"))
      ∷ (codes "cutover", hash_of (codes "x"))
      ∷ (codes "rollback", hash_of (codes "r"))
      ∷ [];
}

abbrev state_named : Text → State
state_named id = record {
  id = id;
  version = codes "1.0.0";
  install_command = codes "i";
  upgrade_command = codes "u";
  rollback_command = codes "b";
  uninstall_command = codes "n";
  destructive_check = [];
}

abbrev shop_planner : Planner
shop_planner = record {
  states = state_named (codes "shop") ∷ state_named (codes "store") ∷ [];
  replacements = (codes "shop", shop_plan) ∷ [];
  emergency = false;
}

abbrev shop_removal : Plan
shop_removal = record {
  action = uninstall;
  items =
      new_item install (state_named (codes "store"))
        ∷ map (replacement_item (state_named (codes "store"))) (forward_commands shop_plan)
      ++ new_item uninstall (state_named (codes "shop")) ∷ [];
  rollback_item = some (replacement_item (state_named (codes "store")) (rollback_of shop_plan));
  rollback_after = 5;
}

shop_given : list_beq (trim_space (codes "shop")) [] ≡ false
unfolding trim_space trim_left trim_right is_space list_beq
shop_given = refl

shop_replaced : get shop_planner.replacements (trim_space (codes "shop")) ≡ some shop_plan
unfolding trim_space trim_left trim_right is_space list_beq get
shop_replaced = refl

shop_planned : plan same_digest 25 shop_planner uninstall (codes "shop") ≡ inr shop_removal
unfolding trim_space trim_left trim_right is_space list_beq get any strip_prefix has_prefix plan
    valid_action ordered_states find_state reverses_order replacement_removal cutover_index validate
    is_package_version number skip_digits is_build is_build_byte same_phases phase_name hashes_match
    hash_matches policy_hash words join commands can_remove forward_commands
shop_planned = refl

plan-Removal_example : Removal same_digest 25 shop_planner (codes "shop") shop_plan shop_removal
plan-Removal_example =
    plan-Removal same_digest 25 shop_planner (codes "shop") shop_plan shop_removal shop_given
      shop_replaced shop_planned

abbrev shop_lock : Lock
shop_lock = record {
  key = codes "module:shop";
  owner = codes "a";
  run_key = codes "r";
  acquired = true;
  expires_at = 100;
}

abbrev locked_store : Store
locked_store = record {
  locks = (codes "module:shop", shop_lock) ∷ [];
  runs = [];
  steps = [];
  states = [];
}

abbrev attempts : List (ℕ × LockOp)
attempts =
    (20, try_acquire (codes "module:shop") (codes "b") (codes "s") 50)
    ∷ (30, try_release (record shop_lock { owner = codes "b" }))
    ∷ []

attempts-Foreign : All (Foreign shop_lock) attempts
unfolding list_beq
attempts-Foreign = (omega arith, (refl, tt))

shop_held : get locked_store.locks shop_lock.key ≡ some shop_lock
unfolding get list_beq
shop_held = refl

shop_key : trim_space (codes "module:shop") ≡ shop_lock.key
unfolding trim_space trim_left trim_right is_space
shop_key = refl

key_given : list_beq shop_lock.key [] ≡ false
unfolding list_beq
key_given = refl

owner_given : list_beq (trim_space (codes "b")) [] ≡ false
unfolding trim_space trim_left trim_right is_space list_beq
owner_given = refl

lease-held_example :
    (get (apply_all attempts locked_store).locks shop_lock.key ≡ some shop_lock)
    × (acquire (codes "module:shop") (codes "b") (codes "s") 50 99 (apply_all attempts locked_store)
        ≡ (inr (record shop_lock { acquired = false }), apply_all attempts locked_store))
lease-held_example =
    lease-held shop_lock locked_store attempts (codes "module:shop") (codes "b") (codes "s") 50 99
      shop_held attempts-Foreign (omega arith) shop_key key_given owner_given
