-- ===== src/Lifecycle/Planner.antt =====
-- app/modulecatalog/lifecycle_planner.go: which commands run for an action, and in which order.
pub mod Removal
use mathlib.Core.List.{reverse}
use goravel_mine.Base.{
  ℕ, ◌+◌, ◌⊎◌, inl, inr, Bool, true, false, Option, none, some, List, [], ◌∷◌, ◌++◌, map,
  if◌then◌else◌,
}
use goravel_mine.Base.Texts.{Text, codes, trim_space}
use goravel_mine.Base.Eq.{nat_eq, list_eq, list_beq}
use goravel_mine.Base.Dict.{Dict, get}
use goravel_mine.Lifecycle.Replacement.{
  ReplacementPlan, PlanError, unsupported_action, module_not_found, target_not_found,
  removal_blocked, validate, forward_commands, rollback_of, can_remove, Command, Phase, cutover,
  phase_name,
}

pub data Action : Type 0 where
  install upgrade rollback uninstall : Action
  other : Text → Action

unfoldable pub action_name : Action → Text
action_name install = codes "install"
action_name upgrade = codes "upgrade"
action_name rollback = codes "rollback"
action_name uninstall = codes "uninstall"
action_name (other s) = s

unfoldable pub valid_action : Action → Bool
valid_action (other s) = false
valid_action _ = true

pub record State : Type 0 where
  pub id : Text
  pub version : Text
  pub install_command : Text
  pub upgrade_command : Text
  pub rollback_command : Text
  pub uninstall_command : Text
  pub destructive_check : Text

unfoldable pub lifecycle_command : State → Action → Text
lifecycle_command s install = s.install_command
lifecycle_command s upgrade = s.upgrade_command
lifecycle_command s rollback = s.rollback_command
lifecycle_command s uninstall = s.uninstall_command
lifecycle_command s (other _) = []

-- lifecycleIdempotencyKey
unfoldable pub idempotency_key : Text → Text → Text → Text
idempotency_key action id version =
    trim_space action ++ codes ":" ++ trim_space id ++ codes ":" ++ trim_space version

pub record Item : Type 0 where
  pub state : State
  pub action : Text
  pub command : Text
  pub check : Text
  pub key : Text

-- newLifecyclePlanItem
unfoldable pub new_item : Action → State → Item
new_item a s = record {
  state = s;
  action = action_name a;
  command = lifecycle_command s a;
  check = s.destructive_check;
  key = idempotency_key (action_name a) s.id s.version;
}

unfoldable pub reverses_order : Action → Bool
reverses_order rollback = true
reverses_order uninstall = true
reverses_order _ = false

-- The loop of filteredState.
unfoldable pub find_state : Text → List State → Option State
find_state id [] = none
find_state id (s ∷ states) =
    let rest = find_state id states in if list_beq s.id id then some s else rest

abbrev pub in_order : Action → List State → List State
in_order a states = if reverses_order a then reverse states else states

abbrev pub only : Option State → PlanError ⊎ List State
only none = inl module_not_found
only (some s) = inr (s ∷ [])

unfoldable pub ordered_states : List State → Action → Text → PlanError ⊎ List State
ordered_states states a module_id =
    let id = trim_space module_id in
    if list_beq id [] then inr (in_order a states) else only (find_state id (in_order a states))

-- An item of replacementLifecycleItems
unfoldable pub replacement_item : State → Command → Item
replacement_item s c =
    let action = codes "replacement:" ++ phase_name c.phase ++ codes ":" ++ c.name in
    record {
      state = s;
      action = action;
      command = c.command;
      check = [];
      key = idempotency_key action s.id s.version;
    }

abbrev pub is_cutover : Phase → Bool
is_cutover cutover = true
is_cutover _ = false

-- The index of the last cutover command from an index on; -1 does not arise where there is one.
unfoldable pub cutover_index : ℕ → ℕ → List Command → ℕ
cutover_index found i [] = found
cutover_index found i (c ∷ cs) = cutover_index (if is_cutover c.phase then i else found) (i + 1) cs

pub record Plan : Type 0 where
  pub action : Action
  pub items : List Item
  pub rollback_item : Option Item
  pub rollback_after : ℕ

pub record Planner : Type 0 where
  pub states : List State
  pub replacements : Dict Text ReplacementPlan
  pub emergency : Bool

abbrev pub plain : Action → List Item → Plan
plain a items = record { action = a; items = items; rollback_item = none; rollback_after = 0 }

abbrev pub replaced : List Item → ReplacementPlan → Option State → PlanError ⊎ Plan
replaced items rp none = inl target_not_found
replaced items rp (some target) = inr (record {
  action = uninstall;
  items = new_item install target ∷ map (replacement_item target) (forward_commands rp) ++ items;
  rollback_item = some (replacement_item target (rollback_of rp));
  rollback_after = 1 + cutover_index 0 0 (forward_commands rp);
})

module _ (sha256 : Text → Text) (now : ℕ) (p : Planner) where
  unfoldable pub replacement_removal : Text → List Item → PlanError ⊎ Plan
  replacement_removal module_id items = elim (get p.replacements (trim_space module_id)) [
    | none ↦ inr (plain uninstall items)
    | some rp ↦ elim (validate sha256 rp module_id rp.to_module) [
      | some e ↦ inl e
      | none ↦
          if can_remove rp now p.emergency
          then replaced items rp (find_state rp.to_module p.states)
          else inl removal_blocked
    ]
  ]

  abbrev pub with_states : Action → Text → PlanError ⊎ List State → PlanError ⊎ Plan
  with_states a module_id (inl e) = inl e
  with_states uninstall module_id (inr states) =
      if list_beq (trim_space module_id) []
      then inr (plain uninstall (map (new_item uninstall) states))
      else replacement_removal module_id (map (new_item uninstall) states)
  with_states a module_id (inr states) = inr (plain a (map (new_item a) states))

  unfoldable pub plan : Action → Text → PlanError ⊎ Plan
  plan a module_id =
      if valid_action a
      then with_states a module_id (ordered_states p.states a module_id)
      else inl unsupported_action
