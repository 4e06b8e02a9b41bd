-- ===== src/Lifecycle/Planner/Removal.antt =====
-- The removal of a module that has a replacement plan, app/modulecatalog/lifecycle_planner.go.
use goravel_mine.Base.{
  ℕ, ◌≡◌, refl, subst, ◌⊎◌, inl, inr, true, false, ◌||◌, none, some, List, [], ◌∷◌, ◌++◌, map,
  arith, leb, Bool-cases, Option-cases, length,
}
use goravel_mine.Base.Texts.{Text, trim_space}
use goravel_mine.Base.Eq.{nat_eq, list_eq, list_beq}
use goravel_mine.Base.Dict.{get}
use goravel_mine.Lifecycle.Replacement.{
  ReplacementPlan, PlanError, validate, forward_commands, can_remove,
}
use goravel_mine.Lifecycle.Planner.{
  install, uninstall, State, new_item, replacement_item, Plan, Planner, plan, with_states,
  ordered_states, find_state, in_order, replacement_removal, replaced, cutover_index, valid_action,
}

-- What the plan of a removal is made of: the replaced module is announced, its support is over or the
-- removal is an emergency, and its uninstall command comes after the target's install command and all
-- commands of the replacement, of which the cutover is the last one and the one that the rollback is for.
pub record Removal (sha256 : Text → Text) (now : ℕ) (p : Planner) (id : Text) (rp : ReplacementPlan)
    (x : Plan) : Type 0 where
  pub valid : validate sha256 rp id rp.to_module ≡ none
  pub over : (p.emergency || leb rp.end_of_support now) ≡ true
  pub target : State
  pub target_found : find_state rp.to_module p.states ≡ some target
  pub removed : State
  pub removed_found : list_beq removed.id (trim_space id) ≡ true
  pub order :
      x.items
      ≡ new_item install target ∷ map (replacement_item target) (forward_commands rp)
        ++ new_item uninstall removed ∷ []
  pub cutover_last : x.rollback_after ≡ length (forward_commands rp)

found-id :
    (id : Text) (states : List State) (s : State)
    → find_state id states ≡ some s
    → list_beq s.id id ≡ true
unfolding find_state
found-id id [] s h = cc
found-id id (t ∷ states) s h = elim (Bool-cases (list_beq t.id id)) [
  | inl e ↦ let q : t ≡ s = ground (arith, h, e) in subst (λ x. list_beq x.id id ≡ true) q e
  | inr e ↦ found-id id states s (rw (find_state, e) at h)
]

inr-injective : {x y : Plan} → ◌≡◌ {A = PlanError ⊎ Plan} (inr x) (inr y) → x ≡ y
inr-injective h = cc

refused : {e : PlanError} {x : Plan} → ◌≡◌ {A = PlanError ⊎ Plan} (inl e) (inr x) → ⊥
refused h = cc

replaced-Removal :
    (sha256 : Text → Text) (now : ℕ) (p : Planner) (id : Text) (rp : ReplacementPlan)
    (removed : State) (x : Plan)
    → validate sha256 rp id rp.to_module ≡ none
    → (p.emergency || leb rp.end_of_support now) ≡ true
    → list_beq removed.id (trim_space id) ≡ true
    → replaced (new_item uninstall removed ∷ []) rp (find_state rp.to_module p.states) ≡ inr x
    → Removal sha256 now p id rp x
unfolding cutover_index forward_commands
replaced-Removal sha256 now p id rp removed x v o r h =
    elim (Option-cases (find_state rp.to_module p.states)) [
      | inl e ↦
          absurd
            (refused (subst (λ t. replaced (new_item uninstall removed ∷ []) rp t ≡ inr x) e h))
      | inr (target, e) ↦
          subst (Removal sha256 now p id rp)
            (inr-injective
              (subst (λ t. replaced (new_item uninstall removed ∷ []) rp t ≡ inr x) e h))
            (record {
              valid = v;
              over = o;
              target = target;
              target_found = e;
              removed = removed;
              removed_found = r;
              order = refl;
              cutover_last = refl;
            })
    ]

replacement_removal-Removal :
    (sha256 : Text → Text) (now : ℕ) (p : Planner) (id : Text) (rp : ReplacementPlan)
    (removed : State) (x : Plan)
    → get p.replacements (trim_space id) ≡ some rp
    → list_beq removed.id (trim_space id) ≡ true
    → replacement_removal sha256 now p id (new_item uninstall removed ∷ []) ≡ inr x
    → Removal sha256 now p id rp x
unfolding replacement_removal can_remove
replacement_removal-Removal sha256 now p id rp removed x g r h =
    elim (Option-cases (validate sha256 rp id rp.to_module)) [
      | inr (err, v) ↦ absurd (refused (rw (replacement_removal, g, v) at h))
      | inl v ↦ elim (Bool-cases (p.emergency || leb rp.end_of_support now)) [
        | inr o ↦ absurd (refused (rw (replacement_removal, can_remove, g, v, o) at h))
        | inl o ↦
            replaced-Removal sha256 now p id rp removed x v o r
              (rw (replacement_removal, can_remove, g, v, o) at h)
      ]
    ]

-- Asked to uninstall a module by an id that is not blank and that has a replacement plan, the planner makes a plan only
-- if the replacement plan is valid and its support ended, or in an emergency: the plan installs the target, runs the
-- replacement's commands up to the cutover, and only then uninstalls the module; the rollback is tied to the index of
-- the cutover, the last command before that. A call without an id, which uninstalls all modules and asks for no
-- replacement plan, is not covered.
pub plan-Removal :
    (sha256 : Text → Text) (now : ℕ) (p : Planner) (id : Text) (rp : ReplacementPlan) (x : Plan)
    → list_beq (trim_space id) [] ≡ false
    → get p.replacements (trim_space id) ≡ some rp
    → plan sha256 now p uninstall id ≡ inr x
    → Removal sha256 now p id rp x
unfolding plan valid_action ordered_states
plan-Removal sha256 now p id rp x k g h =
    elim (Option-cases (find_state (trim_space id) (in_order uninstall p.states))) [
      | inl e ↦ absurd (refused (rw (plan, ordered_states, k, e) at h))
      | inr (removed, e) ↦
          replacement_removal-Removal sha256 now p id rp removed x g (found-id _ _ removed e)
            (rw (plan, ordered_states, k, e, with_states, k) at h)
    ]
