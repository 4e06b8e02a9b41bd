-- ===== src/Lifecycle/Versions/Constraints.antt =====
-- What app/modulecatalog/lifecycle_version_policy.go accepts: every required dependency is there in a
-- version that fits.
use goravel_mine.Base.{
  ◌≡◌, refl, sym, ◌∙◌, Option, none, if◌then◌else◌, ◌↔◌, ◌⊎◌, inl, inr, true, false, some, List, [],
  ◌∷◌, ◌++◌, arith, Bool-cases, Option-cases, All,
}
use goravel_mine.Base.Texts.{Text, trim_space}
use goravel_mine.Base.Eq.{nat_eq, list_eq, list_beq}
use goravel_mine.Base.Dict.{Dict, get, put, get-put}
use goravel_mine.Lifecycle.Versions.Meets.{Fits, version_satisfies-Fits, Meets-version_satisfies}
use goravel_mine.Lifecycle.Versions.{
  Dependency, ModuleState, VersionError, constraint_errors, version_satisfies,
  one_dependency_errors, dependency_errors, states_errors, versions_of,
  validate_version_constraints,
}

-- The version of the last module of a list that has an id.
unfoldable pub version_in : List ModuleState → Text → Option Text
version_in [] id = none
version_in (s ∷ states) id = elim (version_in states id) [
  | some v ↦ some v
  | none ↦ if list_beq s.id id then some s.version else none
]

-- A dependency's module is in the list, in a version that fits the constraint.
pub record Satisfied (states : List ModuleState) (d : Dependency) : Type 0 where
  pub version : Text
  pub installed : version_in states d.id ≡ some version
  pub fits : Fits version d.version_constraint

abbrev pub Met : List ModuleState → Dependency → Type 0
Met states d = (d.required ≡ false) ⊎ Satisfied states d

get-versions_of :
    (states : List ModuleState) (m : Dict Text Text) (id : Text)
    → get (versions_of states m) id
      ≡ (elim (version_in states id) [ some v ↦ some v | none ↦ get m id ])
unfolding versions_of version_in
get-versions_of [] m id = refl
get-versions_of (s ∷ states) m id =
    ground (arith, get-versions_of states (put m s.id s.version) id, get-put m s.id s.version id)

get-version_in :
    (states : List ModuleState) (id : Text) → get (versions_of states []) id ≡ version_in states id
unfolding get
get-version_in states id = ground (arith, get-versions_of states [] id)

++-nil : (xs ys : List VersionError) → xs ++ ys ≡ [] → (xs ≡ []) × (ys ≡ [])
++-nil [] ys h = (refl, h)
++-nil (x ∷ xs) ys h = cc

constraint_errors-Fits :
    (m : Text) (d : Dependency) (v : Text)
    → constraint_errors m d v ≡ []
    → Fits v d.version_constraint
unfolding constraint_errors
constraint_errors-Fits m d v h = elim (Bool-cases (list_beq (trim_space d.version_constraint) [])) [
  | inl e ↦ inl e
  | inr e ↦ elim (Option-cases (version_satisfies v d.version_constraint)) [
    | inl g ↦ ground (arith, h, e, g)
    | inr (true, g) ↦ version_satisfies-Fits v d.version_constraint g
    | inr (false, g) ↦ ground (arith, h, e, g)
  ]
]

Fits-constraint_errors :
    (m : Text) (d : Dependency) (v : Text)
    → Fits v d.version_constraint
    → constraint_errors m d v ≡ []
unfolding constraint_errors
Fits-constraint_errors m d v (inl e) = rw (constraint_errors, e) refl
Fits-constraint_errors m d v (inr h) =
    let g = Meets-version_satisfies v d.version_constraint h.0 h.1 in
    elim (Bool-cases (list_beq (trim_space d.version_constraint) [])) [
      | inl e ↦ rw (constraint_errors, e) refl
      | inr e ↦ rw (constraint_errors, e, g) refl
    ]

module _ (all : List ModuleState) where
  abbrev last_versions : Dict Text Text
  last_versions = versions_of all []

  one_dependency_errors-Met :
      (m : Text) (d : Dependency) → one_dependency_errors m last_versions d ≡ [] → Met all d
  unfolding one_dependency_errors
  one_dependency_errors-Met m d h = elim (Bool-cases d.required) [
    | inr e ↦ inl e
    | inl e ↦ elim (Option-cases (get last_versions d.id)) [
      | inl g ↦ ground (arith, h, e, g)
      | inr (v, g) ↦ inr (record {
        version = v;
        installed = sym (get-version_in all d.id) ∙ g;
        fits = constraint_errors-Fits m d v (ground (arith, h, e, g));
      })
    ]
  ]

  Met-one_dependency_errors :
      (m : Text) (d : Dependency) → Met all d → one_dependency_errors m last_versions d ≡ []
  unfolding one_dependency_errors
  Met-one_dependency_errors m d (inl e) = rw (one_dependency_errors, e) refl
  Met-one_dependency_errors m d (inr s) =
      let g : get last_versions d.id ≡ some s.version = get-version_in all d.id ∙ s.installed in
      elim (Bool-cases d.required) [
        | inr e ↦ rw (one_dependency_errors, e) refl
        | inl e ↦ rw (one_dependency_errors, e, g) (Fits-constraint_errors m d s.version s.fits)
      ]

  dependency_errors_iff :
      (m : Text) (ds : List Dependency)
      → (dependency_errors m ds last_versions ≡ []) ↔ All (Met all) ds
  unfolding dependency_errors
  dependency_errors_iff m [] = (λ h. tt, λ h. refl)
  dependency_errors_iff m (d ∷ ds) = (
    λ h.
        let parts = ++-nil _ _ h in
        (one_dependency_errors-Met m d parts.0, (dependency_errors_iff m ds).0 parts.1),
    λ h. rw (Met-one_dependency_errors m d h.0) ((dependency_errors_iff m ds).1 h.1),
  )

  states_errors_iff :
      (states : List ModuleState)
      → (states_errors states last_versions ≡ []) ↔ All (λ s. All (Met all) s.dependencies) states
  unfolding states_errors
  states_errors_iff [] = (λ h. tt, λ h. refl)
  states_errors_iff (s ∷ states) = (
    λ h.
        let parts = ++-nil _ _ h in
        (
          (dependency_errors_iff s.id s.dependencies).0 parts.0,
          (states_errors_iff states).0 parts.1,
        ),
    λ h. rw ((dependency_errors_iff s.id s.dependencies).1 h.0) ((states_errors_iff states).1 h.1),
  )

-- The policy accepts a list of modules exactly if each required dependency of each module has a module in the list, and
-- the last one with its id has a version that fits the constraint: the constraint is blank, or it has parts and both the
-- version and each part's are versions that stand to each other as the part's operator says, in the order that compares
-- their numbers at each index.
pub validate_version_constraints_iff :
    (states : List ModuleState)
    → (validate_version_constraints states ≡ []) ↔ All (λ s. All (Met states) s.dependencies) states
unfolding validate_version_constraints
validate_version_constraints_iff states = states_errors_iff states states
