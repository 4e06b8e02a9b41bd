-- ===== src/Lifecycle/Replacement.antt =====
-- Replacement plans of modules, app/modules/replacement.go. The digest SHA-256 is an argument; times are
-- numbers of nanoseconds, and the zero time is 0.
use goravel_mine.Base.{
  ℕ, Bool, true, false, not, ◌&&◌, ◌||◌, Option, none, some, List, [], ◌∷◌, ◌++◌, leb,
  if◌then◌else◌, ◌==◌, length, any,
}
use goravel_mine.Base.Texts.{is_space, Text, codes, trim_space, strip_prefix}
use goravel_mine.Base.Eq.{nat_eq, list_eq, list_beq}
use goravel_mine.Base.Dict.{Dict, get}

pub data Phase : Type 0 where
  prepare dual_run cutover rollback_window retired : Phase
  unknown : Text → Phase

unfoldable pub phase_name : Phase → Text
phase_name prepare = codes "prepare"
phase_name dual_run = codes "dual_run"
phase_name cutover = codes "cutover"
phase_name rollback_window = codes "rollback_window"
phase_name retired = codes "retired"
phase_name (unknown s) = s

-- strings.Fields, as the words and whether the text begins with one
abbrev pub onto_word : ℕ → Bool × List Text → Bool × List Text
onto_word c (true, w ∷ ws) = (true, (c ∷ w) ∷ ws)
onto_word c (true, []) = (true, (c ∷ []) ∷ [])
onto_word c (false, ws) = (true, (c ∷ []) ∷ ws)

unfoldable pub words : Text → Bool × List Text
words [] = (false, [])
words (c ∷ s) = let rest = words s in if is_space c then (false, rest.1) else onto_word c rest

-- strings.Join with a blank
unfoldable pub join : List Text → Text
join [] = []
join (w ∷ []) = w
join (w ∷ x ∷ ws) = w ++ 32 ∷ join (x ∷ ws)

-- replacementCommandPolicyHash, where `sha256` is the hexadecimal digest
unfoldable pub policy_hash : (Text → Text) → Text → Text
policy_hash sha256 command = codes "sha256:" ++ sha256 (join (words (trim_space command)).1)

-- `[0-9]+`: what follows the digits
unfoldable pub skip_digits : Text → Text
skip_digits [] = []
skip_digits (c ∷ s) = if leb b'0' c && leb c b'9' then skip_digits s else c ∷ s

unfoldable pub number : Text → Option Text
number [] = none
number (c ∷ s) = if leb b'0' c && leb c b'9' then some (skip_digits s) else none

unfoldable pub is_build_byte : ℕ → Bool
is_build_byte c =
    (leb b'0' c && leb c b'9')
    || ((leb b'A' c && leb c b'Z') || ((leb b'a' c && leb c b'z') || (c == b'.' || c == b'-')))

-- `(?:\+[0-9A-Za-z.-]+)?$`
unfoldable pub is_build : Text → Bool
is_build [] = true
is_build (p ∷ []) = false
is_build (p ∷ c ∷ s) = p == b'+' && not (any (λ x. not (is_build_byte x)) (c ∷ s))

abbrev pub dotted : Option Text → Option Text
dotted none = none
dotted (some s) = elim (strip_prefix (codes ".") s) [ none ↦ none | some rest ↦ number rest ]

-- packageVersionPattern of app/modules/package.go
unfoldable pub is_package_version : Text → Bool
is_package_version s =
    let start : Text = elim (strip_prefix (codes "v") s) [ none ↦ s | some rest ↦ rest ] in
    elim (dotted (dotted (number start))) [ none ↦ false | some rest ↦ is_build rest ]

pub record ReplacementPlan : Type 0 where
  pub from_module : Text
  pub to_module : Text
  pub data_migration : Text
  pub config_migration : Text
  pub permission_mapping : Text
  pub validation : Text
  pub cutover_command : Text
  pub rollback_command : Text
  pub announced_at : ℕ
  pub end_of_support : ℕ
  pub removal_version : Text
  pub phases : List Phase
  pub hashes : Dict Text Text

pub data PlanError : Type 0 where
  bad_binding bad_version bad_support bad_phases bad_hashes : PlanError
  removal_blocked unsupported_action module_not_found target_not_found : PlanError

abbrev pub required_phases : List Phase
required_phases = prepare ∷ dual_run ∷ cutover ∷ rollback_window ∷ retired ∷ []

unfoldable pub same_phases : List Phase → List Phase → Bool
same_phases [] [] = true
same_phases [] (q ∷ qs) = false
same_phases (p ∷ ps) [] = false
same_phases (p ∷ ps) (q ∷ qs) = list_beq (phase_name p) (phase_name q) && same_phases ps qs

unfoldable pub commands : ReplacementPlan → List (Text × Text)
commands p =
    (codes "data_migration", p.data_migration)
    ∷ (codes "config_migration", p.config_migration)
    ∷ (codes "permission_mapping", p.permission_mapping)
    ∷ (codes "validation", p.validation)
    ∷ (codes "cutover", p.cutover_command)
    ∷ (codes "rollback", p.rollback_command)
    ∷ []

unfoldable pub hash_matches : (Text → Text) → Dict Text Text → Text × Text → Bool
hash_matches sha256 hashes (name, command) =
    not (list_beq (trim_space command) []) && elim (get hashes name) [
      | none ↦ list_beq [] (policy_hash sha256 command)
      | some x ↦ list_beq x (policy_hash sha256 command)
    ]

unfoldable pub hashes_match : (Text → Text) → ReplacementPlan → Bool
hashes_match sha256 p =
    length p.hashes == length (commands p)
    && not (any (λ c. not (hash_matches sha256 p.hashes c)) (commands p))

-- Validate: the first error.
unfoldable pub validate : (Text → Text) → ReplacementPlan → Text → Text → Option PlanError
validate sha256 p module_id replacement_id =
    if not (
      list_beq (trim_space p.from_module) (trim_space module_id)
      && list_beq (trim_space p.to_module) (trim_space replacement_id))
    then some bad_binding
    else if not (is_package_version (trim_space p.removal_version))
    then some bad_version
    else if p.announced_at == 0 || (p.end_of_support == 0 || leb p.end_of_support p.announced_at)
    then some bad_support
    else if not (same_phases p.phases required_phases)
    then some bad_phases
    else if not (hashes_match sha256 p)
    then some bad_hashes
    else none

pub record Command : Type 0 where
  pub phase : Phase
  pub name : Text
  pub command : Text

unfoldable pub forward_commands : ReplacementPlan → List Command
forward_commands p =
    record { phase = prepare; name = codes "data_migration"; command = p.data_migration }
    ∷ record { phase = prepare; name = codes "config_migration"; command = p.config_migration }
    ∷ record { phase = dual_run; name = codes "permission_mapping"; command = p.permission_mapping }
    ∷ record { phase = dual_run; name = codes "validation"; command = p.validation }
    ∷ record { phase = cutover; name = codes "cutover"; command = p.cutover_command }
    ∷ []

unfoldable pub rollback_of : ReplacementPlan → Command
rollback_of p = record {
  phase = rollback_window;
  name = codes "rollback";
  command = p.rollback_command;
}

-- CanRemove
unfoldable pub can_remove : ReplacementPlan → ℕ → Bool → Bool
can_remove p now emergency = emergency || leb p.end_of_support now
