-- ===== src/Lifecycle/Versions.antt =====
-- app/modulecatalog/lifecycle_version_policy.go. An error is `none`; the texts of errors are left out, but
-- for which error it is.
pub mod Order
pub mod Meets
pub mod Constraints
use goravel_mine.Base.{
  ℕ, ◌+◌, ◌-◌, ◌*◌, ◌^◌, ◌<◌, Bool, true, false, not, ◌&&◌, ◌||◌, Option, none, some, List, [], ◌∷◌,
  ◌++◌, ltb, leb, if◌then◌else◌, ◌==◌, any,
}
use goravel_mine.Base.Texts.{Text, codes, trim_space, strip_prefix}
use goravel_mine.Base.Eq.{nat_eq, list_eq, list_beq}
use goravel_mine.Base.Dict.{Dict, get, put}

-- strings.Split(s, sep)[0] for a separator of one byte
unfoldable pub cut_at : ℕ → Text → Text
cut_at sep [] = []
cut_at sep (c ∷ s) = let rest = cut_at sep s in if c == sep then [] else c ∷ rest

abbrev pub onto_first : ℕ → List Text → List Text
onto_first c [] = (c ∷ []) ∷ []
onto_first c (w ∷ ws) = (c ∷ w) ∷ ws

-- strings.Split for a separator of one byte
unfoldable pub split_at : ℕ → Text → List Text
split_at sep [] = [] ∷ []
split_at sep (c ∷ s) =
    let rest = split_at sep s in if c == sep then [] ∷ rest else onto_first c rest

unfoldable pub is_digit : ℕ → Bool
is_digit c = leb b'0' c && leb c b'9'

unfoldable pub digits : ℕ → Text → Option ℕ
digits n [] = some n
digits n (c ∷ s) = let rest = digits (n * 10 + (c - b'0')) s in if is_digit c then rest else none

abbrev pub in_int64 : Option ℕ → Option ℕ
in_int64 none = none
in_int64 (some n) = if ltb n (2 ^ 63) then some n else none

-- strconv.Atoi of a text without signs, which a version does not have where it is called
unfoldable pub atoi : Text → Option ℕ
atoi [] = none
atoi (c ∷ s) = in_int64 (digits 0 (c ∷ s))

-- `strings.TrimSpace(raw) == ""` is 0
unfoldable pub parse_part : Text → Option ℕ
parse_part raw = let t = trim_space raw in if list_beq t [] then some 0 else atoi t

unfoldable pub parse_parts : List Text → Option (List ℕ)
parse_parts [] = some []
parse_parts (raw ∷ raws) =
    let rest = parse_parts raws in
    elim (parse_part raw) [
      | none ↦ none
      | some n ↦ elim rest [ none ↦ none | some ns ↦ some (n ∷ ns) ]
    ]

-- strings.TrimPrefix
abbrev pub without_prefix : Text → Text → Text
without_prefix p s = elim (strip_prefix p s) [ none ↦ s | some rest ↦ rest ]

unfoldable pub parse_version : Text → Option (List ℕ)
parse_version version =
    let v = cut_at b'+' (without_prefix (codes "v") (trim_space version)) in
    if any (λ c. c == b'-') v
    then none
    else if list_beq v []
    then none
    else parse_parts (split_at b'.' v)

-- The loop that appends zeros up to the length of the other version.
unfoldable pub padded : List ℕ → List ℕ → List ℕ
padded [] [] = []
padded [] (m ∷ ms) = 0 ∷ padded [] ms
padded (n ∷ ns) [] = n ∷ ns
padded (n ∷ ns) (m ∷ ms) = n ∷ padded ns ms

-- The results -1, 0 and 1.
pub data Sign : Type 0 where
  below same above : Sign

-- The loop of compareVersions over the indices of two lists of one length.
unfoldable pub compare_equalized : List ℕ → List ℕ → Sign
compare_equalized [] ms = same
compare_equalized (n ∷ ns) [] = same
compare_equalized (n ∷ ns) (m ∷ ms) =
    let rest = compare_equalized ns ms in if ltb m n then above else if ltb n m then below else rest

unfoldable pub compare_parts : List ℕ → List ℕ → Sign
compare_parts left right = compare_equalized (padded left right) (padded right left)

unfoldable pub compare_versions : Text → Text → Option Sign
compare_versions left right = elim (parse_version left) [
  | none ↦ none
  | some l ↦ elim (parse_version right) [ none ↦ none | some r ↦ some (compare_parts l r) ]
]

pub data Operator : Type 0 where
  at_least at_most more_than less_than equal_to : Operator

unfoldable pub split_operator : Text → Operator × Text
split_operator s = elim (strip_prefix (codes ">=") s) [
  | some t ↦ (at_least, trim_space t)
  | none ↦ elim (strip_prefix (codes "<=") s) [
    | some t ↦ (at_most, trim_space t)
    | none ↦ elim (strip_prefix (codes ">") s) [
      | some t ↦ (more_than, trim_space t)
      | none ↦ elim (strip_prefix (codes "<") s) [
        | some t ↦ (less_than, trim_space t)
        | none ↦ elim (strip_prefix (codes "=") s) [
          | some t ↦ (equal_to, trim_space t)
          | none ↦ (equal_to, trim_space s)
        ]
      ]
    ]
  ]
]

unfoldable pub compare_result : Sign → Operator → Bool
compare_result below at_least = false
compare_result below at_most = true
compare_result below more_than = false
compare_result below less_than = true
compare_result below equal_to = false
compare_result same at_least = true
compare_result same at_most = true
compare_result same more_than = false
compare_result same less_than = false
compare_result same equal_to = true
compare_result above at_least = true
compare_result above at_most = false
compare_result above more_than = true
compare_result above less_than = false
compare_result above equal_to = false

unfoldable pub satisfies_single : Text → Text → Option Bool
satisfies_single version constraint =
    let (op, target) = split_operator constraint in
    if list_beq target [] then none else elim (compare_versions version target) [
      | none ↦ none
      | some c ↦ some (compare_result c op)
    ]

abbrev pub is_separator : ℕ → Bool
is_separator c = c == b',' || (c == 32 || (c == 9 || (c == 10 || c == 13)))

abbrev pub onto_word : ℕ → Bool × List Text → Bool × List Text
onto_word c (true, w ∷ ws) = (true, (c ∷ w) ∷ ws)
onto_word c (true, []) = (true, (c ∷ []) ∷ [])
onto_word c (false, ws) = (true, (c ∷ []) ∷ ws)

-- strings.FieldsFunc: the words, and whether the text begins with one.
unfoldable pub fields : Text → Bool × List Text
fields [] = (false, [])
fields (c ∷ s) = let rest = fields s in if is_separator c then (false, rest.1) else onto_word c rest

unfoldable pub split_constraints : Text → List Text
split_constraints constraint = (fields (trim_space constraint)).1

unfoldable pub satisfies_all : Text → List Text → Option Bool
satisfies_all version [] = some true
satisfies_all version (part ∷ parts) =
    let rest = satisfies_all version parts in
    elim (satisfies_single version part) [ none ↦ none | some ok ↦ if ok then rest else some false ]

unfoldable pub version_satisfies : Text → Text → Option Bool
version_satisfies version constraint = elim (split_constraints constraint) [
  | [] ↦ if list_beq (trim_space constraint) [] then some true else none
  | part ∷ parts ↦ satisfies_all version (part ∷ parts)
]

-- modules.Dependency, and the fields of modules.ModuleState that the policy reads.
pub record Dependency : Type 0 where
  pub id : Text
  pub version_constraint : Text
  pub required : Bool

pub record ModuleState : Type 0 where
  pub id : Text
  pub version : Text
  pub dependencies : List Dependency

pub data VersionError : Type 0 where
  missing invalid unmet : Text → Text → VersionError

unfoldable pub constraint_errors : Text → Dependency → Text → List VersionError
constraint_errors module_id d version =
    if list_beq (trim_space d.version_constraint) []
    then []
    else elim (version_satisfies version d.version_constraint) [
      | none ↦ invalid module_id d.id ∷ []
      | some ok ↦ if ok then [] else unmet module_id d.id ∷ []
    ]

-- The body of the loop over the dependencies.
unfoldable pub one_dependency_errors : Text → Dict Text Text → Dependency → List VersionError
one_dependency_errors module_id versions d =
    if not d.required then [] else elim (get versions d.id) [
      | none ↦ missing module_id d.id ∷ []
      | some version ↦ constraint_errors module_id d version
    ]

unfoldable pub dependency_errors : Text → List Dependency → Dict Text Text → List VersionError
dependency_errors module_id [] versions = []
dependency_errors module_id (d ∷ ds) versions =
    one_dependency_errors module_id versions d ++ dependency_errors module_id ds versions

unfoldable pub versions_of : List ModuleState → Dict Text Text → Dict Text Text
versions_of [] versions = versions
versions_of (s ∷ states) versions = versions_of states (put versions s.id s.version)

unfoldable pub states_errors : List ModuleState → Dict Text Text → List VersionError
states_errors [] versions = []
states_errors (s ∷ states) versions =
    dependency_errors s.id s.dependencies versions ++ states_errors states versions

-- validateLifecycleVersionConstraints; no error is the empty list.
unfoldable pub validate_version_constraints : List ModuleState → List VersionError
validate_version_constraints states = states_errors states (versions_of states [])
