-- ===== src/Sso/Value.antt =====
-- The values of claims and literals and their comparisons, app/services/access/sso/condition.go.
-- Floating-point numbers, regular expressions, fmt.Sprint and encoding/json come with `Host`.
use goravel_mine.Base.{
  ℕ, Bool, true, false, not, ◌&&◌, ◌||◌, Option, none, some, List, [], ◌∷◌, ◌++◌, map, leb,
  if◌then◌else◌, ◌==◌, length, any,
}
use goravel_mine.Base.Texts.{Text, codes, trim_space, has_prefix, has_suffix, contains}
use goravel_mine.Base.Eq.{nat_eq, list_eq, list_beq}

-- A Go `any`: nil, a bool, a float64 by its bits, a string, a list ([]any or []string), or a value of
-- another kind by the text that fmt.Sprint gives it.
mutual
  pub data Value : Type 0 where
    null : Value
    bool : Bool → Value
    num : ℕ → Value
    text : Text → Value
    list : Values → Value
    other : Text → Value

  pub data Values : Type 0 where
    nil : Values
    cons : Value → Values → Values

-- What the comparisons take from Go's library; a failed parse and an invalid pattern are `none` and
-- `false`.
pub record Host : Type 0 where
  pub sprint : Value → Text
  pub parse_float : Text → Option ℕ
  pub float_lt : ℕ → ℕ → Bool
  pub float_le : ℕ → ℕ → Bool
  pub match_string : Text → Text → Bool
  pub json_array : Text → Option Values

-- The loop of uniqueStrings behind the strings seen so far.
unfoldable pub unique_from : List Text → List Text → List Text
unique_from seen [] = []
unique_from seen (v ∷ vs) =
    let value = trim_space v in
    let skipped = unique_from seen vs in
    let kept = value ∷ unique_from (value ∷ seen) vs in
    if list_beq value [] || any (list_beq value) seen then skipped else kept

unfoldable pub unique_strings : List Text → List Text
unique_strings = unique_from []

-- `typed = strings.TrimSpace(typed); typed != ""`
unfoldable pub nonempty_trimmed : Text → List Text
nonempty_trimmed s = let t = trim_space s in if list_beq t [] then [] else t ∷ []

-- `'` to `"`
abbrev pub double_quoted : Text → Text
double_quoted = map (λ c. if c == b'\'' then b'"' else c)

-- value[1 : len(value)-1]
unfoldable pub without_last : Text → Text
without_last [] = []
without_last (d ∷ []) = []
without_last (d ∷ e ∷ s) = d ∷ without_last (e ∷ s)

abbrev pub inner : Text → Text
inner [] = []
inner (c ∷ s) = without_last s

unfoldable pub quoted_by : ℕ → Text → Bool
quoted_by q s = leb 2 (length s) && (has_prefix s (q ∷ []) && has_suffix s (q ∷ []))

module _ (h : Host) where
  unfoldable mutual
    pub strings_from_any : Value → List Text
    strings_from_any null = []
    strings_from_any (bool b) = nonempty_trimmed (h.sprint (bool b))
    strings_from_any (num n) = nonempty_trimmed (h.sprint (num n))
    strings_from_any (text s) = nonempty_trimmed s
    strings_from_any (list vs) = unique_strings (strings_from_all vs)
    strings_from_any (other s) = nonempty_trimmed (h.sprint (other s))

    pub strings_from_all : Values → List Text
    strings_from_all nil = []
    strings_from_all (cons v vs) = strings_from_any v ++ strings_from_all vs

  unfoldable pub any_string_equals : Value → Text → Bool
  any_string_equals v expected = any (λ item. list_beq item expected) (strings_from_any v)

  unfoldable pub any_string_contains : Value → Text → Bool
  any_string_contains v expected = any (λ item. contains item expected) (strings_from_any v)

  unfoldable pub right_contains : Value → Value → Bool
  right_contains right left =
      any (λ r. any (λ l. list_beq r l) (strings_from_any left)) (strings_from_any right)

  unfoldable pub first_string : Value → Text
  first_string v = elim (strings_from_any v) [ [] ↦ [] | s ∷ _ ↦ s ]

  -- The switch on reflect kinds; an integer has a nonempty text and does not get here.
  abbrev pub reflected : Value → Option ℕ
  reflected (num n) = some n
  reflected _ = none

  unfoldable pub float_from_any : Value → Option ℕ
  float_from_any v = elim (strings_from_any v) [ [] ↦ reflected v | s ∷ _ ↦ h.parse_float s ]

  unfoldable pub compare_floats : Text → ℕ → ℕ → Bool
  compare_floats op x y =
      if list_beq op (codes ">")
      then h.float_lt y x
      else if list_beq op (codes ">=")
      then h.float_le y x
      else if list_beq op (codes "<")
      then h.float_lt x y
      else if list_beq op (codes "<=")
      then h.float_le x y
      else false

  unfoldable pub compare_numbers : Value → Value → Text → Bool
  compare_numbers left right op = elim (float_from_any left) [
    | none ↦ false
    | some x ↦ elim (float_from_any right) [ none ↦ false | some y ↦ compare_floats op x y ]
  ]

  unfoldable pub bracketed : Text → Option Values
  bracketed s =
      if has_prefix s (codes "[") && has_suffix s (codes "]")
      then h.json_array (double_quoted s)
      else none

  unfoldable pub literal : Text → Value
  literal value =
      if list_beq value (codes "true")
      then bool true
      else if list_beq value (codes "false")
      then bool false
      else if list_beq value (codes "null")
      then null
      else elim (bracketed value) [
        | some vs ↦ list vs
        | none ↦ elim (h.parse_float value) [ some n ↦ num n | none ↦ text value ]
      ]

  unfoldable pub parse_condition_value : Text → Value
  parse_condition_value token =
      let value = trim_space token in
      if quoted_by b'\'' value || quoted_by b'"' value then text (inner value) else literal value

  abbrev pub ordering_operators : List Text
  ordering_operators = codes ">" ∷ codes ">=" ∷ codes "<" ∷ codes "<=" ∷ []

  unfoldable pub eval_comparison : Value → Text → Value → Bool
  eval_comparison left op right =
      if list_beq op (codes "==")
      then any_string_equals left (h.sprint right)
      else if list_beq op (codes "!=")
      then not (any_string_equals left (h.sprint right))
      else if list_beq op (codes "contains")
      then any_string_contains left (h.sprint right)
      else if list_beq op (codes "in")
      then right_contains right left
      else if list_beq op (codes "not_in")
      then not (right_contains right left)
      else if list_beq op (codes "starts_with")
      then has_prefix (first_string left) (h.sprint right)
      else if list_beq op (codes "ends_with")
      then has_suffix (first_string left) (h.sprint right)
      else if list_beq op (codes "matches")
      then h.match_string (h.sprint right) (first_string left)
      else if list_beq op (codes "not_matches")
      then not (h.match_string (h.sprint right) (first_string left))
      else if any (list_beq op) ordering_operators
      then compare_numbers left right op
      else false
