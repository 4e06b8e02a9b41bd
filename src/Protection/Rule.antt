-- ===== src/Protection/Rule.antt =====
-- app/services/runtime/protection/rules.go: the data of rules, and their validation. The `int`
-- fields of a rule are numbers from 0 on; a negative one fails the same lower bounds as 0 does.
-- What the JSON decoder makes of a request body is not modelled: validation starts from its result.
pub mod Bounds
use goravel_mine.Base.{
  ℕ, ◌*◌, ◌%◌, ◌^◌, Bool, true, false, not, ◌&&◌, ◌||◌, List, [], ◌∷◌, ◌++◌, ltb, leb,
  if◌then◌else◌, ◌==◌, length, any,
}
use goravel_mine.Base.Texts.{Text, codes, trim_space, to_upper}
use goravel_mine.Base.Eq.{nat_eq, list_beq}

pub data Scope : Type 0 where
  global service endpoint custom : Scope
  other_scope : Text → Scope

-- normalizeScope, and the constants that a scope is compared with
unfoldable pub scope_of : Text → Scope
unfolding trim_space to_upper list_beq
scope_of raw =
    let s = to_upper (trim_space raw) in
    if list_beq s (codes "GLOBAL")
    then global
    else if list_beq s (codes "SERVICE")
    then service
    else if list_beq s (codes "ENDPOINT")
    then endpoint
    else if list_beq s (codes "CUSTOM")
    then custom
    else other_scope s

-- The text of a normalised scope.
unfoldable pub scope_name : Scope → Text
scope_name global = codes "GLOBAL"
scope_name service = codes "SERVICE"
scope_name endpoint = codes "ENDPOINT"
scope_name custom = codes "CUSTOM"
scope_name (other_scope s) = s

pub data RuleType : Type 0 where
  rate_limit slow_call_circuit failure_rate_circuit concurrency : RuleType
  other_type : Text → RuleType

-- The text of a rule's type.
unfoldable pub type_name : RuleType → Text
type_name rate_limit = codes "RATE_LIMIT"
type_name slow_call_circuit = codes "SLOW_CALL_CIRCUIT"
type_name failure_rate_circuit = codes "FAILURE_RATE_CIRCUIT"
type_name concurrency = codes "CONCURRENCY"
type_name (other_type t) = t

-- `rule.Type == ruleType`, by the texts
unfoldable pub same_type : RuleType → RuleType → Bool
same_type rate_limit rate_limit = true
same_type slow_call_circuit slow_call_circuit = true
same_type failure_rate_circuit failure_rate_circuit = true
same_type concurrency concurrency = true
same_type (other_type s) (other_type t) = list_beq s t
same_type _ _ = false

pub record Rule : Type 0 where
  pub type : RuleType
  pub limit : ℕ
  pub window_ms : ℕ
  pub slow_call_duration_ms : ℕ
  pub threshold_percent : ℕ
  pub minimum_requests : ℕ
  pub statistical_window_ms : ℕ
  pub open_duration_ms : ℕ
  pub half_open_probes : ℕ
  pub half_open_successes : ℕ
  pub max_concurrency : ℕ

pub record RuleSet : Type 0 where
  pub rule_set_id : ℕ
  pub version : ℕ
  pub name : Text
  pub scope : Scope
  pub resource_pattern : Text
  pub rules : List Rule

-- `time.Duration(ms) * time.Millisecond`: nanoseconds as the bits of an int64, which wraps. From
-- 2 ^ 63 on they stand for the negative number `bits - 2 ^ 64`.
unfoldable pub millis : ℕ → ℕ
millis ms = ms * 1000000 % 2 ^ 64

abbrev pub is_negative : ℕ → Bool
is_negative bits = leb (2 ^ 63) bits

-- `duration <= maximum`, for a maximum that is not negative
unfoldable pub at_most : ℕ → ℕ → Bool
at_most bits maximum = is_negative bits || leb bits maximum

-- 24 * time.Hour
abbrev pub day : ℕ
day = 86400000000000

unfoldable pub valid_duration_ms : ℕ → ℕ → ℕ → Bool
unfolding millis at_most
valid_duration_ms value minimum maximum = leb minimum value && at_most (millis value) maximum

pub data Problem : Type 0 where
  global_pattern bad_pattern bad_scope no_rules too_many_rules : Problem
  duplicate_type unsupported_type : RuleType → Problem
  limit_range window_range concurrency_range : Problem
  threshold_range minimum_range statistical_range open_range probes_range : Problem
  successes_range slow_call_range : Problem

-- `if bad { fail(problem) }`
abbrev pub fail_if : Bool → Problem → List Problem
fail_if true p = p ∷ []
fail_if false p = []

abbrev pub outside : ℕ → ℕ → ℕ → Bool
outside lo hi x = ltb x lo || ltb hi x

unfoldable pub validate_circuit_rule : Rule → Bool → List Problem
unfolding valid_duration_ms
validate_circuit_rule r slow_call =
    fail_if (outside 1 100 r.threshold_percent) threshold_range
    ++ (fail_if (outside 1 1000000 r.minimum_requests) minimum_range
        ++ (fail_if (not (valid_duration_ms r.statistical_window_ms 1000 day)) statistical_range
            ++ (fail_if (not (valid_duration_ms r.open_duration_ms 100 day)) open_range
                ++ (fail_if (outside 1 1000 r.half_open_probes) probes_range
                    ++ (fail_if (outside 1 r.half_open_probes r.half_open_successes) successes_range
                        ++ fail_if
                            (slow_call && not (valid_duration_ms r.slow_call_duration_ms 1 day))
                            slow_call_range)))))

-- The cases of the `switch` on the type.
unfoldable pub validate_fields : RuleType → Rule → List Problem
unfolding validate_circuit_rule
validate_fields rate_limit r =
    fail_if (outside 1 1000000000 r.limit) limit_range
    ++ fail_if (not (valid_duration_ms r.window_ms 100 day)) window_range
validate_fields slow_call_circuit r = validate_circuit_rule r true
validate_fields failure_rate_circuit r = validate_circuit_rule r false
validate_fields concurrency r = fail_if (outside 1 1000000 r.max_concurrency) concurrency_range
validate_fields (other_type t) r = unsupported_type (other_type t) ∷ []

-- The loop over the rules; `seen` holds the types met.
unfoldable pub validate_rules : List RuleType → List Rule → List Problem
unfolding validate_fields same_type any
validate_rules seen [] = []
validate_rules seen (r ∷ rs) =
    let again = duplicate_type r.type ∷ validate_rules seen rs in
    let first = validate_fields r.type r ++ validate_rules (r.type ∷ seen) rs in
    if any (same_type r.type) seen then again else first

-- ^[A-Za-z0-9_./:{}-]+(?:\*)?$
unfoldable pub is_resource_byte : ℕ → Bool
is_resource_byte c =
    (leb b'A' c && leb c b'Z')
    || ((leb b'a' c && leb c b'z')
        || ((leb b'.' c && leb c b':') || (c == b'_' || (c == b'{' || (c == b'}' || c == b'-')))))

unfoldable pub matches_resource : Text → Bool
unfolding is_resource_byte
matches_resource [] = false
matches_resource (c ∷ []) = is_resource_byte c
matches_resource (c ∷ d ∷ s) =
    is_resource_byte c && (matches_resource (d ∷ s) || list_beq (d ∷ s) (codes "*"))

abbrev star : Text
star = codes "*"

-- `pattern == "" || pattern == "*" || len(pattern) > 200 || !resourcePattern.MatchString(pattern)`
unfoldable pub is_bad_pattern : Text → Bool
unfolding matches_resource list_beq
is_bad_pattern p =
    list_beq p [] || (list_beq p star || (ltb 200 (length p) || not (matches_resource p)))

unfoldable pub validate_target : Scope → Text → List Problem
unfolding is_bad_pattern
validate_target global p = fail_if (not (list_beq p star)) global_pattern
validate_target (other_scope _) p = bad_scope ∷ []
validate_target _ p = fail_if (is_bad_pattern p) bad_pattern

-- ValidateRuleSet, from the decoded rules on. A rule set is valid if the list is empty.
unfoldable pub validate_rule_set : Text → Text → List Rule → List Problem
unfolding scope_of validate_target validate_rules
validate_rule_set scope pattern rules =
    validate_target (scope_of scope) (trim_space pattern)
    ++ (fail_if (length rules == 0) no_rules
        ++ (fail_if (ltb 16 (length rules)) too_many_rules ++ validate_rules [] rules))
