-- ===== src/Protection/Rule/Bounds.antt =====
-- What validation guarantees of each rule, and where the check of a duration overflows.
use goravel_mine.Base.{
  ℕ, ◌≤◌, ◌<◌, ◌≡◌, refl, ◌↔◌, inl, inr, Bool, true, false, not, List, [], ◌∷◌, ◌++◌, arith, ltb,
  ◌==◌, Bool-cases, length, any, All,
}
use goravel_mine.Base.Texts.{Text, trim_space}
use goravel_mine.Base.Eq.{nat_eq}
use goravel_mine.Protection.Rule.{
  Rule, RuleType, rate_limit, slow_call_circuit, failure_rate_circuit, concurrency, other_type,
  same_type, millis, at_most, day, valid_duration_ms, validate_circuit_rule, validate_fields,
  validate_rules, validate_rule_set, validate_target, Problem, no_rules, too_many_rules, scope_of,
  fail_if,
}

append-nil_inv {ℓ} : {A : Type ℓ} (xs ys : List A) → xs ++ ys ≡ [] → (xs ≡ []) × (ys ≡ [])
append-nil_inv [] ys h = (refl, h)
append-nil_inv (x ∷ xs) ys h = cc

fail_if-nil : (b : Bool) (p : Problem) → fail_if b p ≡ [] → b ≡ false
fail_if-nil b p h = ground arith

-- In the range where the product fits an int64, the check is the comparison that it is meant to be.
pub valid_duration_exact :
    (value minimum : ℕ)
    → value ≤ 9223372036854
    → (valid_duration_ms value minimum day ≡ true) ↔ ((minimum ≤ value) × (value ≤ 86400000))
unfolding valid_duration_ms millis at_most
valid_duration_exact value minimum h = ground arith

-- From 9223372036855 milliseconds on, the product wraps to a negative duration, and the check of the
-- upper bound passes: every value up to 18446744073709 is accepted, though the bound is 24 hours.
pub valid_duration_overflow :
    (value minimum : ℕ)
    → minimum ≤ value
    → 9223372036855 ≤ value
    → value ≤ 18446744073709
    → (valid_duration_ms value minimum day ≡ true) × (86400000 < value)
unfolding valid_duration_ms millis at_most
valid_duration_overflow value minimum h l u = ground arith

abbrev InRange : ℕ → ℕ → ℕ → Type 0
InRange lo hi x = (lo ≤ x) × (x ≤ hi)

-- The bounds on the fields that a rule's type uses; a duration is bounded where it does not overflow.
abbrev Duration : ℕ → ℕ → Type 0
Duration minimum ms = (minimum ≤ ms) × (ms ≤ 9223372036854 → ms ≤ 86400000)

abbrev CircuitBounds : Rule → Type 0
CircuitBounds r =
    InRange 1 100 r.threshold_percent
    × InRange 1 1000000 r.minimum_requests
    × Duration 1000 r.statistical_window_ms
    × Duration 100 r.open_duration_ms
    × InRange 1 1000 r.half_open_probes
    × InRange 1 r.half_open_probes r.half_open_successes

abbrev pub Bounds : RuleType → Rule → Type 0
Bounds rate_limit r = InRange 1 1000000000 r.limit × Duration 100 r.window_ms
Bounds slow_call_circuit r = CircuitBounds r × Duration 1 r.slow_call_duration_ms
Bounds failure_rate_circuit r = CircuitBounds r
Bounds concurrency r = InRange 1 1000000 r.max_concurrency
Bounds (other_type t) r = ⊥

Duration-valid :
    (ms minimum : ℕ) → not (valid_duration_ms ms minimum day) ≡ false → Duration minimum ms
unfolding valid_duration_ms millis at_most
Duration-valid ms minimum h = ground arith

validate_circuit_rule-Bounds :
    (r : Rule) (slow : Bool)
    → validate_circuit_rule r slow ≡ []
    → CircuitBounds r × (slow ≡ true → Duration 1 r.slow_call_duration_ms)
unfolding validate_circuit_rule
validate_circuit_rule-Bounds r slow h = ground (
  arith,
  Duration-valid r.statistical_window_ms 1000,
  Duration-valid r.open_duration_ms 100,
  Duration-valid r.slow_call_duration_ms 1,
)

validate_fields-Bounds : (t : RuleType) (r : Rule) → validate_fields t r ≡ [] → Bounds t r
unfolding validate_fields
validate_fields-Bounds rate_limit r h = ground (arith, Duration-valid r.window_ms 100)
validate_fields-Bounds slow_call_circuit r h =
    let (b, slow) = validate_circuit_rule-Bounds r true h in (b, slow refl)
validate_fields-Bounds failure_rate_circuit r h = (validate_circuit_rule-Bounds r false h).0
validate_fields-Bounds concurrency r h = ground arith
validate_fields-Bounds (other_type t) r h = cc

-- No type of the list is met twice, nor is one of `seen`.
abbrev pub IsDistinct : List RuleType → List Rule → Type 0
IsDistinct seen [] = Unit
IsDistinct seen (r ∷ rs) = (any (same_type r.type) seen ≡ false) × IsDistinct (r.type ∷ seen) rs

validate_rules-Bounds :
    (seen : List RuleType) (rules : List Rule)
    → validate_rules seen rules ≡ []
    → All (λ r. Bounds r.type r) rules × IsDistinct seen rules
unfolding validate_rules
validate_rules-Bounds seen [] h = (tt, tt)
validate_rules-Bounds seen (r ∷ rs) h = elim (Bool-cases (any (same_type r.type) seen)) [
  | inl again ↦ ground (arith, again, h)
  | inr first ↦
      let h' : validate_fields r.type r ++ validate_rules (r.type ∷ seen) rs ≡ [] =
        ground (arith, first, h) in
      let (fields, rest) = append-nil_inv _ _ h' in
      let (bounds, distinct) = validate_rules-Bounds (r.type ∷ seen) rs rest in
      ((validate_fields-Bounds r.type r fields, bounds), (first, distinct))
]

-- A rule set that validation accepts has between 1 and 16 rules, each of a known type and with its
-- fields within the bounds of that type (a duration up to 24 hours unless its product with 10 ^ 6
-- passes the int64 range), and no type twice.
pub validate_rule_set-Bounds :
    (scope pattern : Text) (rules : List Rule)
    → validate_rule_set scope pattern rules ≡ []
    → (1 ≤ length rules)
      × (length rules ≤ 16)
      × All (λ r. Bounds r.type r) rules
      × IsDistinct [] rules
unfolding validate_rule_set
validate_rule_set-Bounds scope pattern rules h =
    let (_, h₁) = append-nil_inv (validate_target (scope_of scope) (trim_space pattern)) _ h in
    let (some_rules, h₂) = append-nil_inv (fail_if (length rules == 0) no_rules) _ h₁ in
    let (few, h₃) = append-nil_inv (fail_if (ltb 16 (length rules)) too_many_rules) _ h₂ in
    let (bounds, distinct) = validate_rules-Bounds [] rules h₃ in
    let t : (length rules == 0) ≡ false = fail_if-nil _ no_rules some_rules in
    let u : ltb 16 (length rules) ≡ false = fail_if-nil _ too_many_rules few in
    (ground arith, ground arith, bounds, distinct)
