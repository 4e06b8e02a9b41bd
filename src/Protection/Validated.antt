-- ===== src/Protection/Validated.antt =====
-- Rule sets that validation accepts meet what the laws of the engine ask of a rule set.
use goravel_mine.Base.{◌≤◌, ◌≡◌, refl, ap, inl, inr, true, List, [], ◌∷◌, arith, Bool-cases, any}
use goravel_mine.Base.Texts.{Text}
use goravel_mine.Protection.Rule.{
  Rule, RuleType, rate_limit, slow_call_circuit, failure_rate_circuit, concurrency, other_type,
  same_type, validate_rule_set,
}
use goravel_mine.Protection.Rule.Bounds.{IsDistinct, validate_rule_set-Bounds}
use goravel_mine.Protection.Evaluate.Slots.{slots, limits_concurrency}

same_concurrency : (t : RuleType) → same_type t concurrency ≡ true → t ≡ concurrency
unfolding same_type
same_concurrency concurrency h = refl
same_concurrency rate_limit h = cc
same_concurrency slow_call_circuit h = cc
same_concurrency failure_rate_circuit h = cc
same_concurrency (other_type t) h = cc

slots-seen :
    (seen : List RuleType) (rules : List Rule)
    → IsDistinct seen rules
    → any (same_type concurrency) seen ≡ true
    → slots rules ≡ 0
unfolding slots any
slots-seen seen [] h e = refl
slots-seen seen (r ∷ rs) h e = elim (Bool-cases (limits_concurrency r)) [
  | inl t ↦ cc (ap (λ u. any (same_type u) seen) (same_concurrency r.type t), h.0)
  | inr f ↦ rw f (slots-seen (r.type ∷ seen) rs h.1 (ground arith))
]

slots-le_one : (seen : List RuleType) (rules : List Rule) → IsDistinct seen rules → slots rules ≤ 1
unfolding slots any
slots-le_one seen [] h = omega arith
slots-le_one seen (r ∷ rs) h = elim (Bool-cases (limits_concurrency r)) [
  | inl t ↦
      let e = same_concurrency r.type t in
      let found : any (same_type concurrency) (r.type ∷ seen) ≡ true =
        rw e (unfold same_type in refl) in
      rw t (omega (arith, slots-seen (r.type ∷ seen) rs h.1 found))
  | inr f ↦ rw f (slots-le_one (r.type ∷ seen) rs h.1)
]

-- A rule set that validation accepts limits concurrency by one rule at most, so each call that it
-- lets through takes at most one slot.
pub validated-slots :
    (scope pattern : Text) (rules : List Rule)
    → validate_rule_set scope pattern rules ≡ []
    → slots rules ≤ 1
validated-slots scope pattern rules h =
    slots-le_one [] rules (validate_rule_set-Bounds scope pattern rules h).3
