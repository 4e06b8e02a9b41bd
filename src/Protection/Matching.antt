-- ===== src/Protection/Matching.antt =====
-- matchesPattern, matchRuleSet and ruleSetSpecificity of app/services/runtime/protection/engine.go,
-- and the order in which ReplaceRules keeps the rule sets.
pub mod Order
use goravel_mine.Base.{
  ℕ, ◌+◌, ◌*◌, Bool, true, false, not, Option, none, some, List, [], ◌∷◌, ltb, if◌then◌else◌, ◌==◌,
  length,
}
use goravel_mine.Base.Texts.{Text, codes, trim_space, has_prefix, has_suffix}
use goravel_mine.Base.Eq.{nat_eq, list_beq}
use goravel_mine.Protection.Rule.{Scope, global, service, endpoint, custom, other_scope, RuleSet}

pub record Request : Type 0 where
  pub service_name : Text
  pub endpoint_name : Text
  pub custom_resource : Text
  pub rate_limit_key : Text

-- strings.TrimSuffix(pattern, "*") where the pattern ends in it: all but the last byte
unfoldable pub init : Text → Text
init [] = []
init (c ∷ []) = []
init (c ∷ d ∷ s) = c ∷ init (d ∷ s)

unfoldable pub ends_in_star : Text → Bool
ends_in_star p = has_suffix p (codes "*")

unfoldable pub matches_pattern : Text → Text → Bool
matches_pattern pattern value =
    if list_beq pattern (codes "*")
    then true
    else if list_beq value []
    then false
    else if ends_in_star pattern
    then has_prefix value (init pattern)
    else list_beq value pattern

-- The `switch` of the loop in matchRuleSet; another scope leaves the empty string.
unfoldable pub candidate : Scope → Text → Request → Text
candidate custom resource req =
    let c = trim_space req.custom_resource in if list_beq c [] then resource else c
candidate endpoint resource req = trim_space req.endpoint_name
candidate service resource req = trim_space req.service_name
candidate global resource req = codes "*"
candidate (other_scope _) resource req = []

unfoldable pub applies : Text → Request → RuleSet → Bool
applies resource req rs = matches_pattern rs.resource_pattern (candidate rs.scope resource req)

-- The first rule set whose pattern matches.
unfoldable pub match_rule_set : List RuleSet → Text → Request → Option RuleSet
match_rule_set [] resource req = none
match_rule_set (rs ∷ more) resource req =
    if applies resource req rs then some rs else match_rule_set more resource req

unfoldable pub scope_base : Scope → ℕ
scope_base custom = 400
scope_base endpoint = 300
scope_base service = 200
scope_base global = 100
scope_base (other_scope _) = 0

unfoldable pub specificity : RuleSet → ℕ
specificity rs = scope_base rs.scope + (if ends_in_star rs.resource_pattern then 0 else 10)

-- The comparison that sort.Slice is given in ReplaceRules.
unfoldable pub comes_before : RuleSet → RuleSet → Bool
comes_before a b =
    if not (specificity a == specificity b)
    then ltb (specificity b) (specificity a)
    else if not (length a.resource_pattern == length b.resource_pattern)
    then ltb (length b.resource_pattern) (length a.resource_pattern)
    else ltb a.rule_set_id b.rule_set_id

-- sort.Slice with that comparison: insertion gives one of the orders that it may give, and the only
-- one unless two rule sets agree in specificity, pattern length and id.
unfoldable pub insert : RuleSet → List RuleSet → List RuleSet
insert r [] = r ∷ []
insert r (x ∷ xs) = if comes_before x r then x ∷ insert r xs else r ∷ x ∷ xs

unfoldable pub sort : List RuleSet → List RuleSet
sort [] = []
sort (r ∷ rs) = insert r (sort rs)
