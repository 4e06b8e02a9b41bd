-- ===== src/Protection/Replace.antt =====
-- ReplaceRules with ValidatePublishedConflicts (rules.go), and the reports State and Metrics, of
-- app/services/runtime/protection/engine.go.
pub mod Runtime
use goravel_mine.Base.{
  ℕ, ◌⊎◌, inl, inr, Bool, false, not, Option, none, some, List, [], ◌∷◌, ◌++◌, map, if◌then◌else◌,
  ◌==◌, length, select, any,
}
use goravel_mine.Base.Eq.{nat_eq, list_eq}
use goravel_mine.Base.Texts.{Text, trim_space, to_upper, has_prefix}
use goravel_mine.Base.Dict
use goravel_mine.Base.Dict.{Dict}
use goravel_mine.Base.Decimal.{numbered}
use goravel_mine.Protection.Rule.{
  RuleType, slow_call_circuit, failure_rate_circuit, RuleSet, scope_name, scope_of,
}
use goravel_mine.Protection.State.{CircuitState, Circuit, no_metric, Engine, circuit_key}
use goravel_mine.Protection.Matching.{sort}

-- The key of ValidatePublishedConflicts.
unfoldable pub target_key : RuleSet → Text
target_key rs = to_upper (trim_space (scope_name rs.scope)) ++ 0 ∷ trim_space rs.resource_pattern

-- The id of the rule set that another one conflicts with.
unfoldable pub conflicts : Dict Text ℕ → List RuleSet → Option ℕ
conflicts seen [] = none
conflicts seen (rs ∷ more) =
    let rest = conflicts (Dict.put seen (target_key rs) rs.rule_set_id) more in
    elim (Dict.get seen (target_key rs)) [
      | none ↦ rest
      | some id ↦ if id == rs.rule_set_id then rest else some id
    ]

-- A scope that is not one of the constants, as a text that is not trimmed or in lower case, is read again.
unfoldable pub normalized : RuleSet → RuleSet
unfolding trim_space
normalized rs = record rs {
  scope = scope_of (scope_name rs.scope);
  resource_pattern = trim_space rs.resource_pattern;
}

unfoldable pub versions : List RuleSet → Dict ℕ ℕ → Dict ℕ ℕ
unfolding Dict.put
versions [] m = m
versions (rs ∷ more) m = versions more (Dict.put m rs.rule_set_id rs.version)

-- resetRuleSetRuntime
unfoldable pub reset_runtime : Engine → ℕ → Engine
reset_runtime e id = record e {
  concurrent = Dict.remove e.concurrent id;
  circuits =
      Dict.remove (Dict.remove e.circuits (circuit_key id failure_rate_circuit))
        (circuit_key id slow_call_circuit);
  rates = Dict.keep (λ k. not (has_prefix k (numbered id []))) e.rates;
}

unfoldable pub label_metric : Engine → RuleSet → Engine
label_metric e rs = record e {
  metrics =
      Dict.put e.metrics rs.rule_set_id (record (Dict.get_or e.metrics rs.rule_set_id no_metric) {
        rule_set_id = rs.rule_set_id;
        version = rs.version;
        scope = rs.scope;
        resource_pattern = rs.resource_pattern;
      });
}

abbrev pub changed : Option ℕ → ℕ → Bool
changed none v = false
changed (some old) v = not (old == v)

-- The loop over the new rule sets.
unfoldable pub install : Dict ℕ ℕ → List RuleSet → Engine → Engine
install previous [] e = e
install previous (rs ∷ more) e = install previous more (
    label_metric
      (if changed (Dict.get previous rs.rule_set_id) rs.version
        then reset_runtime e rs.rule_set_id
        else e)
      rs)

unfoldable pub is_active : List RuleSet → ℕ → Bool
unfolding any
is_active sets id = any (λ rs. rs.rule_set_id == id) sets

-- ReplaceRules: the id of a conflicting rule set, or the new engine.
unfoldable pub replace_rules : Engine → List RuleSet → ℕ ⊎ Engine
replace_rules e sets = elim (conflicts [] sets) [
  | some id ↦ inl id
  | none ↦
      let sorted = sort (map normalized sets) in
      let e' = install (versions e.rule_sets []) sorted (record e { rule_sets = sorted }) in
      inr (record e' { concurrent = Dict.keep (is_active sorted) e'.concurrent })
]

pub record CircuitSnapshot : Type 0 where
  pub rule_type : RuleType
  pub state : CircuitState
  pub sample_count : ℕ
  pub failure_count : ℕ
  pub slow_count : ℕ
  pub in_flight : ℕ
  pub successes : ℕ
  pub opened_at : Option ℕ

unfoldable pub snapshot : RuleType → Circuit → CircuitSnapshot
unfolding select
snapshot t c = record {
  rule_type = t;
  state = c.state;
  sample_count = length c.samples;
  failure_count = length (select (λ s. s.failure) c.samples);
  slow_count = length (select (λ s. s.slow) c.samples);
  in_flight = c.in_flight;
  successes = c.successes;
  opened_at = if c.opened_at == 0 then none else some c.opened_at;
}

pub record RuleSetState : Type 0 where
  pub rule_set_id : ℕ
  pub version : ℕ
  pub circuits : List CircuitSnapshot
  pub concurrent : ℕ

unfoldable pub version_of : List RuleSet → ℕ → ℕ
version_of [] id = 0
version_of (rs ∷ more) id = if rs.rule_set_id == id then rs.version else version_of more id

abbrev pub snapshots : RuleType → Option Circuit → List CircuitSnapshot
unfolding snapshot
snapshots t none = []
snapshots t (some c) = snapshot t c ∷ []

-- Engine.State
unfoldable pub state : Engine → ℕ → RuleSetState
state e id = record {
  rule_set_id = id;
  version = version_of e.rule_sets id;
  circuits =
      snapshots failure_rate_circuit (Dict.get e.circuits (circuit_key id failure_rate_circuit))
      ++ snapshots slow_call_circuit (Dict.get e.circuits (circuit_key id slow_call_circuit));
  concurrent = Dict.get_or e.concurrent id 0;
}
