-- ===== src/Protection/Record.antt =====
-- recordRuleSet, recordDecision and record of app/services/runtime/protection/engine.go: what the
-- end of a call does to the counters and the circuits.
pub mod Once
pub mod Lifecycle
use goravel_mine.Base.{
  ℕ, ◌+◌, ◌-◌, ◌*◌, ◌/◌, Bool, true, false, not, ◌&&◌, ◌||◌, Option, none, some, List, [], ◌∷◌,
  ◌++◌, ltb, leb, if◌then◌else◌, u64, ◌==◌, length, select,
}
use goravel_mine.Base.Texts.{Text, trim_space}
use goravel_mine.Base.Dict
use goravel_mine.Base.Dict.{Dict}
use goravel_mine.Base.Eq.{nat_eq, list_eq, list_beq}
use goravel_mine.Protection.Rule.{
  RuleType, slow_call_circuit, failure_rate_circuit, Rule, RuleSet, millis, is_negative,
}
use goravel_mine.Protection.State.{
  CircuitState, closed, half_open, open_state, Sample, Circuit, Metric, no_metric, Completion,
  Engine, circuit_key, circuit, open_circuit, close_circuit, after_cutoff,
}
use goravel_mine.Protection.Matching.{match_rule_set}
use goravel_mine.Protection.Evaluate.{Decision, is_circuit_type}

-- `duration >= time.Duration(rule.SlowCallDurationMS)*time.Millisecond`
unfoldable pub is_slow : Rule → ℕ → Bool
unfolding millis
is_slow rule duration =
    let bits = millis rule.slow_call_duration_ms in is_negative bits || leb bits duration

abbrev pub counts_for : RuleType → Sample → Bool
counts_for failure_rate_circuit s = s.failure
counts_for slow_call_circuit s = s.slow
counts_for _ s = false

-- The samples of the statistical window, with the new one behind them.
unfoldable pub sampled : ℕ → Rule → ℕ → Bool → List Sample → List Sample
unfolding select after_cutoff millis is_slow
sampled now rule duration failure old =
    select (λ s. after_cutoff now s.at (millis rule.statistical_window_ms)) old
    ++ record { at = now; failure = failure; slow = is_slow rule duration } ∷ []

-- The threshold, with its minimum of requests.
unfoldable pub trips : Rule → List Sample → Bool
unfolding select
trips rule samples =
    leb rule.minimum_requests (length samples)
    && leb (rule.threshold_percent * length samples)
        (length (select (counts_for rule.type) samples) * 100)

-- The body of the loop over the rules, at the circuit of the rule: a case for each state.
unfoldable pub after_probe : ℕ → Rule → Bool → Circuit → Circuit
after_probe now rule failure c =
    let c' = record c { in_flight = c.in_flight - 1 } in
    if failure
    then open_circuit c' now
    else if leb rule.half_open_successes (c.successes + 1)
    then close_circuit c'
    else record c' { successes = c.successes + 1 }

unfoldable pub after_call : ℕ → Rule → ℕ → Bool → Circuit → Circuit
after_call now rule duration failure c =
    let samples = sampled now rule duration failure c.samples in
    if trips rule samples
    then open_circuit (record c { samples = samples }) now
    else record c { samples = samples }

unfoldable pub settle : CircuitState → ℕ → Rule → ℕ → Bool → Circuit → Circuit
settle half_open now rule duration failure c = after_probe now rule failure c
settle open_state now rule duration failure c = c
settle closed now rule duration failure c = after_call now rule duration failure c

unfoldable pub settle_rules : ℕ → ℕ → ℕ → Bool → List Rule → Dict Text Circuit → Dict Text Circuit
settle_rules now id duration failure [] m = m
settle_rules now id duration failure (rule ∷ rules) m = settle_rules now id duration failure rules (
    if is_circuit_type rule.type
    then (let key = circuit_key id rule.type in
        let c = circuit m key in Dict.put m key (settle c.state now rule duration failure c))
    else m)

unfoldable pub version_active : List RuleSet → ℕ → ℕ → Bool
version_active [] id version = false
version_active (rs ∷ more) id version =
    if rs.rule_set_id == id then rs.version == version else version_active more id version

unfoldable pub count_call : Metric → ℕ → Bool → Metric
count_call m duration failure = record m {
  calls = u64 (m.calls + 1);
  duration_sum_us = m.duration_sum_us + duration / 1000;
  failures = if failure then u64 (m.failures + 1) else m.failures;
}

-- `if acquiredConcurrency && e.concurrency[id] > 0 { e.concurrency[id]-- }`
unfoldable pub release_slot : Dict ℕ ℕ → ℕ → Bool → Dict ℕ ℕ
release_slot m id holds =
    let n = Dict.get_or m id 0 in if holds && ltb 0 n then Dict.put m id (n - 1) else m

-- recordRuleSet; the fields of the completion are its arguments.
unfoldable pub record_rule_set : Engine → ℕ → Completion → ℕ → Bool → Engine
record_rule_set e now c duration failure =
    if version_active e.rule_sets c.rule_set_id c.version
    then record e {
      concurrent = release_slot e.concurrent c.rule_set_id c.holds_concurrency;
      metrics =
          Dict.put e.metrics c.rule_set_id
            (count_call (Dict.get_or e.metrics c.rule_set_id no_metric) duration failure);
      circuits = settle_rules now c.rule_set_id duration failure c.rules e.circuits;
    }
    else e

-- RecordDecisionSuccess and RecordDecisionFailure
unfoldable pub record_decision : Engine → ℕ → Decision → ℕ → Bool → Engine
record_decision e now d duration failure =
    if not d.allowed || (not d.matched || d.completion_id == 0)
    then e
    else elim (Dict.get e.completions d.completion_id) [
      | none ↦ e
      | some c ↦
          record_rule_set (record e { completions = Dict.remove e.completions d.completion_id }) now
            c duration failure
    ]

-- The loop of `record` over the completions: the oldest one of the resource.
unfoldable pub oldest : Text → Dict ℕ Completion → Option (ℕ × Completion) → Option (ℕ × Completion)
oldest resource [] found = found
oldest resource ((id, c) ∷ m) found = oldest resource m (
    if list_beq c.resource resource
    then (elim found [
      | none ↦ some (id, c)
      | some (k, b) ↦ if ltb id k then some (id, c) else some (k, b)
    ])
    else found)

-- RecordSuccess and RecordFailure
unfoldable pub record_resource : Engine → ℕ → Text → ℕ → Bool → Engine
record_resource e now raw duration failure =
    let resource = trim_space raw in
    elim (oldest resource e.completions none) [
      | some (id, c) ↦
          record_rule_set (record e { completions = Dict.remove e.completions id }) now c duration
            failure
      | none ↦
          elim (match_rule_set e.rule_sets resource (record {
            service_name = resource;
            endpoint_name = resource;
            custom_resource = resource;
            rate_limit_key = [];
          })) [
            | none ↦ e
            | some rs ↦
                record_rule_set e now
                  (record {
                    rule_set_id = rs.rule_set_id;
                    version = rs.version;
                    resource = resource;
                    rules = rs.rules;
                    acquired = [];
                    holds_concurrency = true;
                  })
                  duration failure
          ]
    ]
