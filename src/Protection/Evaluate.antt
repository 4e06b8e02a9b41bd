-- ===== src/Protection/Evaluate.antt =====
-- Engine.Evaluate of app/services/runtime/protection/engine.go: the three loops over the rules of
-- the matched rule set, each of which may refuse the call.
pub mod Loops
pub mod Probes
pub mod Slots
pub mod Open
use goravel_mine.Base.{
  ℕ, ◌+◌, Bool, true, false, ◌&&◌, ◌||◌, Option, none, some, List, [], ◌∷◌, ◌++◌, leb,
  if◌then◌else◌, u64, ◌==◌, any,
}
use goravel_mine.Base.Texts.{Text, trim_space}
use goravel_mine.Base.Dict
use goravel_mine.Base.Dict.{Dict}
use goravel_mine.Base.Eq.{nat_eq, list_eq, list_beq}
use goravel_mine.Base.Decimal.{numbered}
use goravel_mine.Protection.Rule.{
  RuleType, rate_limit, slow_call_circuit, failure_rate_circuit, concurrency, same_type, Rule,
  RuleSet, Scope, other_scope, millis,
}
use goravel_mine.Protection.State.{
  CircuitState, half_open, Circuit, RateWindow, Metric, no_metric, Engine, circuit_key, circuit,
  elapsed, is_open, is_half_open, release_half_open,
}
use goravel_mine.Protection.Matching.{Request, match_rule_set}

pub data Rejection : Type 0 where
  circuit_open rate_limited concurrency_limited : Rejection

-- The local variables of a call: the maps that it writes, its copy of the metric, and the keys of
-- the probes that it has taken. `concurrent` is the entry of the matched rule set.
pub record Run : Type 0 where
  pub circuits : Dict Text Circuit
  pub rates : Dict Text RateWindow
  pub concurrent : ℕ
  pub metric : Metric
  pub acquired : List Text

pub data Outcome : Type 0 where
  pass : Run → Outcome
  reject : Rejection → Option CircuitState → Run → Outcome

infixl 5 ◌>>=◌
abbrev pub ◌>>=◌ : Outcome → (Run → Outcome) → Outcome
pass r >>= f = f r
reject x s r >>= f = reject x s r

-- A loop over the rules, which a refusal leaves.
unfoldable pub each : (Rule → Run → Outcome) → List Rule → Run → Outcome
each f [] r = pass r
each f (x ∷ xs) r = f x r >>= each f xs

unfoldable pub is_circuit_type : RuleType → Bool
is_circuit_type slow_call_circuit = true
is_circuit_type failure_rate_circuit = true
is_circuit_type _ = false

-- An open circuit whose time is over lets probes through.
unfoldable pub wake : ℕ → Rule → Circuit → Circuit
wake now rule c =
    if is_open c.state && elapsed now c.opened_at (millis rule.open_duration_ms)
    then record c { state = half_open; in_flight = 0; successes = 0 }
    else c

abbrev pub refuses : Rule → Circuit → Bool
refuses rule c = is_open c.state || (is_half_open c.state && leb rule.half_open_probes c.in_flight)

-- The body of the first loop, at the circuit of the rule.
unfoldable pub admit : Text → Rule → Circuit → Run → Outcome
admit key rule c r =
    if refuses rule c
    then reject circuit_open (some c.state) (record r {
      circuits = release_half_open r.circuits r.acquired;
      metric = record r.metric { circuit_rejected = u64 (r.metric.circuit_rejected + 1) };
    })
    else if is_half_open c.state
    then pass (record r {
      circuits = Dict.put r.circuits key (record c { in_flight = c.in_flight + 1 });
      acquired = r.acquired ++ key ∷ [];
      metric = record r.metric { half_open_probes = u64 (r.metric.half_open_probes + 1) };
    })
    else pass r

unfoldable pub circuit_step : ℕ → ℕ → Rule → Run → Outcome
circuit_step now id rule r =
    if is_circuit_type rule.type
    then (let key = circuit_key id rule.type in
        let c = wake now rule (circuit r.circuits key) in
        admit key rule c (record r { circuits = Dict.put r.circuits key c }))
    else pass r

-- The window that a call at `now` counts in.
unfoldable pub current_window : ℕ → Rule → Option RateWindow → RateWindow
current_window now rule none = record { start = now; count = 0 }
current_window now rule (some w) =
    if w.start == 0 || elapsed now w.start (millis rule.window_ms)
    then record { start = now; count = 0 }
    else w

unfoldable pub rate_key : ℕ → Text → Text → Text
rate_key id resource raw =
    let key = trim_space raw in numbered id (if list_beq key [] then resource else key)

-- The body of the second loop.
unfoldable pub rate_step : ℕ → Text → Rule → Run → Outcome
rate_step now key rule r =
    if same_type rule.type rate_limit
    then (let w = current_window now rule (Dict.get r.rates key) in
        if leb rule.limit w.count
        then reject rate_limited none (record r {
          circuits = release_half_open r.circuits r.acquired;
          metric = record r.metric { rate_limited = u64 (r.metric.rate_limited + 1) };
        })
        else pass (record r { rates = Dict.put r.rates key (record w { count = w.count + 1 }) }))
    else pass r

-- The body of the third loop.
unfoldable pub concurrency_step : Rule → Run → Outcome
concurrency_step rule r =
    if same_type rule.type concurrency
    then (if leb rule.max_concurrency r.concurrent
        then reject concurrency_limited none (record r {
          circuits = release_half_open r.circuits r.acquired;
          metric = record r.metric {
            concurrency_rejected = u64 (r.metric.concurrency_rejected + 1);
          };
        })
        else pass (record r { concurrent = r.concurrent + 1 }))
    else pass r

-- The three loops in turn.
unfoldable pub loops : ℕ → ℕ → Text → List Rule → Run → Outcome
loops now id key rules r =
    each (circuit_step now id) rules r
    >>= each (rate_step now key) rules
    >>= each concurrency_step rules

pub record Decision : Type 0 where
  pub allowed : Bool
  pub matched : Bool
  pub rule_set_id : ℕ
  pub version : ℕ
  pub scope : Scope
  pub resource_pattern : Text
  pub rejection : Option Rejection
  pub state : Option CircuitState
  pub completion_id : ℕ

abbrev pub unmatched : Decision
unmatched = record {
  allowed = true;
  matched = false;
  rule_set_id = 0;
  version = 0;
  scope = other_scope [];
  resource_pattern = [];
  rejection = none;
  state = none;
  completion_id = 0;
}

-- The loop over `acquiredHalfOpen` that reports the state of the last probe's circuit.
unfoldable pub probe_state :
    Dict Text Circuit → List Text → Option CircuitState → Option CircuitState
unfolding Dict.get
probe_state m [] found = found
probe_state m (k ∷ ks) found =
    probe_state m ks (elim (Dict.get m k) [ none ↦ found | some c ↦ some c.state ])

unfoldable pub has_rule_type : List Rule → RuleType → Bool
unfolding any same_type
has_rule_type rules t = any (λ r. same_type r.type t) rules

unfoldable pub start : Engine → RuleSet → Run
unfolding Dict.get_or
start e rs = record {
  circuits = e.circuits;
  rates = e.rates;
  concurrent = Dict.get_or e.concurrent rs.rule_set_id 0;
  metric = Dict.get_or e.metrics rs.rule_set_id no_metric;
  acquired = [];
}

-- The maps of a run written back to the engine.
unfoldable pub write_back : Engine → ℕ → Run → Engine
write_back e id r = record e {
  circuits = r.circuits;
  rates = r.rates;
  concurrent = Dict.put e.concurrent id r.concurrent;
  metrics = Dict.put e.metrics id r.metric;
}

-- What follows the loops.
unfoldable pub finish : Engine → RuleSet → Text → Outcome → Engine × Decision
finish e rs resource (reject x s r) = (
  write_back e rs.rule_set_id r,
  record {
    allowed = false;
    matched = true;
    rule_set_id = rs.rule_set_id;
    version = rs.version;
    scope = rs.scope;
    resource_pattern = rs.resource_pattern;
    rejection = some x;
    state = s;
    completion_id = 0;
  },
)
finish e rs resource (pass r) =
    let id = u64 (e.next_completion + 1) in
    let e' =
      write_back e rs.rule_set_id
        (record r { metric = record r.metric { passed = u64 (r.metric.passed + 1) } }) in
    (
      record e' {
        next_completion = id;
        completions = Dict.put e.completions id (record {
          rule_set_id = rs.rule_set_id;
          version = rs.version;
          resource = trim_space resource;
          rules = rs.rules;
          acquired = r.acquired;
          holds_concurrency = has_rule_type rs.rules concurrency;
        });
      },
      record {
        allowed = true;
        matched = true;
        rule_set_id = rs.rule_set_id;
        version = rs.version;
        scope = rs.scope;
        resource_pattern = rs.resource_pattern;
        rejection = none;
        state = probe_state r.circuits r.acquired none;
        completion_id = id;
      },
    )

-- Engine.Evaluate at a rule set that matched, and in whole.
unfoldable pub evaluate_matched : Engine → ℕ → Text → Request → RuleSet → Engine × Decision
evaluate_matched e now resource req rs = finish e rs resource (
    loops now rs.rule_set_id (rate_key rs.rule_set_id resource req.rate_limit_key) rs.rules
      (start e rs))

unfoldable pub evaluate : Engine → ℕ → Text → Request → Engine × Decision
evaluate e now resource req = elim (match_rule_set e.rule_sets (trim_space resource) req) [
  | none ↦ (e, unmatched)
  | some rs ↦ evaluate_matched e now resource req rs
]
