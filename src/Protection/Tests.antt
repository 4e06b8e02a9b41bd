-- ===== src/Protection/Tests.antt =====
-- The engine at concrete inputs, and each law at an input that meets its hypotheses.
use goravel_mine.Base.{
  ℕ, ◌+◌, ◌≤◌, ◌<◌, ◌≡◌, refl, ◌≢◌, ◌⊎◌, inl, inr, true, false, some, List, [], ◌∷◌, map, arith,
  length, select, any, All,
}
use goravel_mine.Base.Texts.{
  Text, codes, trim_space, to_upper, strip_prefix, has_prefix, has_suffix,
}
use mathlib.Core.List.{Perm}
use goravel_mine.Base.Dict
use goravel_mine.Base.Eq.{list_eq, nat_eq, list_beq}
use goravel_mine.Base.Decimal.{numbered}
use goravel_mine.Protection.Rule.{
  Rule, RuleSet, RuleType, global, endpoint, rate_limit, failure_rate_circuit, concurrency,
  same_type, type_name, millis, valid_duration_ms, day, validate_rule_set, scope_name, scope_of,
  other_scope,
}
use goravel_mine.Protection.Rule.Bounds.{
  Bounds, IsDistinct, valid_duration_overflow, validate_rule_set-Bounds,
}
use goravel_mine.Protection.State.{
  Engine, Circuit, half_open, open_state, new_circuit, new_engine, circuit, circuit_key, release,
  release_half_open, elapsed, is_open, after_cutoff, open_circuit, close_circuit,
}
use goravel_mine.Protection.State.Counts.{in_flight_at}
use goravel_mine.Protection.Matching.{
  Request, match_rule_set, applies, matches_pattern, candidate, sort, insert, comes_before,
  specificity, ends_in_star, scope_base, init,
}
use goravel_mine.Protection.Matching.Order.{IsBest}
use goravel_mine.Protection.Evaluate.{
  Decision, evaluate, evaluate_matched, loops, each, circuit_step, rate_step, concurrency_step,
  admit, wake, is_circuit_type, current_window, rate_key, start, finish, write_back, has_rule_type,
  probe_state,
}
use goravel_mine.Protection.Evaluate.Probes.{evaluate-restores}
use goravel_mine.Protection.Evaluate.Slots.{slots, under_way, HasRoom, evaluate-slots}
use goravel_mine.Protection.Evaluate.Open.{RefusedOpen, evaluate-RefusedOpen}
use goravel_mine.Protection.Record.{
  record_decision, version_active, record_rule_set, settle_rules, settle, after_call, after_probe,
  sampled, trips, is_slow, release_slot, count_call,
}
use goravel_mine.Protection.Record.Once.{record_decision-evaluate}
use goravel_mine.Protection.Record.Lifecycle.{successes, probes_close}
use goravel_mine.Protection.Replace.{
  replace_rules, normalized, install, label_metric, reset_runtime, versions, is_active, conflicts,
  target_key,
}
use goravel_mine.Protection.Replace.Runtime.{replace_rules-IsBest, reset_runtime-exact}
use goravel_mine.Protection.Bound.{step, evaluate_op, replace_op, run, in_flight_bounded}

abbrev no_rule : Rule
no_rule = record {
  type = rate_limit;
  limit = 0;
  window_ms = 0;
  slow_call_duration_ms = 0;
  threshold_percent = 0;
  minimum_requests = 0;
  statistical_window_ms = 0;
  open_duration_ms = 0;
  half_open_probes = 0;
  half_open_successes = 0;
  max_concurrency = 0;
}

abbrev breaker : Rule
breaker = record no_rule {
  type = failure_rate_circuit;
  threshold_percent = 50;
  minimum_requests = 2;
  statistical_window_ms = 10000;
  open_duration_ms = 1000;
  half_open_probes = 2;
  half_open_successes = 2;
}

abbrev limiter : Rule
limiter = record no_rule { type = rate_limit; limit = 2; window_ms = 1000 }

abbrev isolation : Rule
isolation = record no_rule { type = concurrency; max_concurrency = 1 }

abbrev orders : RuleSet
orders = record {
  rule_set_id = 7;
  version = 1;
  name = codes "orders";
  scope = endpoint;
  resource_pattern = codes "/orders/*";
  rules = breaker ∷ limiter ∷ isolation ∷ [];
}

abbrev others : RuleSet
others = record {
  rule_set_id = 8;
  version = 1;
  name = codes "others";
  scope = global;
  resource_pattern = codes "*";
  rules = isolation ∷ [];
}

abbrev get_order : Request
get_order = record {
  service_name = [];
  endpoint_name = codes "/orders/5";
  custom_resource = [];
  rate_limit_key = [];
}

abbrev ready : Engine
ready = record {
  circuits = [];
  rates = [];
  concurrent = [];
  metrics = [];
  next_completion = 0;
  completions = [];
  rule_sets = orders ∷ others ∷ [];
}

abbrev resource : Text
resource = codes "orders"

orders_key : circuit_key 7 failure_rate_circuit ≡ codes "7:FAILURE_RATE_CIRCUIT"
unfolding circuit_key numbered type_name
orders_key = refl

-- Rule set 7 is the more specific one that applies.
match_orders : match_rule_set ready.rule_sets (trim_space resource) get_order ≡ some orders
unfolding match_rule_set applies matches_pattern candidate ends_in_star init has_suffix has_prefix
    strip_prefix trim_space list_beq
match_orders = refl

first_allowed : (evaluate ready 5 resource get_order).1.allowed ≡ true
unfolding evaluate evaluate_matched loops each circuit_step rate_step concurrency_step admit wake
    is_circuit_type current_window rate_key start finish write_back has_rule_type probe_state
    match_rule_set applies matches_pattern candidate ends_in_star init has_suffix has_prefix
    strip_prefix trim_space list_beq Dict.get Dict.put Dict.get_or circuit circuit_key numbered
    type_name same_type millis elapsed release release_half_open any
first_allowed = refl

evaluate-slots_example :
    (under_way (evaluate ready 5 resource get_order).0 7 ≡ under_way ready 7 + slots orders.rules)
    × All (HasRoom (under_way ready 7)) orders.rules
evaluate-slots_example = evaluate-slots ready 5 resource get_order orders match_orders first_allowed

record_decision-evaluate_example :
    let (e, d) = evaluate ready 5 resource get_order in
    under_way (record_decision e 6 d 1000 true) 7 ≡ under_way ready 7
record_decision-evaluate_example =
    record_decision-evaluate ready 5 6 resource get_order orders 1000 true match_orders
      (unfold version_active in refl) (unfold slots same_type select in omega arith) (omega arith)
      first_allowed

-- A half-open circuit, and no slot left.
abbrev busy : Engine
busy = record ready {
  circuits =
      (codes "7:FAILURE_RATE_CIRCUIT", record new_circuit { state = half_open; in_flight = 1 })
      ∷ [];
  concurrent = (7, 1) ∷ [];
}

busy_refuses : (evaluate busy 5 resource get_order).1.allowed ≡ false
unfolding evaluate evaluate_matched loops each circuit_step rate_step concurrency_step admit wake
    is_circuit_type current_window rate_key start finish write_back has_rule_type probe_state
    match_rule_set applies matches_pattern candidate ends_in_star init has_suffix has_prefix
    strip_prefix trim_space list_beq Dict.get Dict.put Dict.get_or circuit circuit_key numbered
    type_name same_type millis elapsed release release_half_open any
busy_refuses = refl

evaluate-restores_example :
    in_flight_at (evaluate busy 5 resource get_order).0.circuits (codes "7:FAILURE_RATE_CIRCUIT")
    ≡ in_flight_at busy.circuits (codes "7:FAILURE_RATE_CIRCUIT")
evaluate-restores_example =
    evaluate-restores busy 5 resource get_order (codes "7:FAILURE_RATE_CIRCUIT") busy_refuses
      (unfold circuit Dict.get list_beq in refl)

-- A circuit that opened at time 1, one second before its time is over.
abbrev tripped : Engine
tripped = record ready {
  circuits =
      (codes "7:FAILURE_RATE_CIRCUIT", record new_circuit { state = open_state; opened_at = 1 })
      ∷ [];
}

tripped_open : is_open (circuit tripped.circuits (circuit_key 7 failure_rate_circuit)).state ≡ true
unfolding circuit Dict.get list_beq circuit_key numbered type_name
tripped_open = refl

not_due :
    elapsed 5
      (circuit tripped.circuits (circuit_key 7 failure_rate_circuit)).opened_at
      (millis breaker.open_duration_ms)
    ≡ false
unfolding circuit Dict.get list_beq circuit_key numbered type_name elapsed millis
not_due = refl

differ :
    (list_beq (codes "7:RATE_LIMIT") (codes "7:FAILURE_RATE_CIRCUIT") ≡ false)
    × (list_beq (codes "7:CONCURRENCY") (codes "7:FAILURE_RATE_CIRCUIT") ≡ false)
unfolding list_beq
differ = (refl, refl)

other_key :
    (t : RuleType)
    → (t ≡ rate_limit) ⊎ (t ≡ concurrency)
    → circuit_key 7 t ≢ circuit_key 7 failure_rate_circuit
unfolding circuit_key numbered type_name
other_key rate_limit h e = cc
other_key concurrency h e = cc
other_key _ h e = ground arith

evaluate-RefusedOpen_example : RefusedOpen tripped orders (evaluate tripped 5 resource get_order)
evaluate-RefusedOpen_example =
    evaluate-RefusedOpen tripped 5 resource get_order orders failure_rate_circuit match_orders
      (unfold is_circuit_type in refl) (unfold has_rule_type same_type any in refl) tripped_open
      (
        (λ _. not_due),
        (
          (λ e. absurd (other_key rate_limit (inl refl) e)),
          ((λ e. absurd (other_key concurrency (inr refl) e)), tt),
        ),
      )

abbrev probing : Circuit
probing = record new_circuit { state = half_open; opened_at = 3; in_flight = 2 }

probes_close_example :
    ((successes breaker ((5, 1) ∷ []) probing).state ≡ half_open)
    × (successes breaker ((5, 1) ∷ (6, 1) ∷ []) probing ≡ new_circuit)
probes_close_example = probes_close breaker ((5, 1) ∷ []) 6 1 probing refl refl (omega arith)

valid_duration_overflow_example :
    (valid_duration_ms 9223372036855 100 day ≡ true) × (86400000 < 9223372036855)
valid_duration_overflow_example =
    valid_duration_overflow 9223372036855 100 (omega arith) (omega arith) (omega arith)

orders_valid : validate_rule_set (codes "endpoint") (codes "/orders/*") orders.rules ≡ []
unfolding validate_rule_set
orders_valid = refl

validate_rule_set-Bounds_example :
    (1 ≤ length orders.rules)
    × (length orders.rules ≤ 16)
    × All (λ r. Bounds r.type r) orders.rules
    × IsDistinct [] orders.rules
validate_rule_set-Bounds_example =
    validate_rule_set-Bounds (codes "endpoint") (codes "/orders/*") orders.rules orders_valid

reset_runtime-exact_example :
    (Dict.get (reset_runtime busy 7).circuits (circuit_key 70 failure_rate_circuit)
      ≡ Dict.get busy.circuits (circuit_key 70 failure_rate_circuit))
    × (Dict.get (reset_runtime busy 7).rates (numbered 70 resource)
        ≡ Dict.get busy.rates (numbered 70 resource))
    × (Dict.get (reset_runtime busy 7).concurrent 70 ≡ Dict.get busy.concurrent 70)
reset_runtime-exact_example =
    reset_runtime-exact busy 7 70 failure_rate_circuit resource (unfold is_circuit_type in refl)

in_flight_bounded_example :
    in_flight_at
      (run new_engine (replace_op (orders ∷ []) ∷ evaluate_op 5 resource get_order ∷ [])).circuits
      (codes "7:FAILURE_RATE_CIRCUIT")
    ≤ 2
in_flight_bounded_example =
    in_flight_bounded (codes "7:FAILURE_RATE_CIRCUIT") 2
      (replace_op (orders ∷ []) ∷ evaluate_op 5 resource get_order ∷ [])
      (((((λ _. omega arith), ((λ _. omega arith), ((λ _. omega arith), tt))), tt), (tt, tt)))

abbrev engine_of : ℕ ⊎ Engine → Engine
engine_of (inl id) = ready
engine_of (inr e) = e

-- The scope is given in lower case.
abbrev given : List RuleSet
given = others ∷ record orders { scope = other_scope (codes " endpoint ") } ∷ []

given_installed : replace_rules ready given ≡ inr (engine_of (replace_rules ready given))
unfolding replace_rules conflicts target_key scope_name trim_space Dict.get list_beq Dict.put
    to_upper scope_of
given_installed = refl

given_matched :
    match_rule_set (engine_of (replace_rules ready given)).rule_sets resource get_order
    ≡ some orders
unfolding replace_rules match_rule_set to_upper scope_of conflicts Dict.get Dict.put list_beq
    target_key scope_name install sort insert comes_before specificity scope_base normalized
    ends_in_star has_suffix label_metric numbered Dict.get_or Dict.keep Dict.remove any has_prefix
    strip_prefix trim_space applies candidate init matches_pattern is_active reset_runtime versions
    type_name circuit_key
given_matched = refl

replace_rules-IsBest_example :
    let e = engine_of (replace_rules ready given) in
    Perm e.rule_sets (map normalized given)
    × (applies resource get_order orders ≡ true)
    × IsBest resource get_order orders e.rule_sets
replace_rules-IsBest_example =
    replace_rules-IsBest ready (engine_of (replace_rules ready given)) given resource get_order
      orders given_installed given_matched

-- A call that is admitted while the circuit is closed, and two that fail and open it.
abbrev solo : RuleSet
solo = record orders { rules = breaker ∷ [] }

abbrev call : Engine → ℕ → Engine × Decision
call e now = evaluate e now resource get_order

abbrev early : Engine × Decision
early = call (run new_engine (replace_op (solo ∷ []) ∷ [])) 10

abbrev failing_one : Engine × Decision
failing_one = call early.0 11

abbrev failing_two : Engine × Decision
failing_two = call failing_one.0 12

abbrev opened : Engine
opened =
    record_decision (record_decision failing_two.0 13 failing_one.1 0 true) 14 failing_two.1 0 true

-- Two probes after the open duration, the late completion of the first call, and a third probe.
abbrev two_probes : Engine
two_probes = (call (call opened 2000000000).0 2000000001).0

abbrev three_probes : Engine × Decision
three_probes = call (record_decision two_probes 2000000002 early.1 0 false) 2000000003

-- Three calls hold a probe, and the counter says two.
late_completion :
    (length three_probes.0.completions ≡ 3)
    × (in_flight_at three_probes.0.circuits (codes "7:FAILURE_RATE_CIRCUIT") ≡ 2)
    × (three_probes.1.allowed ≡ true)
unfolding evaluate evaluate_matched loops each circuit_step rate_step concurrency_step admit wake
    is_circuit_type current_window rate_key start finish write_back has_rule_type probe_state
    match_rule_set applies matches_pattern candidate ends_in_star init has_suffix has_prefix
    strip_prefix trim_space list_beq Dict.get Dict.put Dict.get_or circuit circuit_key numbered
    type_name same_type millis elapsed release release_half_open any record_decision version_active
    run replace_rules normalized scope_of scope_name to_upper conflicts target_key install
    label_metric reset_runtime versions is_active sort insert Dict.keep Dict.remove new_engine
    record_rule_set settle_rules settle after_call after_probe sampled trips is_slow select
    after_cutoff release_slot count_call open_circuit close_circuit step
late_completion = (refl, refl, refl)
