-- ===== src/Protection/State.antt =====
-- app/services/runtime/protection/engine.go: the state of the engine. Times are nanoseconds on the
-- engine's clock, and 0 is the zero `time.Time`; each operation takes the time that it reads as an
-- argument. The mutex makes each operation one step. Unsigned counters wrap at 2 ^ 64.
pub mod Counts
use goravel_mine.Base.{
  ℕ, ◌+◌, ◌-◌, ◌^◌, Bool, true, false, none, some, List, [], ◌∷◌, ltb, leb, if◌then◌else◌,
}
use goravel_mine.Base.Eq.{nat_eq, list_eq}
use goravel_mine.Base.Texts.{Text}
use goravel_mine.Base.Dict
use goravel_mine.Base.Dict.{Dict}
use goravel_mine.Base.Decimal.{numbered}
use goravel_mine.Protection.Rule.{
  RuleType, type_name, Rule, RuleSet, Scope, other_scope, is_negative,
}

pub data CircuitState : Type 0 where
  closed open_state half_open : CircuitState

pub record Sample : Type 0 where
  pub at : ℕ
  pub failure : Bool
  pub slow : Bool

pub record Circuit : Type 0 where
  pub state : CircuitState
  pub opened_at : ℕ
  pub samples : List Sample
  pub in_flight : ℕ
  pub successes : ℕ

pub record RateWindow : Type 0 where
  pub start : ℕ
  pub count : ℕ

-- The zero value's scope is the empty text. The durations are summed in microseconds; the `float64` of milliseconds is not modelled.
pub record Metric : Type 0 where
  pub rule_set_id : ℕ
  pub version : ℕ
  pub scope : Scope
  pub resource_pattern : Text
  pub passed : ℕ
  pub rate_limited : ℕ
  pub circuit_rejected : ℕ
  pub concurrency_rejected : ℕ
  pub half_open_probes : ℕ
  pub calls : ℕ
  pub failures : ℕ
  pub duration_sum_us : ℕ

abbrev pub no_metric : Metric
no_metric = record {
  rule_set_id = 0;
  version = 0;
  scope = other_scope [];
  resource_pattern = [];
  passed = 0;
  rate_limited = 0;
  circuit_rejected = 0;
  concurrency_rejected = 0;
  half_open_probes = 0;
  calls = 0;
  failures = 0;
  duration_sum_us = 0;
}

pub record Completion : Type 0 where
  pub rule_set_id : ℕ
  pub version : ℕ
  pub resource : Text
  pub rules : List Rule
  pub acquired : List Text
  pub holds_concurrency : Bool

-- In `concurrent` an entry 0 counts as a missing one does.
pub record Engine : Type 0 where
  pub rule_sets : List RuleSet
  pub circuits : Dict Text Circuit
  pub rates : Dict Text RateWindow
  pub concurrent : Dict ℕ ℕ
  pub metrics : Dict ℕ Metric
  pub next_completion : ℕ
  pub completions : Dict ℕ Completion

-- NewEngine
unfoldable pub new_engine : Engine
new_engine = record {
  rule_sets = [];
  circuits = [];
  rates = [];
  concurrent = [];
  metrics = [];
  next_completion = 0;
  completions = [];
}

unfoldable pub circuit_key : ℕ → RuleType → Text
circuit_key id t = numbered id (type_name t)

abbrev pub new_circuit : Circuit
new_circuit = record { state = closed; opened_at = 0; samples = []; in_flight = 0; successes = 0 }

-- `e.circuit(key)`: the entry, or a closed circuit that the caller's write puts there
unfoldable pub circuit : Dict Text Circuit → Text → Circuit
unfolding Dict.get_or
circuit m key = Dict.get_or m key new_circuit

unfoldable pub open_circuit : Circuit → ℕ → Circuit
open_circuit c now = record c { state = open_state; opened_at = now; in_flight = 0; successes = 0 }

unfoldable pub close_circuit : Circuit → Circuit
close_circuit c = new_circuit

abbrev pub is_open : CircuitState → Bool
is_open open_state = true
is_open _ = false

abbrev pub is_half_open : CircuitState → Bool
is_half_open half_open = true
is_half_open _ = false

-- `now.Sub(from) >= duration`, for a duration in the bits that `millis` gives
unfoldable pub elapsed : ℕ → ℕ → ℕ → Bool
elapsed now from bits =
    if is_negative bits then leb from (now + (2 ^ 64 - bits)) else leb (from + bits) now

-- `at.After(now.Add(-duration))`; the negative of -(2 ^ 63) is itself
unfoldable pub after_cutoff : ℕ → ℕ → ℕ → Bool
after_cutoff now at bits =
    if leb bits (2 ^ 63) then ltb now (at + bits) else ltb (now + (2 ^ 64 - bits)) at

-- One key of releaseHalfOpen.
unfoldable pub release : Dict Text Circuit → Text → Dict Text Circuit
release m key = elim (Dict.get m key) [
  | none ↦ m
  | some c ↦
      if ltb 0 c.in_flight then Dict.put m key (record c { in_flight = c.in_flight - 1 }) else m
]

unfoldable pub release_half_open : Dict Text Circuit → List Text → Dict Text Circuit
release_half_open m [] = m
release_half_open m (k ∷ ks) = release_half_open (release m k) ks
