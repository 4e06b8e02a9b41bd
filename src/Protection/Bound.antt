-- ===== src/Protection/Bound.antt =====
-- The counter of probes in flight at a half-open circuit, over every sequence of the operations of
-- app/services/runtime/protection/engine.go.
mod Allowed
mod Evaluated
mod Recorded
mod Replaced
use goravel_mine.Base.{ℕ, ◌≤◌, Bool, List, [], ◌∷◌, arith, All}
use goravel_mine.Base.Texts.{Text}
use goravel_mine.Base.Dict
use goravel_mine.Base.Dict.{Dict}
use goravel_mine.Base.Eq.{list_eq, nat_eq}
use goravel_mine.Protection.Rule.{RuleSet}
use goravel_mine.Protection.State.{Engine, new_engine, circuit}
use goravel_mine.Protection.Matching.{Request}
use goravel_mine.Protection.Evaluate.{evaluate, Decision}
use goravel_mine.Protection.State.Counts.{in_flight_at}
use goravel_mine.Protection.Record.{record_decision, record_resource}
use goravel_mine.Protection.Replace.{replace_rules}
use goravel_mine.Protection.Bound.Allowed.{AllowsSet, Inv}
use goravel_mine.Protection.Bound.Evaluated.{evaluate-Inv}
use goravel_mine.Protection.Bound.Recorded.{record_decision-Inv, record_resource-Inv}
use goravel_mine.Protection.Bound.Replaced.{installed, replace_rules-Inv}

-- One operation of the engine, with the time that it reads.
pub data Op : Type 0 where
  evaluate_op : ℕ → Text → Request → Op
  record_decision_op : ℕ → Decision → ℕ → Bool → Op
  record_resource_op : ℕ → Text → ℕ → Bool → Op
  replace_op : List RuleSet → Op

unfoldable pub step : Engine → Op → Engine
step e (evaluate_op now resource req) = (evaluate e now resource req).0
step e (record_decision_op now d duration failure) = record_decision e now d duration failure
step e (record_resource_op now resource duration failure) =
    record_resource e now resource duration failure
step e (replace_op sets) = installed e (replace_rules e sets)

unfoldable pub run : Engine → List Op → Engine
run e [] = e
run e (op ∷ ops) = run (step e op) ops

module _ (k : Text) (n : ℕ) where
  -- Every rule set that an operation installs stays within the bound.
  abbrev pub AllowsOp : Op → Type 0
  AllowsOp (replace_op sets) = All (AllowsSet k n) sets
  AllowsOp _ = Unit

  step-Inv : (e : Engine) (op : Op) → AllowsOp op → Inv k n e → Inv k n (step e op)
  unfolding step
  step-Inv e (evaluate_op now resource req) h inv = evaluate-Inv k n e now resource req inv
  step-Inv e (record_decision_op now d duration failure) h inv =
      record_decision-Inv k n e now d duration failure inv
  step-Inv e (record_resource_op now raw duration failure) h inv =
      record_resource-Inv k n e now raw duration failure inv
  step-Inv e (replace_op sets) h inv = replace_rules-Inv k n e sets h inv

  run-Inv : (e : Engine) (ops : List Op) → All AllowsOp ops → Inv k n e → Inv k n (run e ops)
  unfolding run
  run-Inv e [] h inv = inv
  run-Inv e (op ∷ ops) h inv = run-Inv (step e op) ops h.1 (step-Inv e op h.0 inv)

-- Over every sequence of evaluations, completions and rule installations from a new engine, the counter
-- halfOpenInFlight of the circuit `k` is at most `n`, if no installed rule for it lets more than `n` probes through.
-- The counter is not the number of calls that hold a probe: a call that was admitted before the circuit opened takes
-- one off when it completes late.
pub in_flight_bounded :
    (k : Text) (n : ℕ) (ops : List Op)
    → All (AllowsOp k n) ops
    → in_flight_at (run new_engine ops).circuits k ≤ n
unfolding new_engine circuit Dict.get
in_flight_bounded k n ops h =
    (run-Inv k n new_engine ops h (record { allowed = tt; bounded = omega arith })).bounded
