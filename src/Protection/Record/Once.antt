-- ===== src/Protection/Record/Once.antt =====
-- A decision is completed at most once, and completing it gives back its slot.
use goravel_mine.Base.{
  ℕ, ◌+◌, ◌-◌, ◌^◌, ◌≤◌, ◌<◌, ◌≡◌, refl, ◌≢◌, ◌⊎◌, inl, inr, Bool, true, false, not, ◌||◌, none,
  some, List, [], ◌∷◌, arith, ltb, if◌then◌else◌, u64, ◌==◌, Option-cases,
}
use goravel_mine.Base.Texts.{Text, trim_space}
use goravel_mine.Base.Dict
use goravel_mine.Base.Dict.{
  Dict, get_or-put_self, get_or-put, get-put_self, get-put, get-remove_self,
}
use goravel_mine.Base.Eq.{list_eq, nat_eq}
use goravel_mine.Protection.Rule.{Rule, RuleSet, concurrency}
use goravel_mine.Protection.State.{Engine, Completion}
use goravel_mine.Protection.Matching.{Request, match_rule_set}
use goravel_mine.Protection.Evaluate.{
  Outcome, pass, reject, Decision, evaluate, evaluate_matched, finish, write_back, has_rule_type,
}
use goravel_mine.Protection.Evaluate.Slots.{slots, under_way, evaluate-slots}
use goravel_mine.Protection.Record.{record_decision, record_rule_set, release_slot, version_active}

completions-record_rule_set :
    (e : Engine) (now : ℕ) (c : Completion) (duration : ℕ) (failure : Bool)
    → (record_rule_set e now c duration failure).completions ≡ e.completions
unfolding record_rule_set
completions-record_rule_set e now c duration failure = ground arith

-- After a decision is recorded its completion is gone, or it never had one.
Spent : Engine → Decision → Type 0
Spent e d =
    ((not d.allowed || (not d.matched || d.completion_id == 0)) ≡ true)
    ⊎ (Dict.get e.completions d.completion_id ≡ none)

record_decision-Spent :
    (e : Engine) (now : ℕ) (d : Decision) (duration : ℕ) (failure : Bool)
    → Spent (record_decision e now d duration failure) d
unfolding Spent record_decision
record_decision-Spent e now d duration failure =
    elim (Option-cases (Dict.get e.completions d.completion_id)) [
      | inl e₀ ↦ ground (arith, e₀)
      | inr (c, e₁) ↦ ground (
        arith,
        e₁,
        get-remove_self e.completions d.completion_id,
        completions-record_rule_set
            (record e { completions = Dict.remove e.completions d.completion_id }) now c duration
            failure,
      )
    ]

Spent-record_decision :
    (e : Engine) (now : ℕ) (d : Decision) (duration : ℕ) (failure : Bool)
    → Spent e d
    → record_decision e now d duration failure ≡ e
unfolding Spent record_decision
Spent-record_decision e now d duration failure h = ground arith

-- Recording a decision again, at any time and with any outcome, changes nothing.
pub record_decision-once :
    (e : Engine) (d : Decision) (now later duration duration' : ℕ) (failure failure' : Bool)
    → let e' = record_decision e now d duration failure in
      record_decision e' later d duration' failure' ≡ e'
record_decision-once e d now later duration duration' failure failure' =
    Spent-record_decision _ later d duration' failure'
      (record_decision-Spent e now d duration failure)

-- What a call that was let through leaves for its completion.
Registered : Engine → RuleSet → Engine × Decision → Type 0
Registered e rs (e', d) =
    (d.matched ≡ true)
    × (d.completion_id ≡ u64 (e.next_completion + 1))
    × (e'.rule_sets ≡ e.rule_sets)
    × ((c : Completion) × (Dict.get e'.completions d.completion_id ≡ some c)
        × (c.rule_set_id ≡ rs.rule_set_id)
        × (c.version ≡ rs.version)
        × (c.holds_concurrency ≡ has_rule_type rs.rules concurrency))

finish-Registered :
    (e : Engine) (rs : RuleSet) (resource : Text) (o : Outcome)
    → (finish e rs resource o).1.allowed ≡ true
    → Registered e rs (finish e rs resource o)
unfolding finish write_back Registered
finish-Registered e rs resource (reject x s r) h = cc
finish-Registered e rs resource (pass r) h = (
  refl,
  refl,
  refl,
  (_, get-put_self e.completions (u64 (e.next_completion + 1)) _, refl, refl, refl),
)

evaluate-Registered :
    (e : Engine) (now : ℕ) (resource : Text) (req : Request) (rs : RuleSet)
    → match_rule_set e.rule_sets (trim_space resource) req ≡ some rs
    → (evaluate e now resource req).1.allowed ≡ true
    → Registered e rs (evaluate e now resource req)
unfolding evaluate evaluate_matched
evaluate-Registered e now resource req rs found allowed =
    rw (found, evaluate) (finish-Registered e rs resource _ (rw (found, evaluate) at allowed))

any-eq-slots : (rules : List Rule) → has_rule_type rules concurrency ≡ ltb 0 (slots rules)
unfolding has_rule_type slots
any-eq-slots [] = refl
any-eq-slots (x ∷ xs) = ground (arith, any-eq-slots xs)

under_way-release :
    (e : Engine) (now : ℕ) (c : Completion) (duration : ℕ) (failure : Bool)
    → version_active e.rule_sets c.rule_set_id c.version ≡ true
    → under_way (record_rule_set e now c duration failure) c.rule_set_id
      ≡ under_way e c.rule_set_id - (if c.holds_concurrency then 1 else 0)
unfolding record_rule_set release_slot under_way
under_way-release e now c duration failure active = ground (
  arith,
  get_or-put_self e.concurrent c.rule_set_id (Dict.get_or e.concurrent c.rule_set_id 0 - 1) 0,
)

-- Recording a decision whose completion is there settles that completion.
record_decision_settles :
    (e : Engine) (now : ℕ) (d : Decision) (duration : ℕ) (failure : Bool) (c : Completion)
    → d.allowed ≡ true
    → d.matched ≡ true
    → d.completion_id ≢ 0
    → Dict.get e.completions d.completion_id ≡ some c
    → record_decision e now d duration failure
      ≡ record_rule_set
          (record e { completions = Dict.remove e.completions d.completion_id })
          now
          c
          duration
          failure
unfolding record_decision
record_decision_settles e now d duration failure c allowed matched id stored =
    let t : (d.completion_id == 0) ≡ false = ground arith in
    rw allowed (rw matched (rw t (rw (stored, record_decision) refl)))

-- A call that was let through and is then recorded gives its slot back: the number of calls under
-- way is what it was before. The rule set has at most one concurrency rule, as validation demands,
-- its version is the active one, and the completion counter does not wrap.
pub record_decision-evaluate :
    (e : Engine) (now later : ℕ) (resource : Text) (req : Request) (rs : RuleSet) (duration : ℕ)
    (failure : Bool)
    → match_rule_set e.rule_sets (trim_space resource) req ≡ some rs
    → version_active e.rule_sets rs.rule_set_id rs.version ≡ true
    → slots rs.rules ≤ 1
    → e.next_completion + 1 < 2 ^ 64
    → (evaluate e now resource req).1.allowed ≡ true
    → let (e', d) = evaluate e now resource req in
      under_way (record_decision e' later d duration failure) rs.rule_set_id
      ≡ under_way e rs.rule_set_id
unfolding Registered under_way
record_decision-evaluate e now later resource req rs duration failure found active single small
      allowed =
    let (e', d) = evaluate e now resource req in
    let (matched, id, same, (c, stored, rule_set, version, holds)) =
      evaluate-Registered e now resource req rs found allowed in
    let released =
      under_way-release (record e' { completions = Dict.remove e'.completions d.completion_id })
        later c duration failure (rw same (rw rule_set (rw version active))) in
    let taken = evaluate-slots e now resource req rs found allowed in
    rw (record_decision_settles e' later d duration failure c allowed matched (omega arith) stored)
      (ground (arith, rule_set, holds, any-eq-slots rs.rules, released, taken.0))
