-- ===== src/Protection/Bound/Evaluated.antt =====
-- Engine.Evaluate of app/services/runtime/protection/engine.go keeps the bound on the probes of a circuit.
use goravel_mine.Base.{
  ℕ, ◌+◌, ◌≤◌, ◌≡◌, ap, subst, inl, inr, some, List, [], ◌∷◌, arith, Bool-cases, Option-cases, All,
}
use goravel_mine.Base.Texts.{Text, trim_space}
use goravel_mine.Base.Dict
use goravel_mine.Base.Dict.{Dict, get-put, get-remove}
use goravel_mine.Base.Eq.{list_eq, nat_eq, list_beq_iff}
use goravel_mine.Protection.Rule.{Rule, RuleSet}
use goravel_mine.Protection.State.{Circuit, Engine, circuit, circuit_key}
use goravel_mine.Protection.Matching.{Request, match_rule_set, applies}
use goravel_mine.Protection.Evaluate.{
  Run, Outcome, pass, reject, each, loops, circuit_step, rate_step, concurrency_step, admit, wake,
  evaluate, evaluate_matched, start, rate_key, finish, write_back,
}
use goravel_mine.Protection.Evaluate.Loops.{Holds, bind-Holds, each-Holds, each-All-Holds}
use goravel_mine.Protection.State.Counts.{in_flight_at, circuit-put, release_half_open_lem}
use goravel_mine.Protection.Bound.Allowed.{Allows, AllowsSet, Inv}

module _ (k : Text) (n : ℕ) where
  abbrev Fits : Run → Type 0
  Fits r = in_flight_at r.circuits k ≤ n

  in_flight-wake : (now : ℕ) (rule : Rule) (c : Circuit) → (wake now rule c).in_flight ≤ c.in_flight
  unfolding wake
  in_flight-wake now rule c = ground arith

  admit-Fits :
      (key : Text) (rule : Rule) (c : Circuit) (r : Run)
      → (key ≡ k → rule.half_open_probes ≤ n)
      → Fits r
      → Holds Fits Fits (admit key rule c r)
  unfolding admit
  admit-Fits key rule c r allows h = ground (
    arith,
    release_half_open_lem r.circuits r.acquired k,
    list_beq_iff key k,
    circuit-put r.circuits key k (record c { in_flight = c.in_flight + 1 }),
  )

  circuit_step-Fits :
      (now id : ℕ) (rule : Rule) (r : Run)
      → Allows k n id rule
      → Fits r
      → Holds Fits Fits (circuit_step now id rule r)
  unfolding circuit_step
  circuit_step-Fits now id rule r allows h =
      let key = circuit_key id rule.type in
      let c = wake now rule (circuit r.circuits key) in
      ground (
        arith,
        circuit-put r.circuits key k c,
        list_beq_iff key k,
        in_flight-wake now rule (circuit r.circuits key),
        ap (λ i. (circuit r.circuits i).in_flight) {x = key} {y = k},
        admit-Fits key rule c (record r { circuits = Dict.put r.circuits key c }),
      )

  rate_step-Fits :
      (now : ℕ) (key : Text) (rule : Rule) (r : Run)
      → Fits r
      → Holds Fits Fits (rate_step now key rule r)
  unfolding rate_step
  rate_step-Fits now key rule r h = ground (arith, release_half_open_lem r.circuits r.acquired k)

  concurrency_step-Fits :
      (rule : Rule) (r : Run) → Fits r → Holds Fits Fits (concurrency_step rule r)
  unfolding concurrency_step
  concurrency_step-Fits rule r h = ground (arith, release_half_open_lem r.circuits r.acquired k)

  loops-Fits :
      (now id : ℕ) (key : Text) (rules : List Rule) (r : Run)
      → All (Allows k n id) rules
      → Fits r
      → Holds Fits Fits (loops now id key rules r)
  unfolding loops
  loops-Fits now id key rules r allows h =
      bind-Holds Fits Fits _ (each concurrency_step rules)
        (bind-Holds Fits Fits _ (each (rate_step now key) rules)
          (each-All-Holds Fits Fits (Allows k n id) (circuit_step now id) rules
            (circuit_step-Fits now id) allows r h)
          (each-Holds Fits Fits (rate_step now key) rules (rate_step-Fits now key)))
        (each-Holds Fits Fits concurrency_step rules concurrency_step-Fits)

  finish-Inv :
      (e : Engine) (rs : RuleSet) (resource : Text) (o : Outcome)
      → All (AllowsSet k n) e.rule_sets
      → Holds Fits Fits o
      → Inv k n (finish e rs resource o).0
  unfolding finish write_back
  finish-Inv e rs resource (pass r) sets h = record { allowed = sets; bounded = h }
  finish-Inv e rs resource (reject x s r) sets h = record { allowed = sets; bounded = h }

  match-AllowsSet :
      (sets : List RuleSet) (resource : Text) (req : Request) (rs : RuleSet)
      → All (AllowsSet k n) sets
      → match_rule_set sets resource req ≡ some rs
      → AllowsSet k n rs
  unfolding match_rule_set
  match-AllowsSet [] resource req rs all h = cc
  match-AllowsSet (x ∷ xs) resource req rs all h = elim (Bool-cases (applies resource req x)) [
    | inl e ↦ let p : x ≡ rs = ground (arith, e, h) in subst (AllowsSet k n) p all.0
    | inr e ↦ match-AllowsSet xs resource req rs all.1 (rw (e, match_rule_set) at h)
  ]

  pub evaluate-Inv :
      (e : Engine) (now : ℕ) (resource : Text) (req : Request)
      → Inv k n e
      → Inv k n (evaluate e now resource req).0
  unfolding evaluate evaluate_matched start
  evaluate-Inv e now resource req inv =
      elim (Option-cases (match_rule_set e.rule_sets (trim_space resource) req)) [
        | inl e₀ ↦ rw (e₀, evaluate) inv
        | inr (rs, found) ↦
            rw (found, evaluate)
              (finish-Inv e rs resource _ inv.allowed (
                loops-Fits now rs.rule_set_id (rate_key rs.rule_set_id resource req.rate_limit_key)
                  rs.rules (start e rs) (match-AllowsSet e.rule_sets _ req rs inv.allowed found)
                  inv.bounded))
      ]
