-- ===== src/Protection/Evaluate/Probes.antt =====
-- A refused call gives back the probes that it took of half-open circuits.
use goravel_mine.Base.{ℕ, ◌+◌, ◌≡◌, refl, ap, inl, inr, true, false, List, arith, Option-cases}
use goravel_mine.Base.Texts.{Text, trim_space}
use goravel_mine.Base.Dict
use goravel_mine.Base.Dict.{Dict, get-put}
use goravel_mine.Base.Eq.{list_eq, nat_eq, list_beq, list_beq_iff}
use goravel_mine.Protection.Rule.{Rule, RuleSet}
use goravel_mine.Protection.State.{Circuit, Engine, circuit, is_open, circuit_key}
use goravel_mine.Protection.Matching.{Request, match_rule_set}
use goravel_mine.Protection.Evaluate.{
  Run, Outcome, pass, reject, each, loops, circuit_step, rate_step, concurrency_step, admit, wake,
  evaluate, evaluate_matched, start, rate_key, finish, write_back,
}
use goravel_mine.Protection.State.Counts.{
  in_flight_at, open_at, times, times-snoc, circuit-put, release_half_open_lem,
}
use goravel_mine.Protection.Evaluate.Loops.{Holds, bind-Holds, each-Holds}

-- A circuit that is not open is left as it is.
wake-closed : (now : ℕ) (rule : Rule) (c : Circuit) → is_open c.state ≡ false → wake now rule c ≡ c
unfolding wake
wake-closed now rule c h = ground arith

module _ (m : Dict Text Circuit) (k : Text) where
  abbrev Taken : Run → Type 0
  Taken r =
      (in_flight_at r.circuits k ≡ in_flight_at m k + times k r.acquired)
      × (open_at r.circuits k ≡ false)

  abbrev Restored : Run → Type 0
  Restored r = (in_flight_at r.circuits k ≡ in_flight_at m k) × (open_at r.circuits k ≡ false)

  admit-Holds :
      (key : Text) (rule : Rule) (c : Circuit) (r : Run)
      → (list_beq key k ≡ true → circuit r.circuits k ≡ c)
      → Taken r
      → Holds Taken Restored (admit key rule c r)
  unfolding admit
  admit-Holds key rule c r same h = ground (
    arith,
    release_half_open_lem r.circuits r.acquired k,
    times-snoc k key r.acquired,
    circuit-put r.circuits key k (record c { in_flight = c.in_flight + 1 }),
  )

  circuit_step-Holds :
      (now id : ℕ) (rule : Rule) (r : Run)
      → Taken r
      → Holds Taken Restored (circuit_step now id rule r)
  unfolding circuit_step
  circuit_step-Holds now id rule r h =
      let key = circuit_key id rule.type in
      let c = wake now rule (circuit r.circuits key) in
      ground (
        arith,
        circuit-put r.circuits key k c,
        list_beq_iff key k,
        wake-closed now rule (circuit r.circuits key),
        ap (λ i. circuit r.circuits i) {x = key} {y = k},
        admit-Holds key rule c (record r { circuits = Dict.put r.circuits key c }),
      )

  rate_step-Holds :
      (now : ℕ) (key : Text) (rule : Rule) (r : Run)
      → Taken r
      → Holds Taken Restored (rate_step now key rule r)
  unfolding rate_step
  rate_step-Holds now key rule r h = ground (arith, release_half_open_lem r.circuits r.acquired k)

  concurrency_step-Holds :
      (rule : Rule) (r : Run) → Taken r → Holds Taken Restored (concurrency_step rule r)
  unfolding concurrency_step
  concurrency_step-Holds rule r h = ground (arith, release_half_open_lem r.circuits r.acquired k)

  loops-Holds :
      (now id : ℕ) (key : Text) (rules : List Rule) (r : Run)
      → Taken r
      → Holds Taken Restored (loops now id key rules r)
  unfolding loops
  loops-Holds now id key rules r h =
      bind-Holds Taken Restored _ (each concurrency_step rules)
        (bind-Holds Taken Restored _ (each (rate_step now key) rules)
          (each-Holds Taken Restored (circuit_step now id) rules (circuit_step-Holds now id) r h)
          (each-Holds Taken Restored (rate_step now key) rules (rate_step-Holds now key)))
        (each-Holds Taken Restored concurrency_step rules concurrency_step-Holds)

  finish-restores :
      (e : Engine) (rs : RuleSet) (resource : Text) (o : Outcome)
      → Holds Taken Restored o
      → (finish e rs resource o).1.allowed ≡ false
      → in_flight_at (finish e rs resource o).0.circuits k ≡ in_flight_at m k
  unfolding finish write_back
  finish-restores e rs resource (pass r) h refused = cc
  finish-restores e rs resource (reject x s r) h refused = h.0

-- A refused call holds no probe: at every circuit that was not open, the number of probes in flight
-- is what it was before the call.
pub evaluate-restores :
    (e : Engine) (now : ℕ) (resource : Text) (req : Request) (k : Text)
    → (evaluate e now resource req).1.allowed ≡ false
    → is_open (circuit e.circuits k).state ≡ false
    → in_flight_at (evaluate e now resource req).0.circuits k ≡ in_flight_at e.circuits k
unfolding evaluate evaluate_matched start times
evaluate-restores e now resource req k refused shut =
    elim (Option-cases (match_rule_set e.rule_sets (trim_space resource) req)) [
      | inl e₀ ↦ rw (e₀, evaluate) refl
      | inr (rs, found) ↦
          rw (found, evaluate)
            (finish-restores e.circuits k e rs resource _
              (loops-Holds e.circuits k now rs.rule_set_id
                (rate_key rs.rule_set_id resource req.rate_limit_key) rs.rules (start e rs)
                (omega arith, shut))
              (rw (found, evaluate) at refused))
    ]
