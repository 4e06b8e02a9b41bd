-- ===== src/Protection/Evaluate/Open.antt =====
-- An open circuit refuses every call of its rule set until its time is over.
use goravel_mine.Base.{
  ℕ, ◌+◌, ◌≡◌, refl, ap, ◌∙◌, inl, inr, true, false, some, List, [], ◌∷◌, arith, Bool-cases, All,
}
use goravel_mine.Base.Texts.{Text, trim_space}
use goravel_mine.Base.Dict
use goravel_mine.Base.Dict.{Dict, get-put, get_or-put_self}
use goravel_mine.Base.Eq.{list_eq, nat_eq, list_beq, list_beq_iff}
use goravel_mine.Protection.Rule.{
  RuleType, Rule, RuleSet, slow_call_circuit, failure_rate_circuit, rate_limit, concurrency,
  other_type, same_type, millis,
}
use goravel_mine.Protection.State.{
  Circuit, Engine, RateWindow, circuit, is_open, circuit_key, elapsed,
}
use goravel_mine.Protection.State.Counts.{circuit-put}
use goravel_mine.Protection.Matching.{Request, match_rule_set}
use goravel_mine.Protection.Evaluate.{
  Run, Outcome, pass, reject, ◌>>=◌, circuit_open, each, loops, circuit_step, rate_step,
  concurrency_step, admit, wake, is_circuit_type, evaluate, evaluate_matched, start, rate_key,
  finish, write_back, has_rule_type, Decision,
}
use goravel_mine.Protection.Evaluate.Slots.{under_way}

same_type-eq : (s t : RuleType) → same_type s t ≡ true → is_circuit_type t ≡ true → s ≡ t
unfolding same_type is_circuit_type
same_type-eq slow_call_circuit slow_call_circuit h k = refl
same_type-eq failure_rate_circuit failure_rate_circuit h k = refl
same_type-eq s rate_limit h k = cc
same_type-eq s concurrency h k = cc
same_type-eq s (other_type x) h k = cc
same_type-eq rate_limit slow_call_circuit h k = cc
same_type-eq failure_rate_circuit slow_call_circuit h k = cc
same_type-eq concurrency slow_call_circuit h k = cc
same_type-eq (other_type x) slow_call_circuit h k = cc
same_type-eq rate_limit failure_rate_circuit h k = cc
same_type-eq slow_call_circuit failure_rate_circuit h k = cc
same_type-eq concurrency failure_rate_circuit h k = cc
same_type-eq (other_type x) failure_rate_circuit h k = cc

module _ (now id : ℕ) (t : RuleType) (c : Circuit) (rates : Dict Text RateWindow) (n : ℕ)
    (breaks : is_circuit_type t ≡ true) (opened : is_open c.state ≡ true) where
  -- The time of the circuit is not over for this rule.
  abbrev NotDue : Rule → Type 0
  NotDue rule =
      circuit_key id rule.type ≡ circuit_key id t
      → elapsed now c.opened_at (millis rule.open_duration_ms) ≡ false

  abbrev StillOpen : Run → Type 0
  StillOpen r = (circuit r.circuits (circuit_key id t) ≡ c) × (r.rates ≡ rates) × (r.concurrent ≡ n)

  abbrev IsRefused : Outcome → Type 0
  IsRefused (pass r) = ⊥
  IsRefused (reject x s r) = (x ≡ circuit_open) × (r.rates ≡ rates) × (r.concurrent ≡ n)

  -- One rule: it refuses, or it leaves the circuit open.
  abbrev StepsOpen : Outcome → Type 0
  StepsOpen (pass r) = StillOpen r
  StepsOpen (reject x s r) = (x ≡ circuit_open) × (r.rates ≡ rates) × (r.concurrent ≡ n)

  wake-open :
      (rule : Rule)
      → elapsed now c.opened_at (millis rule.open_duration_ms) ≡ false
      → wake now rule c ≡ c
  unfolding wake
  wake-open rule h = ground (arith, h)

  admit-open :
      (key : Text) (rule : Rule) (r : Run)
      → r.rates ≡ rates
      → r.concurrent ≡ n
      → IsRefused (admit key rule c r)
  unfolding admit
  admit-open key rule r h k = ground (arith, opened)

  admit-other :
      (key : Text) (rule : Rule) (d : Circuit) (r : Run)
      → list_beq key (circuit_key id t) ≡ false
      → StillOpen r
      → StepsOpen (admit key rule d r)
  unfolding admit
  admit-other key rule d r ne h = ground (
    arith,
    circuit-put r.circuits key (circuit_key id t) (record d { in_flight = d.in_flight + 1 }),
  )

  circuit_step-same :
      (rule : Rule) (r : Run)
      → is_circuit_type rule.type ≡ true
      → circuit_key id rule.type ≡ circuit_key id t
      → NotDue rule
      → StillOpen r
      → IsRefused (circuit_step now id rule r)
  unfolding circuit_step
  circuit_step-same rule r b e due h =
      let found : circuit r.circuits (circuit_key id rule.type) ≡ c =
        cc (ap (circuit r.circuits) e, h.0) in
      rw b (rw found (rw (wake-open rule (due e)) (admit-open _ rule _ h.1 h.2)))

  refused-StepsOpen : (o : Outcome) → IsRefused o → StepsOpen o
  refused-StepsOpen (pass r) h = elim h [ ]
  refused-StepsOpen (reject x s r) h = h

  circuit_step-other :
      (rule : Rule) (r : Run)
      → list_beq (circuit_key id rule.type) (circuit_key id t) ≡ false
      → StillOpen r
      → StepsOpen (circuit_step now id rule r)
  unfolding circuit_step
  circuit_step-other rule r ne h = elim (Bool-cases (is_circuit_type rule.type)) [
    | inl b ↦
        let key = circuit_key id rule.type in
        let d = wake now rule (circuit r.circuits key) in
        rw b (
          admit-other key rule d (record r { circuits = Dict.put r.circuits key d }) ne
            (ground (arith, ne, circuit-put r.circuits key (circuit_key id t) d)))
    | inr b ↦ rw b h
  ]

  circuit_step-open :
      (rule : Rule) (r : Run) → NotDue rule → StillOpen r → StepsOpen (circuit_step now id rule r)
  unfolding circuit_step
  circuit_step-open rule r due h = elim (Bool-cases (is_circuit_type rule.type)) [
    | inr b ↦ rw b h
    | inl b ↦ elim (Bool-cases (list_beq (circuit_key id rule.type) (circuit_key id t))) [
      | inl e ↦ refused-StepsOpen _ (circuit_step-same rule r b ((list_beq_iff _ _).0 e) due h)
      | inr ne ↦ circuit_step-other rule r ne h
    ]
  ]

  bind-IsRefused :
      (o : Outcome) (g : Run → Outcome)
      → StepsOpen o
      → ((r : Run) → StillOpen r → IsRefused (g r))
      → IsRefused (o >>= g)
  bind-IsRefused (pass r) g h k = k r h
  bind-IsRefused (reject x s r) g h k = h

  stop-IsRefused : (o : Outcome) (g : Run → Outcome) → IsRefused o → IsRefused (o >>= g)
  stop-IsRefused (pass r) g h = elim h [ ]
  stop-IsRefused (reject x s r) g h = h

  each-IsRefused :
      (rules : List Rule) (r : Run)
      → All NotDue rules
      → has_rule_type rules t ≡ true
      → StillOpen r
      → IsRefused (each (circuit_step now id) rules r)
  unfolding each has_rule_type
  each-IsRefused [] r due has h = cc
  each-IsRefused (x ∷ xs) r due has h = elim (Bool-cases (same_type x.type t)) [
    | inl e ↦
        let same = same_type-eq x.type t e breaks in
        stop-IsRefused _ (each (circuit_step now id) xs)
          (circuit_step-same x r (rw same breaks) (ap (circuit_key id) same) due.0 h)
    | inr ne ↦
        bind-IsRefused _ (each (circuit_step now id) xs) (circuit_step-open x r due.0 h)
          (λ r' h'. each-IsRefused xs r' due.1 (rw ne at has) h')
  ]

  loops-IsRefused :
      (key : Text) (rules : List Rule) (r : Run)
      → All NotDue rules
      → has_rule_type rules t ≡ true
      → StillOpen r
      → IsRefused (loops now id key rules r)
  unfolding loops
  loops-IsRefused key rules r due has h =
      stop-IsRefused _ (each concurrency_step rules)
        (stop-IsRefused _ (each (rate_step now key) rules) (each-IsRefused rules r due has h))

-- The refusal, and what it leaves alone.
abbrev pub RefusedOpen : Engine → RuleSet → Engine × Decision → Type 0
RefusedOpen e rs (e', d) =
    (d.allowed ≡ false)
    × (d.rejection ≡ some circuit_open)
    × (e'.rates ≡ e.rates)
    × (under_way e' rs.rule_set_id ≡ under_way e rs.rule_set_id)
    × (e'.completions ≡ e.completions)

finish-RefusedOpen :
    (now id : ℕ) (t : RuleType) (c : Circuit) (breaks : is_circuit_type t ≡ true)
    (opened : is_open c.state ≡ true) (e : Engine) (rs : RuleSet) (resource : Text) (o : Outcome)
    → IsRefused now id t c e.rates (under_way e rs.rule_set_id) breaks opened o
    → RefusedOpen e rs (finish e rs resource o)
unfolding finish write_back under_way
finish-RefusedOpen now id t c breaks opened e rs resource (pass r) h = elim h [ ]
finish-RefusedOpen now id t c breaks opened e rs resource (reject x s r) h =
    (refl, ap some h.0, h.1, get_or-put_self e.concurrent rs.rule_set_id r.concurrent 0 ∙ h.2, refl)

-- If the matched rule set has a circuit rule whose circuit is open, and the time of that circuit is
-- not over, the call is refused because of an open circuit; no rate window, no slot and no
-- completion changes.
pub evaluate-RefusedOpen :
    (e : Engine) (now : ℕ) (resource : Text) (req : Request) (rs : RuleSet) (t : RuleType)
    → match_rule_set e.rule_sets (trim_space resource) req ≡ some rs
    → is_circuit_type t ≡ true
    → has_rule_type rs.rules t ≡ true
    → let c = circuit e.circuits (circuit_key rs.rule_set_id t) in
      is_open c.state ≡ true
      → All
          (λ rule.
            circuit_key rs.rule_set_id rule.type ≡ circuit_key rs.rule_set_id t
            → elapsed now c.opened_at (millis rule.open_duration_ms) ≡ false)
          rs.rules
      → RefusedOpen e rs (evaluate e now resource req)
unfolding evaluate evaluate_matched start under_way
evaluate-RefusedOpen e now resource req rs t found breaks has opened due =
    let c = circuit e.circuits (circuit_key rs.rule_set_id t) in
    rw (found, evaluate)
      (finish-RefusedOpen now rs.rule_set_id t c breaks opened e rs resource _ (
        loops-IsRefused now rs.rule_set_id t c e.rates (under_way e rs.rule_set_id) breaks opened
          (rate_key rs.rule_set_id resource req.rate_limit_key) rs.rules (start e rs) due has
          (refl, refl, refl)))
