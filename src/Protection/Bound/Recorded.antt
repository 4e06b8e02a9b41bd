-- ===== src/Protection/Bound/Recorded.antt =====
-- The ends of calls, app/services/runtime/protection/engine.go, keep the bound on the probes of a circuit.
use goravel_mine.Base.{
  ℕ, ◌≤◌, ◌≡◌, sym, ap, subst, inl, inr, Bool, not, ◌||◌, none, List, [], ◌∷◌, arith, if◌then◌else◌,
  ◌==◌, Bool-cases, Option-cases, All,
}
use goravel_mine.Base.Texts.{Text, trim_space}
use goravel_mine.Base.Dict
use goravel_mine.Base.Dict.{Dict, get-put, get-remove}
use goravel_mine.Base.Eq.{list_eq, nat_eq, list_beq_iff}
use goravel_mine.Protection.Rule.{Rule}
use goravel_mine.Protection.State.{
  Circuit, CircuitState, closed, half_open, open_state, Engine, Completion, circuit, circuit_key,
  open_circuit, close_circuit,
}
use goravel_mine.Protection.Matching.{Request, match_rule_set}
use goravel_mine.Protection.Evaluate.{Decision, is_circuit_type}
use goravel_mine.Protection.State.Counts.{in_flight_at, circuit-put}
use goravel_mine.Protection.Record.{
  settle, after_probe, after_call, settle_rules, record_rule_set, record_decision, record_resource,
  oldest,
}
use goravel_mine.Protection.Bound.Allowed.{AllowsSet, Inv}

module _ (k : Text) (n : ℕ) where
  -- The end of a call never adds a probe.
  in_flight-settle :
      (s : CircuitState) (now : ℕ) (rule : Rule) (duration : ℕ) (failure : Bool) (c : Circuit)
      → (settle s now rule duration failure c).in_flight ≤ c.in_flight
  unfolding settle after_probe after_call open_circuit close_circuit
  in_flight-settle closed now rule duration failure c = ground arith
  in_flight-settle open_state now rule duration failure c = omega arith
  in_flight-settle half_open now rule duration failure c = ground arith

  in_flight-settle_rules :
      (now id duration : ℕ) (failure : Bool) (rules : List Rule) (m : Dict Text Circuit)
      → in_flight_at (settle_rules now id duration failure rules m) k ≤ in_flight_at m k
  unfolding settle_rules
  in_flight-settle_rules now id duration failure [] m = omega arith
  in_flight-settle_rules now id duration failure (rule ∷ rules) m =
      let key = circuit_key id rule.type in
      let c = circuit m key in
      let c' = settle c.state now rule duration failure c in
      let m' : Dict Text Circuit = if is_circuit_type rule.type then Dict.put m key c' else m in
      ground (
        arith,
        in_flight-settle_rules now id duration failure rules m',
        in_flight-settle c.state now rule duration failure c,
        circuit-put m key k c',
        list_beq_iff key k,
        ap (λ i. (circuit m i).in_flight) {x = key} {y = k},
      )

  record_rule_set_keeps :
      (e : Engine) (now : ℕ) (c : Completion) (duration : ℕ) (failure : Bool)
      → let e' = record_rule_set e now c duration failure in
        (e'.rule_sets ≡ e.rule_sets) × (in_flight_at e'.circuits k ≤ in_flight_at e.circuits k)
  unfolding record_rule_set
  record_rule_set_keeps e now c duration failure =
      ground (arith, in_flight-settle_rules now c.rule_set_id duration failure c.rules e.circuits)

  record_rule_set-Inv :
      (e : Engine) (now : ℕ) (c : Completion) (duration : ℕ) (failure : Bool)
      → Inv k n e
      → Inv k n (record_rule_set e now c duration failure)
  record_rule_set-Inv e now c duration failure inv =
      let (sets, fewer) = record_rule_set_keeps e now c duration failure in
      record {
        allowed = subst (All (AllowsSet k n)) (sym sets) inv.allowed;
        bounded = omega (arith, inv.bounded);
      }

  without_completions :
      (e : Engine) (m : Dict ℕ Completion) → Inv k n e → Inv k n (record e { completions = m })
  without_completions e m inv = record { allowed = inv.allowed; bounded = inv.bounded }

  pub record_decision-Inv :
      (e : Engine) (now : ℕ) (d : Decision) (duration : ℕ) (failure : Bool)
      → Inv k n e
      → Inv k n (record_decision e now d duration failure)
  unfolding record_decision
  record_decision-Inv e now d duration failure inv =
      elim (Bool-cases (not d.allowed || (not d.matched || d.completion_id == 0))) [
        | inl e₀ ↦ rw e₀ inv
        | inr e₁ ↦ rw e₁ (elim (Option-cases (Dict.get e.completions d.completion_id)) [
          | inl e₂ ↦ rw (e₂, record_decision) inv
          | inr (c, e₂) ↦
              rw (e₂, record_decision)
                (record_rule_set-Inv _ now c duration failure (without_completions e _ inv))
        ])
      ]

  pub record_resource-Inv :
      (e : Engine) (now : ℕ) (raw : Text) (duration : ℕ) (failure : Bool)
      → Inv k n e
      → Inv k n (record_resource e now raw duration failure)
  unfolding record_resource
  record_resource-Inv e now raw duration failure inv =
      let resource = trim_space raw in
      let req : Request = record {
        service_name = resource;
        endpoint_name = resource;
        custom_resource = resource;
        rate_limit_key = [];
      } in
      elim (Option-cases (oldest resource e.completions none)) [
        | inr ((id, c), e₁) ↦
            rw (e₁, record_resource)
              (record_rule_set-Inv _ now c duration failure (without_completions e _ inv))
        | inl e₁ ↦ elim (Option-cases (match_rule_set e.rule_sets resource req)) [
          | inl e₂ ↦ rw (e₁, record_resource) (rw e₂ inv)
          | inr (rs, e₂) ↦
              rw (e₁, record_resource) (rw e₂ (record_rule_set-Inv e now _ duration failure inv))
        ]
      ]
