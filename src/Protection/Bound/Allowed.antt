-- ===== src/Protection/Bound/Allowed.antt =====
-- The bound on the probes of a circuit of app/services/runtime/protection/engine.go, as an invariant.
use goravel_mine.Base.{ℕ, ◌≤◌, ◌≡◌, All}
use goravel_mine.Base.Texts.{Text}
use goravel_mine.Base.Eq.{list_eq, nat_eq}
use goravel_mine.Protection.Rule.{Rule, RuleSet}
use goravel_mine.Protection.State.{Engine, circuit_key}
use goravel_mine.Protection.State.Counts.{in_flight_at}

module _ (k : Text) (n : ℕ) where
  -- No rule for the circuit `k` lets more than `n` probes through.
  abbrev pub Allows : ℕ → Rule → Type 0
  Allows id rule = circuit_key id rule.type ≡ k → rule.half_open_probes ≤ n

  abbrev pub AllowsSet : RuleSet → Type 0
  AllowsSet rs = All (Allows rs.rule_set_id) rs.rules

  pub record Inv (e : Engine) : Type 0 where
    pub allowed : All AllowsSet e.rule_sets
    pub bounded : in_flight_at e.circuits k ≤ n
