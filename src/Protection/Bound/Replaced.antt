-- ===== src/Protection/Bound/Replaced.antt =====
-- Engine.ReplaceRules of app/services/runtime/protection/engine.go keeps the bound on the probes of a
-- circuit.
use goravel_mine.Base.{
  ℕ, ◌≤◌, ◌≡◌, sym, subst, ◌⊎◌, inl, inr, List, [], ◌∷◌, map, arith, if◌then◌else◌, Bool-cases,
  Option-cases, All,
}
use goravel_mine.Base.Texts.{Text}
use goravel_mine.Base.Dict
use goravel_mine.Base.Dict.{Dict, get-put, get-remove}
use goravel_mine.Base.Eq.{list_eq, nat_eq}
use goravel_mine.Protection.Rule.{RuleSet, slow_call_circuit, failure_rate_circuit}
use goravel_mine.Protection.State.{Circuit, Engine, circuit, circuit_key}
use goravel_mine.Protection.Matching.{sort, insert, comes_before}
use goravel_mine.Protection.State.Counts.{in_flight_at}
use goravel_mine.Protection.Replace.{
  replace_rules, install, reset_runtime, label_metric, normalized, versions, conflicts, changed,
}
use goravel_mine.Protection.Bound.Allowed.{AllowsSet, Inv}

abbrev pub installed : Engine → ℕ ⊎ Engine → Engine
installed e (inl id) = e
installed e (inr e') = e'

module _ (k : Text) (n : ℕ) where
  insert-AllowsSet :
      (rs : RuleSet) (sets : List RuleSet)
      → AllowsSet k n rs
      → All (AllowsSet k n) sets
      → All (AllowsSet k n) (insert rs sets)
  unfolding insert
  insert-AllowsSet rs [] h all = (h, tt)
  insert-AllowsSet rs (x ∷ xs) h all = elim (Bool-cases (comes_before x rs)) [
    | inl e ↦ rw e (all.0, insert-AllowsSet rs xs h all.1)
    | inr e ↦ rw e (h, all)
  ]

  sort-AllowsSet :
      (sets : List RuleSet)
      → All (AllowsSet k n) sets
      → All (AllowsSet k n) (sort (map normalized sets))
  unfolding sort normalized
  sort-AllowsSet [] all = tt
  sort-AllowsSet (x ∷ xs) all =
      insert-AllowsSet (normalized x) (sort (map normalized xs)) all.0 (sort-AllowsSet xs all.1)

  in_flight-remove :
      (m : Dict Text Circuit) (j : Text) → in_flight_at (Dict.remove m j) k ≤ in_flight_at m k
  unfolding circuit
  in_flight-remove m j = ground (arith, get-remove m j k)

  install_keeps :
      (previous : Dict ℕ ℕ) (sets : List RuleSet) (e : Engine)
      → let e' = install previous sets e in
        (e'.rule_sets ≡ e.rule_sets) × (in_flight_at e'.circuits k ≤ in_flight_at e.circuits k)
  unfolding install label_metric reset_runtime
  install_keeps previous [] e = ground arith
  install_keeps previous (rs ∷ more) e =
      let e₁ =
        label_metric
          (if changed (Dict.get previous rs.rule_set_id) rs.version
            then reset_runtime e rs.rule_set_id
            else e)
          rs in
      ground (
        arith,
        install_keeps previous more e₁,
        in_flight-remove e.circuits (circuit_key rs.rule_set_id failure_rate_circuit),
        in_flight-remove (Dict.remove e.circuits (circuit_key rs.rule_set_id failure_rate_circuit))
            (circuit_key rs.rule_set_id slow_call_circuit),
      )

  pub replace_rules-Inv :
      (e : Engine) (sets : List RuleSet)
      → All (AllowsSet k n) sets
      → Inv k n e
      → Inv k n (installed e (replace_rules e sets))
  unfolding replace_rules
  replace_rules-Inv e sets all inv =
      let sorted = sort (map normalized sets) in
      let (same, fewer) =
        install_keeps (versions e.rule_sets []) sorted (record e { rule_sets = sorted }) in
      elim (Option-cases (conflicts [] sets)) [
        | inr (id, e₁) ↦ rw (e₁, replace_rules) inv
        | inl e₁ ↦
            rw (e₁, replace_rules)
              (record {
                allowed = subst (All (AllowsSet k n)) (sym same) (sort-AllowsSet sets all);
                bounded = omega (arith, inv.bounded);
              })
      ]
