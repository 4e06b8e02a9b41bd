-- ===== src/Protection/Replace/Runtime.antt =====
-- What installing rule sets does to the order of the rule sets and to the runtime state.
use goravel_mine.Base.{
  ℕ, ◌≡◌, refl, sym, ap, subst, ◌≢◌, inr, true, false, not, none, some, List, [], ◌∷◌, map, arith,
  if◌then◌else◌, ◌==◌,
}
use goravel_mine.Base.Texts.{Text, has_prefix}
use mathlib.Core.List.{Perm}
use goravel_mine.Base.Dict
use goravel_mine.Base.Dict.{Dict, get-remove, get-keep}
use goravel_mine.Base.Eq.{list_eq, nat_eq, list_beq, list_beq_iff}
use goravel_mine.Base.Decimal.{numbered, numbered-injective, has_prefix-numbered}
use goravel_mine.Protection.Rule.{
  RuleType, RuleSet, slow_call_circuit, failure_rate_circuit, rate_limit, concurrency, other_type,
  type_name,
}
use goravel_mine.Protection.State.{Engine, circuit_key}
use goravel_mine.Protection.Matching.{Request, applies, match_rule_set, sort}
use goravel_mine.Protection.Matching.Order.{IsBest, match-IsBest, sort-IsOrdered, sort-perm}
use goravel_mine.Protection.Evaluate.{is_circuit_type}
use goravel_mine.Protection.Replace.{
  replace_rules, install, reset_runtime, label_metric, normalized, versions, changed,
}

rule_sets-install :
    (previous : Dict ℕ ℕ) (sets : List RuleSet) (e : Engine)
    → (install previous sets e).rule_sets ≡ e.rule_sets
unfolding install label_metric reset_runtime
rule_sets-install previous [] e = refl
rule_sets-install previous (rs ∷ more) e =
    let e₁ =
      label_metric
        (if changed (Dict.get previous rs.rule_set_id) rs.version
          then reset_runtime e rs.rule_set_id
          else e)
        rs in
    ground (arith, rule_sets-install previous more e₁)

rule_sets-replace_rules :
    (e e' : Engine) (sets : List RuleSet)
    → replace_rules e sets ≡ inr e'
    → e'.rule_sets ≡ sort (map normalized sets)
unfolding replace_rules
rule_sets-replace_rules e e' sets h =
    let sorted = sort (map normalized sets) in
    ground (
      arith,
      h,
      rule_sets-install (versions e.rule_sets []) sorted (record e { rule_sets = sorted }),
    )

-- After rule sets were installed, they are the given ones with their scopes read without the spaces around them and in
-- upper case and their patterns trimmed, each as often as it was given. The one that a call is matched with applies to
-- the call and is preferred to every other one that applies: by its scope, custom before endpoint before service before
-- global before any other; then by a pattern without a star at its end; then by a longer pattern; then by a smaller id.
pub replace_rules-IsBest :
    (e e' : Engine) (sets : List RuleSet) (resource : Text) (req : Request) (rs : RuleSet)
    → replace_rules e sets ≡ inr e'
    → match_rule_set e'.rule_sets resource req ≡ some rs
    → Perm e'.rule_sets (map normalized sets)
      × (applies resource req rs ≡ true)
      × IsBest resource req rs e'.rule_sets
replace_rules-IsBest e e' sets resource req rs h found =
    let same = rule_sets-replace_rules e e' sets h in
    let (a, best) =
      match-IsBest resource req (sort (map normalized sets)) rs (sort-IsOrdered _)
        (rw same at found) in
    (
      subst (λ l. Perm l (map normalized sets)) (sym same) (sort-perm (map normalized sets)),
      a,
      subst (IsBest resource req rs) (sym same) best,
    )

names_differ :
    (list_beq (type_name slow_call_circuit) (type_name failure_rate_circuit) ≡ false)
    × (list_beq (type_name failure_rate_circuit) (type_name slow_call_circuit) ≡ false)
unfolding type_name list_beq
names_differ = (refl, refl)

type_name-injective :
    (s t : RuleType)
    → is_circuit_type s ≡ true
    → is_circuit_type t ≡ true
    → type_name s ≡ type_name t
    → s ≡ t
unfolding is_circuit_type
type_name-injective slow_call_circuit slow_call_circuit h k e = refl
type_name-injective failure_rate_circuit failure_rate_circuit h k e = refl
type_name-injective slow_call_circuit failure_rate_circuit h k e =
    cc (names_differ.0, (list_beq_iff _ _).1 e)
type_name-injective failure_rate_circuit slow_call_circuit h k e =
    cc (names_differ.1, (list_beq_iff _ _).1 e)
type_name-injective rate_limit t h k e = cc
type_name-injective concurrency t h k e = cc
type_name-injective (other_type x) t h k e = cc
type_name-injective slow_call_circuit rate_limit h k e = cc
type_name-injective slow_call_circuit concurrency h k e = cc
type_name-injective slow_call_circuit (other_type x) h k e = cc
type_name-injective failure_rate_circuit rate_limit h k e = cc
type_name-injective failure_rate_circuit concurrency h k e = cc
type_name-injective failure_rate_circuit (other_type x) h k e = cc

circuit_key-injective :
    (i j : ℕ) (s t : RuleType)
    → is_circuit_type s ≡ true
    → is_circuit_type t ≡ true
    → circuit_key i s ≡ circuit_key j t
    → (i ≡ j) × (s ≡ t)
unfolding circuit_key
circuit_key-injective i j s t h k e =
    let (p, q) = numbered-injective i j (type_name s) (type_name t) e in
    (p, type_name-injective s t h k q)

key_beq_own :
    (i j : ℕ) (t : RuleType)
    → is_circuit_type t ≡ true
    → list_beq (circuit_key i t) (circuit_key j t) ≡ (i == j)
key_beq_own i j t h = ground (
  arith,
  list_beq_iff (circuit_key i t) (circuit_key j t),
  circuit_key-injective i j t t h h,
  ap (λ k. circuit_key k t) {x = i} {y = j},
)

keys_apart :
    (i j : ℕ) (s t : RuleType)
    → is_circuit_type s ≡ true
    → is_circuit_type t ≡ true
    → s ≢ t
    → list_beq (circuit_key i s) (circuit_key j t) ≡ false
keys_apart i j s t h k ne =
    ground
      (arith, list_beq_iff (circuit_key i s) (circuit_key j t), circuit_key-injective i j s t h k)

reset_rates :
    (e : Engine) (id j : ℕ) (name : Text)
    → Dict.get (reset_runtime e id).rates (numbered j name)
      ≡ (if id == j then none else Dict.get e.rates (numbered j name))
unfolding reset_runtime
reset_rates e id j name = ground (
  arith,
  get-keep (λ k. not (has_prefix k (numbered id []))) e.rates (numbered j name),
  has_prefix-numbered id j name,
)

reset_slots :
    (e : Engine) (id j : ℕ)
    → Dict.get (reset_runtime e id).concurrent j
      ≡ (if id == j then none else Dict.get e.concurrent j)
unfolding reset_runtime
reset_slots e id j = ground (arith, get-remove e.concurrent id j)

reset_circuits :
    (e : Engine) (id j : ℕ) (t : RuleType)
    → is_circuit_type t ≡ true
    → Dict.get (reset_runtime e id).circuits (circuit_key j t)
      ≡ (if id == j then none else Dict.get e.circuits (circuit_key j t))
unfolding reset_runtime is_circuit_type
reset_circuits e id j rate_limit h = cc
reset_circuits e id j concurrency h = cc
reset_circuits e id j (other_type x) h = cc
reset_circuits e id j slow_call_circuit h =
    let f = circuit_key id failure_rate_circuit in
    ground (
      arith,
      get-remove (Dict.remove e.circuits f) (circuit_key id slow_call_circuit)
          (circuit_key j slow_call_circuit),
      get-remove e.circuits f (circuit_key j slow_call_circuit),
      key_beq_own id j slow_call_circuit refl,
      keys_apart id j failure_rate_circuit slow_call_circuit refl refl (λ e. cc),
    )
reset_circuits e id j failure_rate_circuit h =
    let f = circuit_key id failure_rate_circuit in
    ground (
      arith,
      get-remove (Dict.remove e.circuits f) (circuit_key id slow_call_circuit)
          (circuit_key j failure_rate_circuit),
      get-remove e.circuits f (circuit_key j failure_rate_circuit),
      key_beq_own id j failure_rate_circuit refl,
      keys_apart id j slow_call_circuit failure_rate_circuit refl refl (λ e. cc),
    )

-- Resetting a rule set drops exactly its own circuits and rate windows: those of another id, whose
-- decimal form may begin with the same digits, stay as they are.
pub reset_runtime-exact :
    (e : Engine) (id j : ℕ) (t : RuleType) (name : Text)
    → is_circuit_type t ≡ true
    → (Dict.get (reset_runtime e id).circuits (circuit_key j t)
        ≡ (if id == j then none else Dict.get e.circuits (circuit_key j t)))
      × (Dict.get (reset_runtime e id).rates (numbered j name)
          ≡ (if id == j then none else Dict.get e.rates (numbered j name)))
      × (Dict.get (reset_runtime e id).concurrent j
          ≡ (if id == j then none else Dict.get e.concurrent j))
reset_runtime-exact e id j t name h =
    (reset_circuits e id j t h, reset_rates e id j name, reset_slots e id j)
