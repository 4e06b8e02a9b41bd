-- ===== src/Protection/Evaluate/Slots.antt =====
-- The concurrency limit: what a call that is let through and one that is refused do to the number
-- of calls under way.
use goravel_mine.Base.{
  ℕ, ◌+◌, ◌-◌, ◌≤◌, ◌<◌, ◌≡◌, refl, subst, inl, inr, Bool, true, false, some, List, [], ◌∷◌, arith,
  leb, Bool-cases, length, select, All,
}
use goravel_mine.Base.Texts.{Text, trim_space}
use goravel_mine.Base.Dict
use goravel_mine.Base.Dict.{Dict, get_or-put_self}
use goravel_mine.Base.Eq.{list_eq, nat_eq}
use goravel_mine.Protection.Rule.{Rule, RuleSet, concurrency, same_type}
use goravel_mine.Protection.State.{Engine}
use goravel_mine.Protection.Matching.{Request, match_rule_set}
use goravel_mine.Protection.Evaluate.{
  Run, Outcome, pass, reject, ◌>>=◌, each, loops, circuit_step, rate_step, concurrency_step, admit,
  evaluate, evaluate_matched, start, rate_key, finish, write_back,
}
use goravel_mine.Protection.Evaluate.Loops.{Holds, bind-Holds, each-Holds}

abbrev pub limits_concurrency : Rule → Bool
limits_concurrency rule = same_type rule.type concurrency

-- The slots that one call takes.
unfoldable pub slots : List Rule → ℕ
unfolding select
slots rules = length (select limits_concurrency rules)

-- The number of calls under way at a rule set.
unfoldable pub under_way : Engine → ℕ → ℕ
under_way e id = Dict.get_or e.concurrent id 0

abbrev pub HasRoom : ℕ → Rule → Type 0
HasRoom n rule = limits_concurrency rule ≡ true → n < rule.max_concurrency

module _ (n : ℕ) where
  abbrev Same : Run → Type 0
  Same r = r.concurrent ≡ n

  circuit_step-Same :
      (now id : ℕ) (rule : Rule) (r : Run) → Same r → Holds Same Same (circuit_step now id rule r)
  unfolding circuit_step admit
  circuit_step-Same now id rule r h = ground arith

  rate_step-Same :
      (now : ℕ) (key : Text) (rule : Rule) (r : Run)
      → Same r
      → Holds Same Same (rate_step now key rule r)
  unfolding rate_step
  rate_step-Same now key rule r h = ground arith

-- What the third loop does from `n` calls under way on, and all three.
abbrev Counted : ℕ → List Rule → Outcome → Type 0
Counted n rules (pass r) = (r.concurrent ≡ n + slots rules) × All (HasRoom n) rules
Counted n rules (reject x s r) = (n ≤ r.concurrent) × (r.concurrent < n + slots rules)

abbrev Limited : ℕ → List Rule → Outcome → Type 0
Limited n rules (pass r) = (r.concurrent ≡ n + slots rules) × All (HasRoom n) rules
Limited n rules (reject x s r) = (n ≤ r.concurrent) × (r.concurrent ≤ n + (slots rules - 1))

Counted→Limited : (n : ℕ) (rules : List Rule) (o : Outcome) → Counted n rules o → Limited n rules o
Counted→Limited n rules (pass r) h = h
Counted→Limited n rules (reject x s r) h = omega arith

HasRoom-mono : (n m : ℕ) (rules : List Rule) → n ≤ m → All (HasRoom m) rules → All (HasRoom n) rules
HasRoom-mono n m [] h a = tt
HasRoom-mono n m (x ∷ xs) h a = (λ e. omega (arith, a.0 e), HasRoom-mono n m xs h a.1)

Counted-cons :
    (n : ℕ) (x : Rule) (xs : List Rule) (o : Outcome)
    → limits_concurrency x ≡ true
    → n < x.max_concurrency
    → Counted (n + 1) xs o
    → Counted n (x ∷ xs) o
unfolding slots
Counted-cons n x xs (pass r) e room h =
    (ground arith, (λ _. room, HasRoom-mono n (n + 1) xs (omega arith) h.1))
Counted-cons n x xs (reject y s r) e room h = ground arith

Counted-skip :
    (n : ℕ) (x : Rule) (xs : List Rule) (o : Outcome)
    → limits_concurrency x ≡ false
    → Counted n xs o
    → Counted n (x ∷ xs) o
unfolding slots
Counted-skip n x xs (pass r) e h = (ground arith, (λ t. cc, h.1))
Counted-skip n x xs (reject y s r) e h = ground arith

each-Counted :
    (rules : List Rule) (r : Run) → Counted r.concurrent rules (each concurrency_step rules r)
unfolding each concurrency_step slots
each-Counted [] r = (omega arith, tt)
each-Counted (x ∷ xs) r = elim (Bool-cases (limits_concurrency x)) [
  | inl e ↦ elim (Bool-cases (leb x.max_concurrency r.concurrent)) [
    | inl full ↦ rw e (rw full (ground arith))
    | inr room ↦ rw e (
        rw room (
          Counted-cons r.concurrent x xs _ e (ground arith)
            (each-Counted xs (record r { concurrent = r.concurrent + 1 }))))
  ]
  | inr e ↦ rw e (Counted-skip r.concurrent x xs _ e (each-Counted xs r))
]

module _ (now id : ℕ) (key : Text) (rules : List Rule) (n : ℕ) where
  then-Limited :
      (o : Outcome)
      → Holds (Same n) (Same n) o
      → Limited n rules (o >>= each concurrency_step rules)
  then-Limited (pass r) h =
      Counted→Limited n rules _
        (subst (λ m. Counted m rules (each concurrency_step rules r)) h (each-Counted rules r))
  then-Limited (reject x s r) h = omega arith

  loops-Limited : (r : Run) → Same n r → Limited n rules (loops now id key rules r)
  unfolding loops
  loops-Limited r h =
      then-Limited (each (circuit_step now id) rules r >>= each (rate_step now key) rules) (
        bind-Holds (Same n) (Same n) (each (circuit_step now id) rules r)
          (each (rate_step now key) rules)
          (each-Holds (Same n) (Same n) (circuit_step now id) rules (circuit_step-Same n now id) r
            h)
          (each-Holds (Same n) (Same n) (rate_step now key) rules (rate_step-Same n now key)))

-- The calls under way at the rule set after the call.
abbrev SlotsAfter : ℕ → List Rule → ℕ → Bool → Type 0
SlotsAfter n rules m true = (m ≡ n + slots rules) × All (HasRoom n) rules
SlotsAfter n rules m false = (n ≤ m) × (m ≤ n + (slots rules - 1))

finish-SlotsAfter :
    (n : ℕ) (e : Engine) (rs : RuleSet) (resource : Text) (o : Outcome)
    → Limited n rs.rules o
    → let (e', d) = finish e rs resource o in
      SlotsAfter n rs.rules (under_way e' rs.rule_set_id) d.allowed
unfolding finish write_back under_way
finish-SlotsAfter n e rs resource (pass r) h =
    rw (get_or-put_self e.concurrent rs.rule_set_id r.concurrent 0) h
finish-SlotsAfter n e rs resource (reject x s r) h =
    rw (get_or-put_self e.concurrent rs.rule_set_id r.concurrent 0) h

module _ (e : Engine) (now : ℕ) (resource : Text) (req : Request) (rs : RuleSet)
    (found : match_rule_set e.rule_sets (trim_space resource) req ≡ some rs) where
  evaluate-SlotsAfter :
      let (e', d) = evaluate e now resource req in
      SlotsAfter (under_way e rs.rule_set_id) rs.rules (under_way e' rs.rule_set_id) d.allowed
  unfolding evaluate evaluate_matched start under_way
  evaluate-SlotsAfter =
      rw (found, evaluate)
        (finish-SlotsAfter (under_way e rs.rule_set_id) e rs resource _ (
          loops-Limited now rs.rule_set_id (rate_key rs.rule_set_id resource req.rate_limit_key)
            rs.rules (under_way e rs.rule_set_id) (start e rs) refl))

  -- A call that is let through found room under the limit of every concurrency rule, and takes one
  -- slot for each such rule.
  pub evaluate-slots :
      (evaluate e now resource req).1.allowed ≡ true
      → (under_way (evaluate e now resource req).0 rs.rule_set_id
          ≡ under_way e rs.rule_set_id + slots rs.rules)
        × All (HasRoom (under_way e rs.rule_set_id)) rs.rules
  evaluate-slots allowed = rw allowed at evaluate-SlotsAfter

  -- With at most one concurrency rule a refused call takes no slot.
  pub evaluate-refused_slots :
      slots rs.rules ≤ 1
      → (evaluate e now resource req).1.allowed ≡ false
      → under_way (evaluate e now resource req).0 rs.rule_set_id ≡ under_way e rs.rule_set_id
  evaluate-refused_slots single refused =
      let h : SlotsAfter _ rs.rules _ false = rw refused at evaluate-SlotsAfter in omega arith
