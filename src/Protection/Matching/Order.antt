-- ===== src/Protection/Matching/Order.antt =====
-- The order of the rule sets, and what it means for the first one that matches.
use goravel_mine.Base.{
  ℕ, ◌*◌, length, refl, ◌≤◌, ◌≡◌, subst, inl, inr, true, false, none, some, List, [], ◌∷◌, arith,
  Bool-cases, All,
}
use goravel_mine.Base.Texts.{Text}
use mathlib.Core.List.{Perm}
use mathlib.Core.List.Perm
use goravel_mine.Protection.Rule.{Scope, global, service, endpoint, custom, other_scope, RuleSet}
use goravel_mine.Protection.Matching.{
  Request, applies, match_rule_set, scope_base, ends_in_star, specificity, comes_before, insert,
  sort,
}

abbrev NotBefore : RuleSet → RuleSet → Type 0
NotBefore a b = comes_before b a ≡ false

-- No later rule set comes before an earlier one.
abbrev pub IsOrdered : List RuleSet → Type 0
IsOrdered [] = Unit
IsOrdered (x ∷ xs) = All (NotBefore x) xs × IsOrdered xs

comes_before_asym : (a b : RuleSet) → comes_before a b ≡ true → comes_before b a ≡ false
unfolding comes_before
comes_before_asym a b h = ground arith

NotBefore-trans : (a b c : RuleSet) → NotBefore a b → NotBefore b c → NotBefore a c
unfolding comes_before
NotBefore-trans a b c h k = ground arith

-- The scopes in their order: custom, endpoint, service, global, and any other.
unfoldable pub rank : Scope → ℕ
rank custom = 4
rank endpoint = 3
rank service = 2
rank global = 1
rank (other_scope s) = 0

scope_base-rank : (s : Scope) → scope_base s ≡ 100 * rank s
unfolding scope_base rank
scope_base-rank custom = refl
scope_base-rank endpoint = refl
scope_base-rank service = refl
scope_base-rank global = refl
scope_base-rank (other_scope s) = refl

-- A rule set is preferred to another one by its scope; then by a pattern without a star at its end; then by a longer
-- pattern; and then by a smaller id.
pub record Prefers (a b : RuleSet) : Type 0 where
  pub by_scope : rank b.scope ≤ rank a.scope
  pub by_pattern :
      rank b.scope ≡ rank a.scope
      → ends_in_star a.resource_pattern ≡ true
      → ends_in_star b.resource_pattern ≡ true
  pub by_length :
      rank b.scope ≡ rank a.scope
      → ends_in_star a.resource_pattern ≡ ends_in_star b.resource_pattern
      → length b.resource_pattern ≤ length a.resource_pattern
  pub by_id :
      rank b.scope ≡ rank a.scope
      → ends_in_star a.resource_pattern ≡ ends_in_star b.resource_pattern
      → length b.resource_pattern ≡ length a.resource_pattern
      → a.rule_set_id ≤ b.rule_set_id

NotBefore-Prefers : (a b : RuleSet) → NotBefore a b → Prefers a b
unfolding comes_before specificity
NotBefore-Prefers a b h =
    let p = scope_base-rank a.scope in
    let q = scope_base-rank b.scope in
    record {
      by_scope = ground (arith, h, p, q);
      by_pattern = λ r s. ground (arith, h, p, q, r, s);
      by_length = λ r s. ground (arith, h, p, q, r, s);
      by_id = λ r s l. ground (arith, h, p, q, r, s, l);
    }

Prefers-refl : (a : RuleSet) → Prefers a a
Prefers-refl a = record {
  by_scope = omega arith;
  by_pattern = λ r s. s;
  by_length = λ r s. omega arith;
  by_id = λ r s l. omega arith;
}

All-NotBefore :
    (a b : RuleSet) (xs : List RuleSet)
    → NotBefore a b
    → All (NotBefore b) xs
    → All (NotBefore a) xs
All-NotBefore a b [] h all = tt
All-NotBefore a b (x ∷ xs) h all = (NotBefore-trans a b x h all.0, All-NotBefore a b xs h all.1)

All-insert :
    (a r : RuleSet) (xs : List RuleSet)
    → NotBefore a r
    → All (NotBefore a) xs
    → All (NotBefore a) (insert r xs)
unfolding insert
All-insert a r [] h all = (h, tt)
All-insert a r (x ∷ xs) h all = elim (Bool-cases (comes_before x r)) [
  | inl e ↦ rw e (all.0, All-insert a r xs h all.1)
  | inr e ↦ rw e (h, all)
]

insert-IsOrdered : (r : RuleSet) (xs : List RuleSet) → IsOrdered xs → IsOrdered (insert r xs)
unfolding insert
insert-IsOrdered r [] h = (tt, tt)
insert-IsOrdered r (x ∷ xs) h = elim (Bool-cases (comes_before x r)) [
  | inl e ↦ rw e (All-insert x r xs (comes_before_asym x r e) h.0, insert-IsOrdered r xs h.1)
  | inr e ↦ rw e ((e, All-NotBefore r x xs e h.0), h)
]

pub sort-IsOrdered : (xs : List RuleSet) → IsOrdered (sort xs)
unfolding sort
sort-IsOrdered [] = tt
sort-IsOrdered (x ∷ xs) = insert-IsOrdered x (sort xs) (sort-IsOrdered xs)

insert-perm : (r : RuleSet) (xs : List RuleSet) → Perm (insert r xs) (r ∷ xs)
unfolding insert
insert-perm r [] = Perm.refl _
insert-perm r (x ∷ xs) = elim (Bool-cases (comes_before x r)) [
  | inl e ↦ rw e (Perm.trans (Perm.cons x (insert-perm r xs)) (Perm.swap r x xs))
  | inr e ↦ rw e (Perm.refl _)
]

pub sort-perm : (xs : List RuleSet) → Perm (sort xs) xs
unfolding sort
sort-perm [] = Perm.refl _
sort-perm (x ∷ xs) = Perm.trans (insert-perm x (sort xs)) (Perm.cons x (sort-perm xs))

module _ (resource : Text) (req : Request) where
  -- This one is preferred to each of the rule sets that apply.
  abbrev pub IsBest : RuleSet → List RuleSet → Type 0
  IsBest rs sets = All (λ x. applies resource req x ≡ true → Prefers rs x) sets

  All-IsBest : (rs : RuleSet) (sets : List RuleSet) → All (NotBefore rs) sets → IsBest rs sets
  All-IsBest rs [] all = tt
  All-IsBest rs (x ∷ xs) all = ((λ _. NotBefore-Prefers rs x all.0), All-IsBest rs xs all.1)

  pub match-IsBest :
      (sets : List RuleSet) (rs : RuleSet)
      → IsOrdered sets
      → match_rule_set sets resource req ≡ some rs
      → (applies resource req rs ≡ true) × IsBest rs sets
  unfolding match_rule_set
  match-IsBest [] rs ord h = cc
  match-IsBest (x ∷ xs) rs ord h = elim (Bool-cases (applies resource req x)) [
    | inl e ↦
        let p : x ≡ rs = ground (arith, e, h) in
        subst (λ y. (applies resource req y ≡ true) × IsBest y (x ∷ xs)) p
          (e, ((λ _. Prefers-refl x), All-IsBest x xs ord.0))
    | inr e ↦
        let (a, best) = match-IsBest xs rs ord.1 (rw (e, match_rule_set) at h) in
        (a, ((λ t. cc), best))
  ]

  pub match-none :
      (sets : List RuleSet)
      → match_rule_set sets resource req ≡ none
      → All (λ x. applies resource req x ≡ false) sets
  unfolding match_rule_set
  match-none [] h = tt
  match-none (x ∷ xs) h = elim (Bool-cases (applies resource req x)) [
    | inl e ↦ ground (arith, e, h)
    | inr e ↦ (e, match-none xs (rw (e, match_rule_set) at h))
  ]
