-- ===== src/Lifecycle/Versions/Meets.antt =====
-- What a constraint of app/modulecatalog/lifecycle_version_policy.go asks of a version, by the order of the numbers of
-- the two versions at each index.
use goravel_mine.Base.{
  ℕ, ◌<◌, ◌≡◌, refl, sym, ap, ◌∙◌, subst, ◌⊎◌, inl, inr, Bool, true, false, Option, none, some,
  List, [], ◌∷◌, arith, ltb, if◌then◌else◌, ltb→lt, Bool-cases, Option-cases, any, All,
}
use goravel_mine.Base.Texts.{Text, trim_space, strip_prefix}
use goravel_mine.Base.Eq.{nat_eq, list_eq, list_beq, list_beq_iff}
use goravel_mine.Base.Texts.{Text, trim_space, trim_left, trim_right, strip_prefix}
use goravel_mine.Base.Eq.{nat_eq, list_eq, list_beq, list_beq_iff}
use goravel_mine.Lifecycle.Versions.{
  Sign, below, same, above, Operator, at_least, at_most, more_than, less_than, equal_to,
  compare_result, compare_parts, compare_versions, parse_version, split_operator, satisfies_single,
  satisfies_all, split_constraints, version_satisfies, cut_at,
}
use goravel_mine.Lifecycle.Versions.Order.{part, Earlier, Orders, compare_parts-Orders}

-- What an operator says of two versions.
unfoldable pub Compares : Operator → (ℕ → ℕ) → (ℕ → ℕ) → Type 0
Compares at_least f g = Earlier g f ⊎ ((i : ℕ) → f i ≡ g i)
Compares at_most f g = Earlier f g ⊎ ((i : ℕ) → f i ≡ g i)
Compares more_than f g = Earlier g f
Compares less_than f g = Earlier f g
Compares equal_to f g = (i : ℕ) → f i ≡ g i

-- Both versions are versions, and the first one is as the operator says to the second.
pub record Meets (version constraint : Text) : Type 0 where
  pub left : List ℕ
  pub left_parsed : parse_version version ≡ some left
  pub right : List ℕ
  pub right_parsed : parse_version (split_operator constraint).1 ≡ some right
  pub compares : Compares (split_operator constraint).0 (part left) (part right)

abbrev pub Filled : List Text → Type 0
Filled [] = ⊥
Filled (p ∷ parts) = Unit

-- No constraint, or some, each of which the version meets.
abbrev pub Fits : Text → Text → Type 0
Fits version constraint =
    (list_beq (trim_space constraint) [] ≡ true)
    ⊎ (Filled (split_constraints constraint) × All (Meets version) (split_constraints constraint))

Earlier-not_same : (f g : ℕ → ℕ) → Earlier f g → ((i : ℕ) → f i ≡ g i) → ⊥
Earlier-not_same f g e s = omega (arith, e.less, s e.index)

Earlier-asym : (f g : ℕ → ℕ) → Earlier f g → Earlier g f → ⊥
Earlier-asym f g e h = elim (Bool-cases (ltb e.index h.index)) [
  | inl b ↦ omega (arith, e.less, h.agree e.index (ltb→lt _ _ b))
  | inr b ↦ elim (Bool-cases (ltb h.index e.index)) [
    | inl c ↦ omega (arith, h.less, e.agree h.index (ltb→lt _ _ c))
    | inr c ↦
        let q : e.index ≡ h.index = ground (arith, b, c) in
        let k : f e.index < g e.index = e.less in
        let l : g e.index < f e.index = subst (λ i. g i < f i) (sym q) h.less in omega (arith, k, l)
  ]
]

compare_result-Compares :
    (s : Sign) (op : Operator) (f g : ℕ → ℕ)
    → Orders s f g
    → compare_result s op ≡ true
    → Compares op f g
unfolding compare_result Compares Orders
compare_result-Compares below at_least f g o h = cc
compare_result-Compares below at_most f g o h = inl o
compare_result-Compares below more_than f g o h = cc
compare_result-Compares below less_than f g o h = o
compare_result-Compares below equal_to f g o h = cc
compare_result-Compares same at_least f g o h = inr o
compare_result-Compares same at_most f g o h = inr o
compare_result-Compares same more_than f g o h = cc
compare_result-Compares same less_than f g o h = cc
compare_result-Compares same equal_to f g o h = o
compare_result-Compares above at_least f g o h = inl o
compare_result-Compares above at_most f g o h = cc
compare_result-Compares above more_than f g o h = o
compare_result-Compares above less_than f g o h = cc
compare_result-Compares above equal_to f g o h = cc

Compares-compare_result :
    (s : Sign) (op : Operator) (f g : ℕ → ℕ)
    → Orders s f g
    → Compares op f g
    → compare_result s op ≡ true
unfolding compare_result Compares Orders
Compares-compare_result below at_least f g o (inl h) = absurd (Earlier-asym f g o h)
Compares-compare_result below at_least f g o (inr h) = absurd (Earlier-not_same f g o h)
Compares-compare_result below at_most f g o h = refl
Compares-compare_result below more_than f g o h = absurd (Earlier-asym f g o h)
Compares-compare_result below less_than f g o h = refl
Compares-compare_result below equal_to f g o h = absurd (Earlier-not_same f g o h)
Compares-compare_result same at_least f g o h = refl
Compares-compare_result same at_most f g o h = refl
Compares-compare_result same more_than f g o h = absurd (Earlier-not_same g f h (λ i. sym (o i)))
Compares-compare_result same less_than f g o h = absurd (Earlier-not_same f g h o)
Compares-compare_result same equal_to f g o h = refl
Compares-compare_result above at_least f g o h = refl
Compares-compare_result above at_most f g o (inl h) = absurd (Earlier-asym f g h o)
Compares-compare_result above at_most f g o (inr h) =
    absurd (Earlier-not_same g f o (λ i. sym (h i)))
Compares-compare_result above more_than f g o h = refl
Compares-compare_result above less_than f g o h = absurd (Earlier-asym f g h o)
Compares-compare_result above equal_to f g o h = absurd (Earlier-not_same g f o (λ i. sym (h i)))

parse_version-nil : parse_version [] ≡ none
unfolding parse_version trim_space trim_left trim_right strip_prefix cut_at any list_beq
parse_version-nil = refl

target-filled : (t : Text) (r : List ℕ) → parse_version t ≡ some r → list_beq t [] ≡ false
target-filled t r h = elim (Bool-cases (list_beq t [])) [
  | inl e ↦
      let q : t ≡ [] = (list_beq_iff t []).0 e in
      let n : none ≡ some r = sym parse_version-nil ∙ (sym (ap parse_version q) ∙ h) in cc n
  | inr e ↦ e
]

satisfies_single-Meets : (v c : Text) → satisfies_single v c ≡ some true → Meets v c
unfolding satisfies_single compare_versions
satisfies_single-Meets v c h = elim (Bool-cases (list_beq (split_operator c).1 [])) [
  | inl e ↦ ground (arith, h, e)
  | inr e ↦ elim (Option-cases (parse_version v)) [
    | inl p ↦ ground (arith, h, e, p)
    | inr (l, p) ↦ elim (Option-cases (parse_version (split_operator c).1)) [
      | inl q ↦ ground (arith, h, e, p, q)
      | inr (r, q) ↦ record {
        left = l;
        left_parsed = p;
        right = r;
        right_parsed = q;
        compares =
            compare_result-Compares (compare_parts l r) (split_operator c).0 (part l) (part r)
              (compare_parts-Orders l r) (ground (arith, h, e, p, q));
      }
    ]
  ]
]

Meets-satisfies_single : (v c : Text) → Meets v c → satisfies_single v c ≡ some true
unfolding satisfies_single compare_versions
Meets-satisfies_single v c m =
    rw
      (
        satisfies_single,
        compare_versions,
        target-filled _ m.right m.right_parsed,
        m.left_parsed,
        m.right_parsed,
      )
      (ap some (
        Compares-compare_result (compare_parts m.left m.right) (split_operator c).0 (part m.left)
          (part m.right) (compare_parts-Orders m.left m.right) m.compares))

satisfies_all-Meets :
    (v : Text) (parts : List Text) → satisfies_all v parts ≡ some true → All (Meets v) parts
unfolding satisfies_all
satisfies_all-Meets v [] h = tt
satisfies_all-Meets v (p ∷ parts) h = elim (Option-cases (satisfies_single v p)) [
  | inl e ↦ ground (arith, h, e)
  | inr (true, e) ↦
      (satisfies_single-Meets v p e, satisfies_all-Meets v parts (ground (arith, h, e)))
  | inr (false, e) ↦ ground (arith, h, e)
]

Meets-satisfies_all :
    (v : Text) (parts : List Text) → All (Meets v) parts → satisfies_all v parts ≡ some true
unfolding satisfies_all
Meets-satisfies_all v [] h = refl
Meets-satisfies_all v (p ∷ parts) h =
    rw (satisfies_all, Meets-satisfies_single v p h.0) (Meets-satisfies_all v parts h.1)

decided :
    (v : Text) (blank : Bool) (parts : List Text)
    → ◌≡◌ {A = Option Bool}
        (elim parts [ [] ↦ if blank then some true else none | p ∷ ps ↦ satisfies_all v (p ∷ ps) ])
        (some true)
    → (blank ≡ true) ⊎ (Filled parts × All (Meets v) parts)
decided v true [] h = inl refl
decided v false [] h = cc
decided v blank (p ∷ parts) h = inr (tt, satisfies_all-Meets v (p ∷ parts) h)

-- What the code accepts of a version is what fits.
pub version_satisfies-Fits : (v c : Text) → version_satisfies v c ≡ some true → Fits v c
unfolding version_satisfies
version_satisfies-Fits v c h = decided v (list_beq (trim_space c) []) (split_constraints c) h

all_met :
    (v : Text) (blank : Bool) (parts : List Text)
    → Filled parts
    → All (Meets v) parts
    → ◌≡◌ {A = Option Bool}
        (elim parts [ [] ↦ if blank then some true else none | p ∷ ps ↦ satisfies_all v (p ∷ ps) ])
        (some true)
all_met v blank [] f h = absurd f
all_met v blank (p ∷ parts) f h = Meets-satisfies_all v (p ∷ parts) h

pub Meets-version_satisfies :
    (v c : Text)
    → Filled (split_constraints c)
    → All (Meets v) (split_constraints c)
    → version_satisfies v c ≡ some true
unfolding version_satisfies
Meets-version_satisfies v c f h = all_met v (list_beq (trim_space c) []) (split_constraints c) f h
