-- ===== src/Lifecycle/Versions/Order.antt =====
-- The order of versions, app/modulecatalog/lifecycle_version_policy.go, against an independent one: the
-- numbers of two versions at each index, with 0 behind the last one.
use goravel_mine.Base.{
  ℕ, zero, suc, ◌<◌, ◌≡◌, refl, sym, subst, inl, inr, List, [], ◌∷◌, arith, ltb, if◌then◌else◌,
  ltb→lt, Bool-cases,
}
use goravel_mine.Lifecycle.Versions.{
  padded, Sign, below, same, above, compare_equalized, compare_parts,
}

-- The number at an index.
unfoldable pub part : List ℕ → ℕ → ℕ
part [] i = 0
part (n ∷ ns) zero = n
part (n ∷ ns) (suc i) = part ns i

-- Equal numbers up to an index, and a smaller one there.
pub record Earlier (f g : ℕ → ℕ) : Type 0 where
  pub index : ℕ
  pub less : f index < g index
  pub agree : (j : ℕ) → j < index → f j ≡ g j

unfoldable pub Orders : Sign → (ℕ → ℕ) → (ℕ → ℕ) → Type 0
Orders below f g = Earlier f g
Orders same f g = (i : ℕ) → f i ≡ g i
Orders above f g = Earlier g f

Earlier-suc : (f g : ℕ → ℕ) → f 0 ≡ g 0 → Earlier (λ i. f (suc i)) (λ i. g (suc i)) → Earlier f g
Earlier-suc f g e h = record { index = suc h.index; less = h.less; agree = agrees }
  where
    agrees : (j : ℕ) → j < suc h.index → f j ≡ g j
    agrees zero b = e
    agrees (suc j) b = h.agree j (omega (arith, b))

Earlier-zero : (f g : ℕ → ℕ) → f 0 < g 0 → Earlier f g
Earlier-zero f g h = record { index = 0; less = h; agree = λ j b. absurd (omega (arith, b)) }

Orders-suc :
    (s : Sign) (f g : ℕ → ℕ) → f 0 ≡ g 0 → Orders s (λ i. f (suc i)) (λ i. g (suc i)) → Orders s f g
unfolding Orders
Orders-suc below f g e h = Earlier-suc f g e h
Orders-suc above f g e h = Earlier-suc g f (sym e) h
Orders-suc same f g e h = agrees
  where
    agrees : (i : ℕ) → f i ≡ g i
    agrees zero = e
    agrees (suc i) = h i

-- One round of the loop.
Orders-step :
    (s : Sign) (f g : ℕ → ℕ)
    → Orders s (λ i. f (suc i)) (λ i. g (suc i))
    → Orders (if ltb (g 0) (f 0) then above else if ltb (f 0) (g 0) then below else s) f g
unfolding Orders
Orders-step s f g h = elim (Bool-cases (ltb (g 0) (f 0))) [
  | inl a ↦ rw (Orders, a) (Earlier-zero g f (ltb→lt _ _ a))
  | inr a ↦ elim (Bool-cases (ltb (f 0) (g 0))) [
    | inl b ↦ rw (Orders, a, b) (Earlier-zero f g (ltb→lt _ _ b))
    | inr b ↦ rw (a, b) (Orders-suc s f g (ground (arith, a, b)) h)
  ]
]

padded-nil : (ns : List ℕ) → padded ns [] ≡ ns
unfolding padded
padded-nil [] = refl
padded-nil (n ∷ ns) = refl

shorter-Orders : (ms : List ℕ) → Orders (compare_equalized (padded [] ms) ms) (part []) (part ms)
unfolding compare_equalized padded part Orders
shorter-Orders [] = λ i. refl
shorter-Orders (m ∷ ms) =
    Orders-step (compare_equalized (padded [] ms) ms) (part []) (part (m ∷ ms)) (shorter-Orders ms)

longer-Orders : (ns : List ℕ) → Orders (compare_equalized ns (padded [] ns)) (part ns) (part [])
unfolding compare_equalized padded part Orders
longer-Orders [] = λ i. refl
longer-Orders (n ∷ ns) =
    Orders-step (compare_equalized ns (padded [] ns)) (part (n ∷ ns)) (part []) (longer-Orders ns)

-- The comparison decides the order of versions: a version is below another one if its number is smaller at
-- some index and equal at all before it, and the same if all numbers are equal, where a number that is not
-- written is 0, so that 1.2 and 1.2.0 are the same version.
pub compare_parts-Orders : (l r : List ℕ) → Orders (compare_parts l r) (part l) (part r)
unfolding compare_parts compare_equalized padded part Orders
compare_parts-Orders [] ms =
    subst (λ x. Orders (compare_equalized (padded [] ms) x) (part []) (part ms))
      (sym (padded-nil ms)) (shorter-Orders ms)
compare_parts-Orders (n ∷ ns) [] = longer-Orders (n ∷ ns)
compare_parts-Orders (n ∷ ns) (m ∷ ms) =
    Orders-step (compare_parts ns ms) (part (n ∷ ns)) (part (m ∷ ms)) (compare_parts-Orders ns ms)
