-- ===== src/Registry/Kernel/Valid.antt =====
-- What validateDependencies, app/modules/registry_kernel.go, guarantees.
use goravel_mine.Base.{
  ++-none, ◌≡◌, refl, sym, ap, ◌∙◌, subst, inl, inr, Bool, true, false, not, Option, some, List, [],
  ◌∷◌, arith, Bool-cases, select,
}
use goravel_mine.Base.Texts.{Text}
use goravel_mine.Base.Eq.{nat_eq, list_eq, list_beq}
use goravel_mine.Base.Members.{member}
use goravel_mine.Base.{Memᴰ, head, tail}
use goravel_mine.Lifecycle.Versions.{Dependency}
use goravel_mine.Registry.Sort.{ModuleInfo, ids, find_module}
use goravel_mine.Registry.Sort.Topological.{Ordered}
use goravel_mine.Registry.Sort.Cycle.{find-distinct}
use goravel_mine.Registry.Kernel.{
  Kernel, exclude_disabled, exclude_with_reasons, sorted_or_original, kernel_of, new_kernel,
  missing_errors, all_missing_errors, validate_dependencies,
}
use goravel_mine.Registry.Kernel.Members.{
  Memᴰ-select, select-Memᴰ, ids-Memᴰ, Memᴰ-ids, All-at, sorted-cases, Memᴰ-sorted,
}
use goravel_mine.Registry.Disabled.{Reasons, is_off, explicit_reasons}
use goravel_mine.Registry.Disabled.Named.{Off, named, required_off}
use goravel_mine.Registry.Disabled.Fixpoint.{Final}
use goravel_mine.Registry.Kernel.Active.{WellNamed, built}

-- What a validation without errors says of a module's dependencies.
missing_errors-none :
    (id : Text) (registered : List Text) (disabled : Text → Bool) (ds : List Dependency)
    (d : Dependency)
    → missing_errors id registered disabled ds ≡ []
    → Memᴰ d ds
    → d.required ≡ true
    → list_beq d.id [] ≡ false
    → member d.id registered ≡ true
unfolding missing_errors
missing_errors-none id registered disabled [] d h i q n = elim i [ ]
missing_errors-none id registered disabled (x ∷ ds) d h (head e) q n = ground (
  arith,
  h,
  q,
  n,
  ap (λ y. y.required) e,
  ap (λ y. list_beq y.id []) e,
  ap (λ y. member y.id registered) e,
)
missing_errors-none id registered disabled (x ∷ ds) d h (tail i) q n =
    missing_errors-none id registered disabled ds d (ground (arith, h)) i q n

all_missing-none :
    (ms : List ModuleInfo) (registered : List Text) (disabled : Text → Bool) (m : ModuleInfo)
    → all_missing_errors ms registered disabled ≡ []
    → Memᴰ m ms
    → missing_errors m.id registered disabled m.dependencies ≡ []
unfolding all_missing_errors
all_missing-none [] registered disabled m h i = elim i [ ]
all_missing-none (x ∷ ms) registered disabled m h (head e) =
    subst (λ y. missing_errors y.id registered disabled y.dependencies ≡ []) (sym e)
      (++-none _ _ h).0
all_missing-none (x ∷ ms) registered disabled m h (tail i) =
    all_missing-none ms registered disabled m (++-none _ _ h).1 i

some-injective : (n m : ModuleInfo) → ◌≡◌ {A = Option ModuleInfo} (some n) (some m) → n ≡ m
some-injective n m h = cc

-- In a list that has an order each id is that of one module.
same_in_order :
    (ms order : List ModuleInfo) (m n : ModuleInfo)
    → Ordered ms order
    → Memᴰ m ms
    → Memᴰ n order
    → n.id ≡ m.id
    → n ≡ m
same_in_order ms order m n o i j e =
    let f = All-at _ order n o.inside j in
    let g = All-at _ ms m (find-distinct ms o.unique) i in
    some-injective n m (sym f ∙ ap (λ x. find_module x ms) e ∙ g)

select-all :
    (p : ModuleInfo → Bool) (ms : List ModuleInfo)
    → ((m : ModuleInfo) → Memᴰ m ms → p m ≡ true)
    → select p ms ≡ ms
unfolding select
select-all p [] h = refl
select-all p (m ∷ ms) h =
    rw (h m (head refl)) (ap (λ xs. m ∷ xs) (select-all p ms (λ n i. h n (tail i))))

-- Every module that is not disabled is registered, once the modules have an order.
registered-Memᴰ :
    (ms : List ModuleInfo) (m : ModuleInfo) → Memᴰ m ms → Memᴰ m (sorted_or_original ms)
registered-Memᴰ ms m i = elim (sorted-cases ms) [
  | inl e ↦ subst (Memᴰ m) (sym e) i
  | inr o ↦
      let (n, j, e) = ids-Memᴰ (sorted_or_original ms) m.id (All-at _ ms m o.complete i) in
      subst (λ x. Memᴰ x (sorted_or_original ms)) (same_in_order ms _ m n o i j e) j
]

-- No registered module is off, where each has what it requires.
registered-on :
    (source : List ModuleInfo) (disabled : Text → Bool) (id : Text)
    → WellNamed source
    → all_missing_errors
        (sorted_or_original (exclude_disabled source disabled))
        (ids (sorted_or_original (exclude_disabled source disabled)))
        disabled
      ≡ []
    → Off source disabled id
    → member id (ids (sorted_or_original (exclude_disabled source disabled))) ≡ true
    → ⊥
unfolding exclude_disabled
registered-on source disabled id w v (named m i d) r =
    let (n, j, e) = ids-Memᴰ _ m.id r in
    let (_, k) = Memᴰ-select (λ m. not (disabled m.id)) source n (Memᴰ-sorted _ n j) in
    let d' = ap disabled e ∙ d in cc
registered-on source disabled id w v (required_off m d i j q o) r =
    let registered = sorted_or_original (exclude_disabled source disabled) in
    let (n, j', e) = ids-Memᴰ registered m.id r in
    let (_, k) = Memᴰ-select (λ m. not (disabled m.id)) source n (Memᴰ-sorted _ n j') in
    let k' = subst (λ x. not (disabled x) ≡ true) e k in
    let kept = registered-Memᴰ _ m (select-Memᴰ (λ m. not (disabled m.id)) source m i k') in
    registered-on source disabled d.id w v o (
      missing_errors-none m.id (ids registered) disabled m.dependencies d
        (all_missing-none registered (ids registered) disabled m v kept) j q (w m i d j))

kernel-valid :
    (source : List ModuleInfo) (disabled : Text → Bool) (r : Reasons)
    → WellNamed source
    → Final source disabled (explicit_reasons source disabled []) r
    → validate_dependencies (kernel_of source disabled r) ≡ []
    → (kernel_of source disabled r).active ≡ (kernel_of source disabled r).registered
unfolding exclude_with_reasons validate_dependencies
kernel-valid source disabled r w f v = select-all _ _ (λ m i. elim (Bool-cases (is_off r m.id)) [
  | inl e ↦
      absurd
        (registered-on source disabled m.id w (++-none _ _ v).0 (f.sound m.id e) (Memᴰ-ids _ m i))
  | inr e ↦ rw e refl
])

-- Where every dependency has an id and validateDependencies finds no error, the active modules are
-- the registered ones.
pub new_kernel-valid :
    (source : List ModuleInfo) (disabled : Text → Bool) (k : Kernel)
    → WellNamed source
    → new_kernel source disabled ≡ some k
    → validate_dependencies k ≡ []
    → k.active ≡ k.registered
new_kernel-valid source disabled k w h v =
    let b = built source disabled k h in
    subst (λ k. k.active ≡ k.registered) b.same
      (kernel-valid source disabled b.reasons w b.final
        (subst (λ k. validate_dependencies k ≡ []) (sym b.same) v))
