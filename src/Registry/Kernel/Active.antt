-- ===== src/Registry/Kernel/Active.antt =====
-- The active modules of the registry kernel, app/modules/registry_kernel.go.
use goravel_mine.Base.{
  ◌≡◌, sym, ap, ◌∙◌, subst, inl, inr, Bool, true, false, not, none, some, List, [], arith,
  Bool-cases,
}
use goravel_mine.Base.Texts.{Text}
use goravel_mine.Base.Eq.{nat_eq, list_eq}
use goravel_mine.Base.Members.{member}
use goravel_mine.Base.{Memᴰ}
use goravel_mine.Lifecycle.Versions.{Dependency}
use goravel_mine.Registry.Sort.{ModuleInfo, ids}
use goravel_mine.Registry.Kernel.{
  Kernel, exclude_disabled, exclude_with_reasons, sorted_or_original, kernel_of, new_kernel,
}
use goravel_mine.Registry.Kernel.Members.{
  Memᴰ-select, select-Memᴰ, ids-Memᴰ, Memᴰ-ids, All-at, Memᴰ-sorted, member-sorted,
}
use goravel_mine.Registry.Disabled.{Reasons, is_off, explicit_reasons}
use goravel_mine.Registry.Disabled.Named.{explicit-named}
use goravel_mine.Registry.Disabled.Fixpoint.{Final, Closed-on, WithIds, disabled_reasons-Final}

-- All dependencies of the modules have ids.
abbrev pub WellNamed : List ModuleInfo → Type 0
WellNamed source = (m : ModuleInfo) → Memᴰ m source → WithIds m.dependencies

-- A kernel is made of reasons that are complete.
pub record Built (source : List ModuleInfo) (disabled : Text → Bool) (k : Kernel) : Type 0 where
  pub reasons : Reasons
  pub same : kernel_of source disabled reasons ≡ k
  pub final : Final source disabled (explicit_reasons source disabled []) reasons

pub built :
    (source : List ModuleInfo) (disabled : Text → Bool) (k : Kernel)
    → new_kernel source disabled ≡ some k
    → Built source disabled k
unfolding new_kernel
built source disabled k h =
    let (r, e, f) = disabled_reasons-Final source disabled in
    let q =
      sym (ap (λ o. elim o [ none ↦ none | some s ↦ some (kernel_of source disabled s) ]) e) ∙ h in
    record { reasons = r; same = cc; final = f }

-- A module that is not disabled is registered, one with its id at least.
registered-member :
    (source : List ModuleInfo) (disabled : Text → Bool) (id : Text)
    → member id (ids source) ≡ true
    → disabled id ≡ false
    → member id (ids (sorted_or_original (exclude_disabled source disabled))) ≡ true
unfolding exclude_disabled
registered-member source disabled id i n =
    let (m, j, e) = ids-Memᴰ source id i in
    let kept =
      select-Memᴰ (λ m. not (disabled m.id)) source m j (ground (arith, n, ap disabled e)) in
    member-sorted (exclude_disabled source disabled) id
      (subst (λ x. member x (ids (exclude_disabled source disabled)) ≡ true) e (Memᴰ-ids _ m kept))

-- What has no reason is not disabled.
on-enabled :
    (source : List ModuleInfo) (disabled : Text → Bool) (r : Reasons) (id : Text)
    → Final source disabled (explicit_reasons source disabled []) r
    → member id (ids source) ≡ true
    → is_off r id ≡ false
    → disabled id ≡ false
on-enabled source disabled r id f i n = elim (Bool-cases (disabled id)) [
  | inr e ↦ e
  | inl e ↦
      let (m, j, q) = ids-Memᴰ source id i in
      let o = f.grows m.id (explicit-named source disabled [] m j (ap disabled q ∙ e)) in
      let o' = subst (λ x. is_off r x ≡ true) q o in absurd cc
]

kernel-closed :
    (source : List ModuleInfo) (disabled : Text → Bool) (r : Reasons) (m : ModuleInfo)
    (d : Dependency)
    → WellNamed source
    → Final source disabled (explicit_reasons source disabled []) r
    → Memᴰ m (kernel_of source disabled r).active
    → Memᴰ d m.dependencies
    → d.required ≡ true
    → member d.id (ids source) ≡ true
    → member d.id (ids (kernel_of source disabled r).active) ≡ true
unfolding exclude_with_reasons exclude_disabled
kernel-closed source disabled r m d w f i j q n =
    let registered = sorted_or_original (exclude_disabled source disabled) in
    let (i1, on) = Memᴰ-select (λ m. not (is_off r m.id)) registered m i in
    let (i2, _) = Memᴰ-select (λ m. not (disabled m.id)) source m (Memᴰ-sorted _ m i1) in
    let on_d = Closed-on m r d (w m i2) (All-at _ source m f.closed i2) (ground (arith, on)) j q in
    let named_d = on-enabled source disabled r d.id f n on_d in
    let (p, ip, ep) = ids-Memᴰ registered d.id (registered-member source disabled d.id n named_d) in
    subst (λ x. member x (ids (exclude_with_reasons registered r)) ≡ true) ep
      (Memᴰ-ids _ p (
        select-Memᴰ (λ m. not (is_off r m.id)) registered p ip
          (ground (arith, on_d, ap (is_off r) ep))))

-- Where every dependency has an id, the active modules contain what they require: a required dependency
-- of an active module that is one of the modules is the id of an active module.
pub new_kernel-closed :
    (source : List ModuleInfo) (disabled : Text → Bool) (k : Kernel) (m : ModuleInfo)
    (d : Dependency)
    → WellNamed source
    → new_kernel source disabled ≡ some k
    → Memᴰ m k.active
    → Memᴰ d m.dependencies
    → d.required ≡ true
    → member d.id (ids source) ≡ true
    → member d.id (ids k.active) ≡ true
new_kernel-closed source disabled k m d w h i j q n =
    let b = built source disabled k h in
    subst (λ k. member d.id (ids k.active) ≡ true) b.same
      (kernel-closed source disabled b.reasons m d w b.final
        (subst (λ k. Memᴰ m k.active) (sym b.same) i) j q n)
