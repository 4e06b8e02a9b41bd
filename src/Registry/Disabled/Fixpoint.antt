-- ===== src/Registry/Disabled/Fixpoint.antt =====
-- What propagateDisabledReasons, app/modules/registry_kernel.go, computes: the modules that are off by
-- name, and those that require one that is off.
use goravel_mine.Base.{
  ℕ, zero, suc, ◌+◌, ◌≤◌, ◌<◌, ◌≡◌, refl, sym, ap, ◌∙◌, subst, ◌↔◌, inl, inr, Bool, true, false,
  some, List, [], ◌∷◌, arith, if◌then◌else◌, Bool-cases, length, All,
}
use goravel_mine.Base.Texts.{Text}
use goravel_mine.Base.Eq.{nat_eq, list_eq, list_beq}
use goravel_mine.Base.Dict.{get, get_or}
use goravel_mine.Lifecycle.Versions.{Dependency}
use goravel_mine.Registry.Sort.{ModuleInfo}
use goravel_mine.Base.{Memᴰ, head, tail}
use goravel_mine.Registry.Disabled.{
  Reasons, is_off, explicit_reasons, first_disabled, propagate_round, propagate, disabled_reasons,
  again,
}
use goravel_mine.Registry.Disabled.Named.{
  Off, named, required_off, Sound, Grows, explicit-named, explicit-Sound,
}
use goravel_mine.Registry.Disabled.Rounds.{
  Closed, propagate_round-Grows, propagate_round-Sound, propagate_round-unchanged,
  propagate_round-changed, Added,
}

-- How many modules are on.
unfoldable on_count : List ModuleInfo → Reasons → ℕ
on_count [] r = 0
on_count (m ∷ source) r = let rest = on_count source r in if is_off r m.id then rest else suc rest

on_count-le : (source : List ModuleInfo) (r : Reasons) → on_count source r ≤ length source
unfolding on_count
on_count-le [] r = omega arith
on_count-le (m ∷ source) r = ground (arith, on_count-le source r)

on_count-Grows :
    (source : List ModuleInfo) (r s : Reasons) → Grows r s → on_count source s ≤ on_count source r
unfolding on_count
on_count-Grows [] r s g = omega arith
on_count-Grows (m ∷ source) r s g = ground (arith, on_count-Grows source r s g, g m.id)

on_count-Added :
    (source : List ModuleInfo) (r s : Reasons) (m : ModuleInfo)
    → Grows r s
    → Memᴰ m source
    → is_off r m.id ≡ false
    → is_off s m.id ≡ true
    → on_count source s < on_count source r
unfolding on_count
on_count-Added [] r s m g i n o = elim i [ ]
on_count-Added (x ∷ source) r s m g (head e) n o =
    let n' = subst (λ y. is_off r y.id ≡ false) e n in
    let o' = subst (λ y. is_off s y.id ≡ true) e o in
    ground (arith, n', o', on_count-Grows source r s g)
on_count-Added (x ∷ source) r s m g (tail i) n o =
    ground (arith, on_count-Added source r s m g i n o, g x.id)

-- What the rounds end in: what was off is, all that is off has a cause, and no module is left to add.
pub record Final (source : List ModuleInfo) (disabled : Text → Bool) (r s : Reasons) : Type 0 where
  pub grows : Grows r s
  pub sound : Sound source disabled s
  pub closed : All (Closed s) source

propagate-Final :
    (fuel : ℕ) (source : List ModuleInfo) (disabled : Text → Bool) (r : Reasons)
    → on_count source r < fuel
    → Sound source disabled r
    → (s : Reasons) × (propagate fuel source r ≡ some s) × Final source disabled r s
unfolding propagate
propagate-Final zero source disabled r h s = absurd (omega arith)
propagate-Final (suc fuel) source disabled r h s =
    let r' = (propagate_round source (r, false)).0 in
    let c' = (propagate_round source (r, false)).1 in
    let g = propagate_round-Grows source r false in
    let s' = propagate_round-Sound source disabled source r false (λ m i. i) s in
    elim (Bool-cases c') [
      | inl e ↦
          let more : Added source r r' = elim (propagate_round-changed source r false e) [
            | inl t ↦ absurd cc
            | inr a ↦ a
          ] in
          let less =
            on_count-Added source r r' more.added g more.inside more.was_on more.is_now_off in
          let p = propagate-Final fuel source disabled r' (omega (arith, less, h)) s' in
          (
            p.0,
            ap (λ b. again (propagate fuel source) (r', b)) e ∙ p.1,
            record {
              grows = λ id o. p.2.grows id (g id o);
              sound = p.2.sound;
              closed = p.2.closed;
            },
          )
      | inr e ↦
          let u = propagate_round-unchanged source r false e in
          (
            r',
            ap (λ b. again (propagate fuel source) (r', b)) e,
            record {
              grows = g;
              sound = s';
              closed = subst (λ t. All (Closed t) source) (sym u.0) u.1;
            },
          )
    ]

All-Memᴰ :
    (P : ModuleInfo → Type 0) (source : List ModuleInfo) (m : ModuleInfo)
    → All P source
    → Memᴰ m source
    → P m
All-Memᴰ P [] m a i = elim i [ ]
All-Memᴰ P (x ∷ source) m a (head e) = subst P (sym e) a.0
All-Memᴰ P (x ∷ source) m a (tail i) = All-Memᴰ P source m a.1 i

-- No dependency of a list has an empty id.
abbrev pub WithIds : List Dependency → Type 0
WithIds ds = (d : Dependency) → Memᴰ d ds → list_beq d.id [] ≡ false

first_disabled-none :
    (ds : List Dependency) (r : Reasons) (d : Dependency)
    → WithIds ds
    → list_beq (first_disabled ds r) [] ≡ true
    → Memᴰ d ds
    → d.required ≡ true
    → is_off r d.id ≡ false
unfolding first_disabled
first_disabled-none [] r d w h i q = elim i [ ]
first_disabled-none (x ∷ ds) r d w h (head e) q =
    ground (arith, h, w x (head refl), q, ap (λ y. is_off r y.id) e, ap (λ y. y.required) e)
first_disabled-none (x ∷ ds) r d w h (tail i) q =
    ground (arith, h, w x (head refl), first_disabled-none ds r d (λ y j. w y (tail j)) _ i q)

-- After propagation a module that is not off requires nothing that is off.
pub Closed-on :
    (m : ModuleInfo) (r : Reasons) (d : Dependency)
    → WithIds m.dependencies
    → Closed r m
    → is_off r m.id ≡ false
    → Memᴰ d m.dependencies
    → d.required ≡ true
    → is_off r d.id ≡ false
Closed-on m r d w (inl o) n i q = absurd cc
Closed-on m r d w (inr o) n i q = first_disabled-none m.dependencies r d w o i q

Final-Off :
    (source : List ModuleInfo) (disabled : Text → Bool) (r : Reasons)
    → ((m : ModuleInfo) → Memᴰ m source → WithIds m.dependencies)
    → Final source disabled (explicit_reasons source disabled []) r
    → (id : Text) → Off source disabled id
    → is_off r id ≡ true
Final-Off source disabled r w f id (named m i d) =
    f.grows m.id (explicit-named source disabled [] m i d)
Final-Off source disabled r w f id (required_off m d i j q o) =
    let off_d = Final-Off source disabled r w f d.id o in
    elim (Bool-cases (is_off r m.id)) [
      | inl e ↦ e
      | inr e ↦
          let on_d = Closed-on m r d (w m i) (All-Memᴰ (Closed r) source m f.closed i) e j q in
          absurd cc
    ]

start-Sound : (source : List ModuleInfo) (disabled : Text → Bool) → Sound source disabled []
unfolding is_off list_beq get_or get
start-Sound source disabled id h = absurd cc

pub disabled_reasons-Final :
    (source : List ModuleInfo) (disabled : Text → Bool)
    → (r : Reasons) × (disabled_reasons source disabled ≡ some r)
      × Final source disabled (explicit_reasons source disabled []) r
unfolding disabled_reasons
disabled_reasons-Final source disabled =
    let r = explicit_reasons source disabled [] in
    propagate-Final (length source + 1) source disabled r (omega (arith, on_count-le source r))
      (explicit-Sound source source disabled [] (λ m i. i) (start-Sound source disabled))

-- Where every dependency has an id, the rounds end, and an id has a reason exactly if it is off.
pub disabled_reasons-Off :
    (source : List ModuleInfo) (disabled : Text → Bool)
    → ((m : ModuleInfo) → Memᴰ m source → WithIds m.dependencies)
    → (r : Reasons) × (disabled_reasons source disabled ≡ some r)
      × ((id : Text) → (is_off r id ≡ true) ↔ Off source disabled id)
disabled_reasons-Off source disabled w =
    let (r, e, f) = disabled_reasons-Final source disabled in
    (r, e, λ id. (f.sound id, Final-Off source disabled r w f id))
