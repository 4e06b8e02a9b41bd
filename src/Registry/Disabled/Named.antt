-- ===== src/Registry/Disabled/Named.antt =====
-- explicitDisabledReasons of app/modules/registry_kernel.go, and what it is for a module to be off.
use goravel_mine.Base.{
  ℕ, ◌≡◌, refl, ap, ◌∙◌, subst, inl, inr, Bool, true, false, not, ◌&&◌, ◌||◌, List, [], ◌∷◌, arith,
  if◌then◌else◌, Bool-cases,
}
use goravel_mine.Base.Texts.{Text}
use goravel_mine.Base.Eq.{nat_eq, list_eq, list_beq, list_beq_iff, list_self}
use goravel_mine.Base.Dict.{get_or, put, get_or-put}
use goravel_mine.Lifecycle.Versions.{Dependency}
use goravel_mine.Registry.Sort.{ModuleInfo}
use goravel_mine.Base.{Memᴰ, head, tail}
use goravel_mine.Registry.Disabled.{Reasons, is_off, explicit_one, explicit_reasons}

-- A module is off if it is named, or if it requires an id that is off.
pub data Off (source : List ModuleInfo) (disabled : Text → Bool) : Text → Type 0 where
  named : (m : ModuleInfo) → Memᴰ m source → disabled m.id ≡ true → Off source disabled m.id
  required_off :
      (m : ModuleInfo) (d : Dependency)
      → Memᴰ m source
      → Memᴰ d m.dependencies
      → d.required ≡ true
      → Off source disabled d.id
      → Off source disabled m.id

abbrev pub Sound : List ModuleInfo → (Text → Bool) → Reasons → Type 0
Sound source disabled reasons = (id : Text) → is_off reasons id ≡ true → Off source disabled id

abbrev pub Grows : Reasons → Reasons → Type 0
Grows r s = (id : Text) → is_off r id ≡ true → is_off s id ≡ true

filled :
    (b : Bool) (c : ℕ) (v t : Text)
    → not (list_beq (if b then c ∷ v else t) []) ≡ (b || not (list_beq t []))
unfolding list_beq
filled true c v t = refl
filled false c v t = refl

pub is_off-put :
    (reasons : Reasons) (k : Text) (c : ℕ) (v : Text) (id : Text)
    → is_off (put reasons k (c ∷ v)) id ≡ (list_beq k id || is_off reasons id)
unfolding is_off
is_off-put reasons k c v id =
    ap (λ t. not (list_beq t [])) (get_or-put reasons k (c ∷ v) id [])
    ∙ filled (list_beq k id) c v (get_or reasons id [])

is_off-explicit :
    (m : ModuleInfo) (disabled : Text → Bool) (reasons : Reasons) (id : Text)
    → is_off (explicit_one m disabled reasons) id
      ≡ ((disabled m.id && list_beq m.id id) || is_off reasons id)
is_off-explicit m disabled reasons id = elim (Bool-cases (disabled m.id)) [
  | inl e ↦ rw e (is_off-put reasons m.id _ _ id)
  | inr e ↦ rw e refl
]

pub explicit-Grows :
    (source : List ModuleInfo) (disabled : Text → Bool) (reasons : Reasons)
    → Grows reasons (explicit_reasons source disabled reasons)
unfolding explicit_reasons
explicit-Grows [] disabled reasons id h = h
explicit-Grows (m ∷ source) disabled reasons id h =
    explicit-Grows source disabled (explicit_one m disabled reasons) id
      (ground (arith, h, is_off-explicit m disabled reasons id))

pub explicit-named :
    (source : List ModuleInfo) (disabled : Text → Bool) (reasons : Reasons) (m : ModuleInfo)
    → Memᴰ m source
    → disabled m.id ≡ true
    → is_off (explicit_reasons source disabled reasons) m.id ≡ true
unfolding explicit_reasons
explicit-named [] disabled reasons m i h = elim i [ ]
explicit-named (x ∷ source) disabled reasons m (head e) h =
    explicit-Grows source disabled (explicit_one x disabled reasons) m.id (
      subst (λ y. is_off (explicit_one y disabled reasons) m.id ≡ true) e
        (ground (arith, h, is_off-explicit m disabled reasons m.id, list_self m.id)))
explicit-named (x ∷ source) disabled reasons m (tail i) h =
    explicit-named source disabled (explicit_one x disabled reasons) m i h

explicit_one-Sound :
    (all : List ModuleInfo) (disabled : Text → Bool) (reasons : Reasons) (m : ModuleInfo)
    → Memᴰ m all
    → Sound all disabled reasons
    → Sound all disabled (explicit_one m disabled reasons)
explicit_one-Sound all disabled reasons m i s id h = elim (Bool-cases (is_off reasons id)) [
  | inl e ↦ s id e
  | inr e ↦
      let f = is_off-explicit m disabled reasons id in
      let named_id : (disabled m.id ≡ true) × (list_beq m.id id ≡ true) = ground (arith, f, e, h) in
      subst (Off all disabled) ((list_beq_iff m.id id).0 named_id.1) (named m i named_id.0)
]

pub explicit-Sound :
    (all source : List ModuleInfo) (disabled : Text → Bool) (reasons : Reasons)
    → ((m : ModuleInfo) → Memᴰ m source → Memᴰ m all)
    → Sound all disabled reasons
    → Sound all disabled (explicit_reasons source disabled reasons)
unfolding explicit_reasons
explicit-Sound all [] disabled reasons i h = h
explicit-Sound all (m ∷ source) disabled reasons i h =
    explicit-Sound all source disabled (explicit_one m disabled reasons) (λ n j. i n (tail j))
      (explicit_one-Sound all disabled reasons m (i m (head refl)) h)
