-- ===== src/Registry/Disabled/Rounds.antt =====
-- One round of propagateDisabledReasons, app/modules/registry_kernel.go.
use goravel_mine.Base.{
  ℕ, ◌≡◌, refl, sym, ap, ◌∙◌, subst, ◌⊎◌, inl, inr, Bool, true, false, ◌&&◌, ◌||◌, List, [], ◌∷◌,
  arith, Bool-cases, &&-eq_true, All,
}
use goravel_mine.Base.Texts.{Text}
use goravel_mine.Base.Eq.{nat_eq, list_eq, list_beq, list_beq_iff, list_self}
use goravel_mine.Base.Dict.{put}
use goravel_mine.Lifecycle.Versions.{Dependency}
use goravel_mine.Registry.Sort.{ModuleInfo}
use goravel_mine.Base.{Memᴰ, head, tail}
use goravel_mine.Registry.Disabled.{
  Reasons, is_off, first_disabled, dependency_reason, Round, propagate_one, propagate_round,
}
use goravel_mine.Registry.Disabled.Named.{Off, required_off, Sound, Grows, is_off-put}

-- A required dependency of a list that is off.
record Blocked (ds : List Dependency) (reasons : Reasons) : Type 0 where
  dependency : Dependency
  inside : Memᴰ dependency ds
  needed : dependency.required ≡ true
  is_blocked : is_off reasons dependency.id ≡ true

first_disabled-Blocked :
    (ds : List Dependency) (reasons : Reasons)
    → list_beq (first_disabled ds reasons) [] ≡ false
    → Blocked ds reasons
unfolding first_disabled list_beq
first_disabled-Blocked [] reasons h = cc
first_disabled-Blocked (d ∷ ds) reasons h = elim (Bool-cases (d.required && is_off reasons d.id)) [
  | inl e ↦ record {
    dependency = d;
    inside = head refl;
    needed = (&&-eq_true _ _ e).0;
    is_blocked = (&&-eq_true _ _ e).1;
  }
  | inr e ↦
      let b = first_disabled-Blocked ds reasons (ground (arith, h, e)) in
      record {
        dependency = b.dependency;
        inside = tail b.inside;
        needed = b.needed;
        is_blocked = b.is_blocked;
      }
]

-- A module that is off, or that requires nothing that is.
abbrev pub Closed : Reasons → ModuleInfo → Type 0
Closed reasons m =
    (is_off reasons m.id ≡ true) ⊎ (list_beq (first_disabled m.dependencies reasons) [] ≡ true)

propagate_one-cases :
    (m : ModuleInfo) (r : Reasons) (c : Bool)
    → ((propagate_one m (r, c) ≡ (r, c)) × Closed r m)
      ⊎ ((is_off r m.id ≡ false)
          × Blocked m.dependencies r
          × (propagate_one m (r, c)
              ≡ (put r m.id (dependency_reason (first_disabled m.dependencies r)), true)))
propagate_one-cases m r c = elim (Bool-cases (is_off r m.id)) [
  | inl e ↦ inl (rw e refl, inl e)
  | inr e ↦ elim (Bool-cases (list_beq (first_disabled m.dependencies r) [])) [
    | inl f ↦ inl (rw (e, f) refl, inr f)
    | inr f ↦ inr (e, first_disabled-Blocked m.dependencies r f, rw (e, f) refl)
  ]
]

is_off-reason :
    (r : Reasons) (m : ModuleInfo) (dependency id : Text)
    → is_off (put r m.id (dependency_reason dependency)) id ≡ (list_beq m.id id || is_off r id)
is_off-reason r m dependency id = is_off-put r m.id _ _ id

put-Grows : (r : Reasons) (k : Text) (c : ℕ) (v : Text) → Grows r (put r k (c ∷ v))
put-Grows r k c v id h = ground (arith, h, is_off-put r k c v id)

propagate_one-Grows : (m : ModuleInfo) (r : Reasons) (c : Bool) → Grows r (propagate_one m (r, c)).0
propagate_one-Grows m r c id h = elim (propagate_one-cases m r c) [
  | inl (e, _) ↦ subst (λ (rd : Round). is_off rd.0 id ≡ true) (sym e) h
  | inr (_, _, e) ↦
      subst (λ (rd : Round). is_off rd.0 id ≡ true) (sym e) (put-Grows r m.id _ _ id h)
]

Blocked-Sound :
    (all : List ModuleInfo) (disabled : Text → Bool) (m : ModuleInfo) (r : Reasons)
    → Memᴰ m all
    → Blocked m.dependencies r
    → Sound all disabled r
    → Sound all disabled (put r m.id (dependency_reason (first_disabled m.dependencies r)))
Blocked-Sound all disabled m r i b s id h = elim (Bool-cases (list_beq m.id id)) [
  | inl e ↦
      subst (Off all disabled) ((list_beq_iff m.id id).0 e)
        (required_off m b.dependency i b.inside b.needed (s b.dependency.id b.is_blocked))
  | inr e ↦ s id (ground (arith, h, e, is_off-reason r m (first_disabled m.dependencies r) id))
]

propagate_one-Sound :
    (all : List ModuleInfo) (disabled : Text → Bool) (m : ModuleInfo) (r : Reasons) (c : Bool)
    → Memᴰ m all
    → Sound all disabled r
    → Sound all disabled (propagate_one m (r, c)).0
propagate_one-Sound all disabled m r c i s = elim (propagate_one-cases m r c) [
  | inl (e, _) ↦ subst (λ (rd : Round). Sound all disabled rd.0) (sym e) s
  | inr (_, b, e) ↦
      subst (λ (rd : Round). Sound all disabled rd.0) (sym e) (Blocked-Sound all disabled m r i b s)
]

pub propagate_round-Grows :
    (source : List ModuleInfo) (r : Reasons) (c : Bool) → Grows r (propagate_round source (r, c)).0
unfolding propagate_round
propagate_round-Grows [] r c id h = h
propagate_round-Grows (m ∷ source) r c id h =
    propagate_round-Grows source (propagate_one m (r, c)).0 (propagate_one m (r, c)).1 id
      (propagate_one-Grows m r c id h)

pub propagate_round-Sound :
    (all : List ModuleInfo) (disabled : Text → Bool) (source : List ModuleInfo) (r : Reasons)
    (c : Bool)
    → ((m : ModuleInfo) → Memᴰ m source → Memᴰ m all)
    → Sound all disabled r
    → Sound all disabled (propagate_round source (r, c)).0
unfolding propagate_round
propagate_round-Sound all disabled [] r c i s = s
propagate_round-Sound all disabled (m ∷ source) r c i s =
    propagate_round-Sound all disabled source (propagate_one m (r, c)).0 (propagate_one m (r, c)).1
      (λ n j. i n (tail j)) (propagate_one-Sound all disabled m r c (i m (head refl)) s)

pub propagate_round-unchanged :
    (source : List ModuleInfo) (r : Reasons) (c : Bool)
    → (propagate_round source (r, c)).1 ≡ false
    → ((propagate_round source (r, c)).0 ≡ r) × All (Closed r) source × (c ≡ false)
unfolding propagate_round
propagate_round-unchanged [] r c h = (refl, tt, h)
propagate_round-unchanged (m ∷ source) r c h = elim (propagate_one-cases m r c) [
  | inl (e, cl) ↦
      let u =
        propagate_round-unchanged source r c
          (ap (λ rd. (propagate_round source rd).1) (sym e) ∙ h) in
      (ap (λ rd. (propagate_round source rd).0) e ∙ u.0, (cl, u.1), u.2)
  | inr (_, _, e) ↦
      let u =
        propagate_round-unchanged source _ true
          (ap (λ rd. (propagate_round source rd).1) (sym e) ∙ h) in
      absurd cc
]

-- A module that a round put off.
pub record Added (source : List ModuleInfo) (r s : Reasons) : Type 0 where
  pub added : ModuleInfo
  pub inside : Memᴰ added source
  pub was_on : is_off r added.id ≡ false
  pub is_now_off : is_off s added.id ≡ true

pub propagate_round-changed :
    (source : List ModuleInfo) (r : Reasons) (c : Bool)
    → (propagate_round source (r, c)).1 ≡ true
    → (c ≡ true) ⊎ Added source r (propagate_round source (r, c)).0
unfolding propagate_round
propagate_round-changed [] r c h = inl h
propagate_round-changed (m ∷ source) r c h = elim (propagate_one-cases m r c) [
  | inl (e, cl) ↦
      elim (propagate_round-changed source r c
        (ap (λ rd. (propagate_round source rd).1) (sym e) ∙ h)) [
          | inl t ↦ inl t
          | inr a ↦ inr (record {
            added = a.added;
            inside = tail a.inside;
            was_on = a.was_on;
            is_now_off =
                subst (λ (rd : Round). is_off (propagate_round source rd).0 a.added.id ≡ true)
                  (sym e) a.is_now_off;
          })
        ]
  | inr (n, b, e) ↦ inr (record {
    added = m;
    inside = head refl;
    was_on = n;
    is_now_off =
        propagate_round-Grows source (propagate_one m (r, c)).0 (propagate_one m (r, c)).1 m.id (
          subst (λ (rd : Round). is_off rd.0 m.id ≡ true) (sym e)
            (ground
              (arith, is_off-reason r m (first_disabled m.dependencies r) m.id, list_self m.id)));
  })
]
