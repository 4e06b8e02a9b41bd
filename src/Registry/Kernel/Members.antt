-- ===== src/Registry/Kernel/Members.antt =====
-- Which modules the lists of the registry kernel, app/modules/registry_kernel.go, hold.
use goravel_mine.Base.{
  ◌≡◌, refl, sym, ap, ◌∙◌, subst, ◌⊎◌, inl, inr, Bool, true, some, List, [], ◌∷◌, arith,
  if◌then◌else◌, Bool-cases, select, All,
}
use goravel_mine.Base.Texts.{Text}
use goravel_mine.Base.Eq.{nat_eq, list_eq, list_beq, list_beq_iff}
use goravel_mine.Base.Members.{member}
use goravel_mine.Base.{Memᴰ, head, tail}
use goravel_mine.Registry.Sort.{ModuleInfo, id_of, ids, find_module, SortError, sort_modules}
use goravel_mine.Registry.Sort.Topological.{Ordered, sort_modules-Ordered}
use goravel_mine.Registry.Kernel.{sorted_or_original}

pub Memᴰ-select :
    (p : ModuleInfo → Bool) (ms : List ModuleInfo) (m : ModuleInfo)
    → Memᴰ m (select p ms)
    → Memᴰ m ms × (p m ≡ true)
unfolding select
Memᴰ-select p [] m i = elim i [ ]
Memᴰ-select p (x ∷ ms) m i = elim (Bool-cases (p x)) [
  | inl e ↦
      first p x ms m e (λ j. Memᴰ-select p ms m j)
        (subst (λ b. Memᴰ m (if b then x ∷ select p ms else select p ms)) e i)
  | inr e ↦
      let r =
        Memᴰ-select p ms m (subst (λ b. Memᴰ m (if b then x ∷ select p ms else select p ms)) e i) in
      (tail r.0, r.1)
]
  where
    first :
        (p : ModuleInfo → Bool) (x : ModuleInfo) (ms : List ModuleInfo) (m : ModuleInfo)
        → p x ≡ true
        → (Memᴰ m (select p ms) → Memᴰ m ms × (p m ≡ true))
        → Memᴰ m (x ∷ select p ms)
        → Memᴰ m (x ∷ ms) × (p m ≡ true)
    first p x ms m e h (head q) = (head q, ap p q ∙ e)
    first p x ms m e h (tail j) = (tail (h j).0, (h j).1)

pub select-Memᴰ :
    (p : ModuleInfo → Bool) (ms : List ModuleInfo) (m : ModuleInfo)
    → Memᴰ m ms
    → p m ≡ true
    → Memᴰ m (select p ms)
unfolding select
select-Memᴰ p [] m i h = elim i [ ]
select-Memᴰ p (x ∷ ms) m (head e) h = rw (sym (ap p e) ∙ h) (head e)
select-Memᴰ p (x ∷ ms) m (tail i) h = elim (Bool-cases (p x)) [
  | inl e ↦ rw e (tail (select-Memᴰ p ms m i h))
  | inr e ↦ rw e (select-Memᴰ p ms m i h)
]

pub ids-Memᴰ :
    (ms : List ModuleInfo) (id : Text)
    → member id (ids ms) ≡ true
    → (m : ModuleInfo) × Memᴰ m ms × (m.id ≡ id)
unfolding member
ids-Memᴰ [] id h = cc
ids-Memᴰ (x ∷ ms) id h = elim (Bool-cases (list_beq x.id id)) [
  | inl e ↦ (x, head refl, (list_beq_iff x.id id).0 e)
  | inr e ↦ let r = ids-Memᴰ ms id (ground (arith, h, e)) in (r.0, tail r.1, r.2)
]

pub Memᴰ-ids : (ms : List ModuleInfo) (m : ModuleInfo) → Memᴰ m ms → member m.id (ids ms) ≡ true
unfolding member
Memᴰ-ids [] m i = elim i [ ]
Memᴰ-ids (x ∷ ms) m (head e) = ground (arith, ap id_of e, list_beq_iff x.id m.id)
Memᴰ-ids (x ∷ ms) m (tail i) = ground (arith, Memᴰ-ids ms m i)

find-Memᴰ :
    (id : Text) (all : List ModuleInfo) (m : ModuleInfo) → find_module id all ≡ some m → Memᴰ m all
unfolding find_module
find-Memᴰ id [] m h = cc
find-Memᴰ id (x ∷ all) m h = elim (Bool-cases (list_beq x.id id)) [
  | inl e ↦ let q : x ≡ m = ground (arith, h, e) in head (sym q)
  | inr e ↦ tail (find-Memᴰ id all m (ground (arith, h, e)))
]

pub All-at {κ} : {A : Type 0} (P : A → Type κ) (xs : List A) (x : A) → All P xs → Memᴰ x xs → P x
All-at P [] x a i = elim i [ ]
All-at P (y ∷ xs) x a (head e) = subst P (sym e) a.0
All-at P (y ∷ xs) x a (tail i) = All-at P xs x a.1 i

-- The order that sorting gives has the modules of the list: no others, and one with each id.
pub sorted-cases :
    (ms : List ModuleInfo) → (sorted_or_original ms ≡ ms) ⊎ Ordered ms (sorted_or_original ms)
unfolding sorted_or_original
sorted-cases ms = split ms (sort_modules ms) refl
  where
    split :
        (ms : List ModuleInfo) (r : SortError ⊎ List ModuleInfo)
        → sort_modules ms ≡ r
        → (elim r [ inl e ↦ ms | inr sorted ↦ sorted ] ≡ ms)
          ⊎ Ordered ms (elim r [ inl e ↦ ms | inr sorted ↦ sorted ])
    split ms (inl x) e = inl refl
    split ms (inr o) e = inr (sort_modules-Ordered ms o e)

pub Memᴰ-sorted :
    (ms : List ModuleInfo) (m : ModuleInfo) → Memᴰ m (sorted_or_original ms) → Memᴰ m ms
Memᴰ-sorted ms m i = elim (sorted-cases ms) [
  | inl e ↦ subst (Memᴰ m) e i
  | inr o ↦ find-Memᴰ m.id ms m (All-at _ (sorted_or_original ms) m o.inside i)
]

pub member-sorted :
    (ms : List ModuleInfo) (id : Text)
    → member id (ids ms) ≡ true
    → member id (ids (sorted_or_original ms)) ≡ true
member-sorted ms id h = elim (sorted-cases ms) [
  | inl e ↦ subst (λ xs. member id (ids xs) ≡ true) (sym e) h
  | inr o ↦
      let r = ids-Memᴰ ms id h in
      subst (λ i. member i (ids (sorted_or_original ms)) ≡ true) r.2
        (All-at _ ms r.0 o.complete r.1)
]
