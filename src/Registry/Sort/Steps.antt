-- ===== src/Registry/Sort/Steps.antt =====
-- What a call of visit in sortModulesByDependencies, app/modules/dependencies.go, does to the walk.
use goravel_mine.Base.{
  ℕ, zero, suc, ◌≡◌, refl, sym, ap, ◌∙◌, subst, ◌⊎◌, inl, inr, true, false, none, some, List, [],
  ◌∷◌, ◌++◌, arith, if◌then◌else◌, Bool-cases, Option-cases, All, All-++,
}
use goravel_mine.Base.Texts.{Text}
use goravel_mine.Base.Eq.{nat_eq, list_eq, list_beq_iff, list_self}
use goravel_mine.Base.Members.{member, member-++, distinct, distinct-snoc}
use goravel_mine.Base.Texts.{text_less}
use goravel_mine.Lifecycle.Versions.{Dependency}
use goravel_mine.Registry.Sort.{
  ModuleInfo, ids, find_module, insert_dependency, sort_dependencies, Walk, Visit, out_of_fuel,
  cycle, ok, and_then, leave, visit_dependencies, visit,
}
use goravel_mine.Registry.Sort.Cycle.{find-member}

-- A dependency on a module that was seen, or on none of the modules.
abbrev pub Known : List ModuleInfo → List Text → Dependency → Type 0
Known all seen d = (member d.id seen ≡ true) ⊎ (find_module d.id all ≡ none)

-- Each module stands behind the ones it depends on.
unfoldable pub Before : List ModuleInfo → List Text → List ModuleInfo → Type 0
Before all seen [] = Unit
Before all seen (m ∷ ms) = All (Known all seen) m.dependencies × Before all (m.id ∷ seen) ms

Known-++ :
    (all : List ModuleInfo) (x : Text) (seen xs : List Text) (ds : List Dependency)
    → All (Known all (seen ++ x ∷ xs)) ds
    → All (Known all ((x ∷ seen) ++ xs)) ds
unfolding member
Known-++ all x seen xs [] h = tt
Known-++ all x seen xs (d ∷ ds) (inl h, hs) = (
  inl (ground (arith, h, member-++ d.id seen (x ∷ xs), member-++ d.id seen xs)),
  Known-++ all x seen xs ds hs,
)
Known-++ all x seen xs (d ∷ ds) (inr h, hs) = (inr h, Known-++ all x seen xs ds hs)

++-nil : (xs : List Text) → xs ++ [] ≡ xs
++-nil [] = refl
++-nil (x ∷ xs) = ap (λ ys. x ∷ ys) (++-nil xs)

Before-snoc :
    (all : List ModuleInfo) (seen : List Text) (xs : List ModuleInfo) (m : ModuleInfo)
    → Before all seen xs
    → All (Known all (seen ++ ids xs)) m.dependencies
    → Before all seen (xs ++ m ∷ [])
unfolding Before
Before-snoc all seen [] m b k = (subst (λ s. All (Known all s) m.dependencies) (++-nil seen) k, tt)
Before-snoc all seen (x ∷ xs) m b k =
    (b.0, Before-snoc all (x.id ∷ seen) xs m b.1 (Known-++ all x.id seen (ids xs) m.dependencies k))

-- What is known of the walk between two calls.
pub record Good (all : List ModuleInfo) (w : Walk) : Type 0 where
  pub before : Before all [] w.sorted
  pub marked : (id : Text) → member id w.visited ≡ member id (ids w.sorted)
  pub inside : All (λ m. find_module m.id all ≡ some m) w.sorted
  pub once : distinct (ids w.sorted) ≡ true

-- What a call adds: nothing that is being visited.
pub record Step (all : List ModuleInfo) (visiting : List Text) (w w' : Walk) : Type 0 where
  pub good : Good all w'
  pub grows : (id : Text) → member id w.visited ≡ true → member id w'.visited ≡ true
  pub keeps : (id : Text) → member id visiting ≡ true → member id w'.visited ≡ member id w.visited

pub Step-refl :
    (all : List ModuleInfo) (visiting : List Text) (w : Walk) → Good all w → Step all visiting w w
Step-refl all visiting w g = record { good = g; grows = λ id h. h; keeps = λ id h. refl }

pub Step-trans :
    (all : List ModuleInfo) (visiting : List Text) (a b c : Walk)
    → Step all visiting a b
    → Step all visiting b c
    → Step all visiting a c
Step-trans all visiting a b c s t = record {
  good = t.good;
  grows = λ id h. t.grows id (s.grows id h);
  keeps = λ id h. t.keeps id h ∙ s.keeps id h;
}

-- A result that is a walk has a property.
unfoldable pub Gives : (Walk → Type 0) → Visit → Type 0
Gives P out_of_fuel = Unit
Gives P (cycle id) = Unit
Gives P (ok w) = P w

pub ok-Gives : (P : Walk → Type 0) (w : Walk) → P w → Gives P (ok w)
unfolding Gives
ok-Gives P w h = h

cycle-Gives : (P : Walk → Type 0) (id : Text) → Gives P (cycle id)
unfolding Gives
cycle-Gives P id = tt

fuel-Gives : (P : Walk → Type 0) → Gives P out_of_fuel
unfolding Gives
fuel-Gives P = tt

pub and_then-Gives :
    (P Q : Walk → Type 0) (v : Visit) (k : Walk → Visit)
    → Gives P v
    → ((w : Walk) → P w → Gives Q (k w))
    → Gives Q (and_then v k)
unfolding Gives
and_then-Gives P Q out_of_fuel k h g = tt
and_then-Gives P Q (cycle id) k h g = tt
and_then-Gives P Q (ok w) k h g = g w h

pub map-Gives : (P Q : Walk → Type 0) (v : Visit) → Gives P v → ((w : Walk) → P w → Q w) → Gives Q v
unfolding Gives
map-Gives P Q out_of_fuel h g = tt
map-Gives P Q (cycle id) h g = tt
map-Gives P Q (ok w) h g = g w h

-- A step after which the dependencies are known.
pub record Visited (all : List ModuleInfo) (visiting : List Text) (ds : List Dependency)
    (w w' : Walk) : Type 0 where
  pub step : Step all visiting w w'
  pub known : All (Known all w'.visited) ds

-- A step after which a module is visited.
pub record Entered (all : List ModuleInfo) (visiting : List Text) (m : ModuleInfo) (w w' : Walk)
    : Type 0 where
  pub step : Step all visiting w w'
  pub entered : member m.id w'.visited ≡ true

unfoldable pub Call : List ModuleInfo → List Text → (Walk → ModuleInfo → Visit) → Type 0
Call all visiting call =
    (w : Walk) (m : ModuleInfo)
    → find_module m.id all ≡ some m
    → Good all w
    → Gives (Entered all visiting m w) (call w m)

visit_dependencies-Gives :
    (call : Walk → ModuleInfo → Visit) (all : List ModuleInfo) (visiting : List Text)
    (ds : List Dependency) (w : Walk)
    → Call all visiting call
    → Good all w
    → Gives (Visited all visiting ds w) (visit_dependencies call all ds w)
unfolding visit_dependencies Call
visit_dependencies-Gives call all visiting [] w h g =
    ok-Gives _ w (record { step = Step-refl all visiting w g; known = tt })
visit_dependencies-Gives call all visiting (d ∷ ds) w h g =
    elim (Option-cases (find_module d.id all)) [
      | inl e ↦
          rw (visit_dependencies, e)
            (map-Gives _ _ _ (visit_dependencies-Gives call all visiting ds w h g)
              (λ w' v. record { step = v.step; known = (inr e, v.known) }))
      | inr (m, e) ↦
          let f = find-member d.id all m e in
          let e' = subst (λ i. find_module i all ≡ some m) (sym f.0) e in
          rw (visit_dependencies, e)
            (and_then-Gives _ _ (call w m) (visit_dependencies call all ds) (h w m e' g) (λ w1 n.
              map-Gives _ _ _ (visit_dependencies-Gives call all visiting ds w1 h n.step.good)
                (λ w2 v. record {
                  step = Step-trans all visiting w w1 w2 n.step v.step;
                  known = (
                    inl (v.step.grows d.id (subst (λ i. member i w1.visited ≡ true) f.0 n.entered)),
                    v.known,
                  );
                })))
    ]

-- The order in which the dependencies are visited does not matter to what is known of them.
All-uninsert :
    (P : Dependency → Type 0) (d : Dependency) (ds : List Dependency)
    → All P (insert_dependency d ds)
    → P d × All P ds
unfolding insert_dependency
All-uninsert P d [] h = h
All-uninsert P d (x ∷ ds) h = elim (Bool-cases (text_less x.id d.id)) [
  | inl e ↦
      let h' = subst (All P) (ap (λ b. if b then x ∷ insert_dependency d ds else d ∷ x ∷ ds) e) h in
      let r = All-uninsert P d ds h'.1 in (r.0, (h'.0, r.1))
  | inr e ↦ subst (All P) (ap (λ b. if b then x ∷ insert_dependency d ds else d ∷ x ∷ ds) e) h
]

All-unsort :
    (P : Dependency → Type 0) (ds : List Dependency) → All P (sort_dependencies ds) → All P ds
unfolding sort_dependencies
All-unsort P [] h = tt
All-unsort P (d ∷ ds) h =
    let r = All-uninsert P d (sort_dependencies ds) h in (r.0, All-unsort P ds r.1)

All-Known :
    (all : List ModuleInfo) (seen seen' : List Text) (ds : List Dependency)
    → ((id : Text) → member id seen ≡ member id seen')
    → All (Known all seen) ds
    → All (Known all seen') ds
All-Known all seen seen' [] h k = tt
All-Known all seen seen' (d ∷ ds) h (inl k, ks) =
    (inl (sym (h d.id) ∙ k), All-Known all seen seen' ds h ks)
All-Known all seen seen' (d ∷ ds) h (inr k, ks) = (inr k, All-Known all seen seen' ds h ks)

ids-snoc : (xs : List ModuleInfo) (m : ModuleInfo) → ids (xs ++ m ∷ []) ≡ ids xs ++ m.id ∷ []
ids-snoc [] m = refl
ids-snoc (x ∷ xs) m = ap (λ ys. x.id ∷ ys) (ids-snoc xs m)

member-snoc : (k id : Text) (xs : List Text) → member k (xs ++ id ∷ []) ≡ member k (id ∷ xs)
unfolding member
member-snoc k id xs = ground (arith, member-++ k xs (id ∷ []))

leave-Good :
    (all : List ModuleInfo) (m : ModuleInfo) (w : Walk)
    → find_module m.id all ≡ some m
    → Good all w
    → All (Known all w.visited) m.dependencies
    → member m.id w.visited ≡ false
    → Good all (record { visited = m.id ∷ w.visited; sorted = w.sorted ++ m ∷ [] })
unfolding member
leave-Good all m w f g k n = record {
  before =
      Before-snoc all [] w.sorted m g.before
        (All-Known all w.visited (ids w.sorted) m.dependencies g.marked k);
  marked =
      λ id. ground (arith, ids-snoc w.sorted m, member-snoc id m.id (ids w.sorted), g.marked id);
  inside = All-++ _ w.sorted (m ∷ []) g.inside (f, tt);
  once =
      ap distinct (ids-snoc w.sorted m)
      ∙ distinct-snoc (ids w.sorted) m.id g.once (sym (g.marked m.id) ∙ n);
}

other_id :
    (m id : Text) (visiting seen : List Text)
    → member m visiting ≡ false
    → member id visiting ≡ true
    → member id (m ∷ seen) ≡ member id seen
unfolding member
other_id m id visiting seen n h =
    ground (arith, n, h, list_beq_iff m id, ap (λ i. member i visiting) {x = m} {y = id})

leave-Entered :
    (all : List ModuleInfo) (visiting : List Text) (m : ModuleInfo) (w w1 : Walk)
    → find_module m.id all ≡ some m
    → member m.id w.visited ≡ false
    → member m.id visiting ≡ false
    → Visited all (m.id ∷ visiting) (sort_dependencies m.dependencies) w w1
    → Entered all visiting m w
        (record { visited = m.id ∷ w1.visited; sorted = w1.sorted ++ m ∷ [] })
unfolding member
leave-Entered all visiting m w w1 f n g v = record {
  step = record {
    good =
        leave-Good all m w1 f v.step.good (All-unsort _ m.dependencies v.known)
          (v.step.keeps m.id (ground (arith, list_self m.id)) ∙ n);
    grows = λ id h. ground (arith, v.step.grows id h);
    keeps = λ id h. other_id m.id id visiting w1.visited g h ∙ v.step.keeps id (ground (arith, h));
  };
  entered = ground (arith, list_self m.id);
}

leave-Gives :
    (P Q : Walk → Type 0) (m : ModuleInfo) (v : Visit)
    → Gives P v
    → ((w : Walk) → P w → Q (record { visited = m.id ∷ w.visited; sorted = w.sorted ++ m ∷ [] }))
    → Gives Q (leave m v)
unfolding Gives
leave-Gives P Q m out_of_fuel h g = tt
leave-Gives P Q m (cycle id) h g = tt
leave-Gives P Q m (ok w) h g = g w h

pub visit-Gives :
    (fuel : ℕ) (all : List ModuleInfo) (visiting : List Text)
    → Call all visiting (visit fuel all visiting)
unfolding visit Call
visit-Gives zero all visiting w m f g = fuel-Gives _
visit-Gives (suc fuel) all visiting w m f g = elim (Bool-cases (member m.id w.visited)) [
  | inl e ↦ rw (visit, e) (ok-Gives _ w (record { step = Step-refl all visiting w g; entered = e }))
  | inr e ↦ elim (Bool-cases (member m.id visiting)) [
    | inl i ↦ rw (visit, e, i) (cycle-Gives _ m.id)
    | inr i ↦
        rw (visit, e, i)
          (leave-Gives _ _ m _
            (visit_dependencies-Gives (visit fuel all (m.id ∷ visiting)) all (m.id ∷ visiting)
              (sort_dependencies m.dependencies) w (visit-Gives fuel all (m.id ∷ visiting)) g)
            (λ w1 v. leave-Entered all visiting m w w1 f e i v))
  ]
]
