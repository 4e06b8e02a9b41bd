-- ===== src/Registry/Sort/Cycle.antt =====
-- The errors of sortModulesByDependencies, app/modules/dependencies.go.
use goravel_mine.Base.{
  ℕ, zero, suc, ◌+◌, ◌<◌, ◌≡◌, refl, sym, ap, ◌∙◌, subst, inl, inr, true, false, not, some, List,
  [], ◌∷◌, map, arith, if◌then◌else◌, Bool-cases, Option-cases, length, All,
}
use goravel_mine.Base.Texts.{Text}
use goravel_mine.Base.Eq.{nat_eq, list_eq, list_beq, list_beq_iff, list_self}
use goravel_mine.Base.Members.{member, distinct, missing, missing-le, missing_cons-lt}
use goravel_mine.Lifecycle.Versions.{Dependency}
use goravel_mine.Registry.Sort.{
  ModuleInfo, id_of, ids, find_module, Walk, Visit, out_of_fuel, cycle, ok, and_then, leave,
  visit_dependencies, visit, visit_modules, insert_dependency, sort_dependencies, SortError,
  duplicate_id, no_fuel, cycle_at, sorted_of, sort_modules,
}

abbrev dependency_ids : List Dependency → List Text
dependency_ids = map (λ d. d.id)

-- A module depends on an id.
pub record Depends (all : List ModuleInfo) (a b : Text) : Type 0 where
  pub owner : ModuleInfo
  pub found : find_module a all ≡ some owner
  pub named : member b (dependency_ids owner.dependencies) ≡ true

-- One module depends on another, over others or at once.
pub data Chain (all : List ModuleInfo) : Text → Text → Type 0 where
  link : (a b : Text) → Depends all a b → Chain all a b
  through : (a b c : Text) → Chain all a b → Depends all b c → Chain all a c

-- A result that is not an error, or a cycle of dependencies.
unfoldable Ends : List ModuleInfo → Visit → Type 0
Ends all out_of_fuel = ⊥
Ends all (cycle id) = Chain all id id
Ends all (ok w) = Unit

and_then-Ends :
    (all : List ModuleInfo) (v : Visit) (k : Walk → Visit)
    → Ends all v
    → ((w : Walk) → Ends all (k w))
    → Ends all (and_then v k)
unfolding Ends
and_then-Ends all out_of_fuel k h g = h
and_then-Ends all (cycle id) k h g = h
and_then-Ends all (ok w) k h g = g w

leave-Ends :
    (all : List ModuleInfo) (m : ModuleInfo) (v : Visit) → Ends all v → Ends all (leave m v)
unfolding Ends
leave-Ends all m out_of_fuel h = h
leave-Ends all m (cycle id) h = h
leave-Ends all m (ok w) h = tt

ok-Ends : (all : List ModuleInfo) (w : Walk) → Ends all (ok w)
unfolding Ends
ok-Ends all w = tt

cycle-Ends : (all : List ModuleInfo) (id : Text) → Chain all id id → Ends all (cycle id)
unfolding Ends
cycle-Ends all id h = h

pub find-member :
    (id : Text) (all : List ModuleInfo) (m : ModuleInfo)
    → find_module id all ≡ some m
    → (m.id ≡ id) × (member id (ids all) ≡ true)
unfolding find_module member
find-member id [] m h = cc
find-member id (x ∷ all) m h =
    ground (arith, h, find-member id all m, list_beq_iff x.id id, ap id_of {x = x} {y = m})

find-skip :
    (x : ModuleInfo) (all ms : List ModuleInfo)
    → member x.id (ids ms) ≡ false
    → All (λ m. find_module m.id all ≡ some m) ms
    → All (λ m. find_module m.id (x ∷ all) ≡ some m) ms
unfolding member find_module
find-skip x all [] n h = tt
find-skip x all (m ∷ ms) n h = (
  ground (arith, n, h.0, list_beq_iff x.id m.id, list_beq_iff m.id x.id),
  find-skip x all ms (ground (arith, n)) h.1,
)

find-head : (x : ModuleInfo) (all : List ModuleInfo) → find_module x.id (x ∷ all) ≡ some x
unfolding find_module
find-head x all = ground (arith, list_self x.id)

pub find-distinct :
    (all : List ModuleInfo)
    → distinct (ids all) ≡ true
    → All (λ m. find_module m.id all ≡ some m) all
unfolding distinct
find-distinct [] h = tt
find-distinct (x ∷ all) h = (
  find-head x all,
  find-skip x all all (ground (arith, h)) (find-distinct all (ground (arith, h))),
)

-- Sorting neither adds nor drops an id.
member-insert :
    (id : Text) (d : Dependency) (ds : List Dependency)
    → member id (dependency_ids (insert_dependency d ds)) ≡ member id (dependency_ids (d ∷ ds))
unfolding insert_dependency member
member-insert id d [] = refl
member-insert id d (x ∷ ds) = ground (arith, member-insert id d ds)

member-sort :
    (id : Text) (ds : List Dependency)
    → member id (dependency_ids (sort_dependencies ds)) ≡ member id (dependency_ids ds)
unfolding sort_dependencies member
member-sort id [] = refl
member-sort id (d ∷ ds) =
    ground (arith, member-insert id d (sort_dependencies ds), member-sort id ds)

-- A call on a module that a dependency of the list names.
Call : List ModuleInfo → List Dependency → (Walk → ModuleInfo → Visit) → Type 0
Call all ds call =
    (w : Walk) (m : ModuleInfo)
    → find_module m.id all ≡ some m
    → member m.id (dependency_ids ds) ≡ true
    → Ends all (call w m)

visit_dependencies-Ends :
    (call : Walk → ModuleInfo → Visit) (all : List ModuleInfo) (ds : List Dependency) (w : Walk)
    → Call all ds call
    → Ends all (visit_dependencies call all ds w)
unfolding visit_dependencies Call member
visit_dependencies-Ends call all [] w h = ok-Ends all w
visit_dependencies-Ends call all (d ∷ ds) w h = elim (Option-cases (find_module d.id all)) [
  | inl e ↦
      rw (visit_dependencies, e)
        (visit_dependencies-Ends call all ds w (λ w' m f n. h w' m f (ground (arith, n))))
  | inr (m, e) ↦
      let f = find-member d.id all m e in
      rw (visit_dependencies, e)
        (and_then-Ends all (call w m) (visit_dependencies call all ds)
          (h w m (subst (λ i. find_module i all ≡ some m) (sym f.0) e)
            (ground (arith, list_self d.id, list_beq_iff d.id m.id, f.0)))
          (λ w'.
            visit_dependencies-Ends call all ds w' (λ w2 m' f' n. h w2 m' f' (ground (arith, n)))))
]

-- Each module under way depends on the one that is entered.
Linked : List ModuleInfo → List Text → ModuleInfo → Type 0
Linked all visiting m = (id : Text) → member id visiting ≡ true → Chain all id m.id

Linked-cons :
    (all : List ModuleInfo) (visiting : List Text) (m n : ModuleInfo)
    → Linked all visiting m
    → Depends all m.id n.id
    → Linked all (m.id ∷ visiting) n
unfolding Linked member
Linked-cons all visiting m n l d id h = elim (Bool-cases (list_beq m.id id)) [
  | inl e ↦ subst (λ i. Chain all i n.id) ((list_beq_iff m.id id).0 e) (link m.id n.id d)
  | inr e ↦ through id m.id n.id (l id (ground (arith, h, e))) d
]

visit-Ends :
    (fuel : ℕ) (all : List ModuleInfo) (visiting : List Text) (w : Walk) (m : ModuleInfo)
    → find_module m.id all ≡ some m
    → Linked all visiting m
    → missing (ids all) visiting < fuel
    → Ends all (visit fuel all visiting w m)
unfolding visit Call Linked
visit-Ends zero all visiting w m i l f = absurd (omega arith)
visit-Ends (suc fuel) all visiting w m i l f = elim (Bool-cases (member m.id w.visited)) [
  | inl e ↦ rw (visit, e) (ok-Ends all w)
  | inr e ↦ elim (Bool-cases (member m.id visiting)) [
    | inl g ↦ rw (visit, e, g) (cycle-Ends all m.id (l m.id g))
    | inr g ↦
        let less = missing_cons-lt (ids all) m.id visiting (find-member m.id all m i).1 g in
        rw (visit, e, g)
          (leave-Ends all m _ (
            visit_dependencies-Ends (visit fuel all (m.id ∷ visiting)) all
              (sort_dependencies m.dependencies) w
              (λ w' n j d.
                visit-Ends fuel all (m.id ∷ visiting) w' n j
                  (Linked-cons all visiting m n l (record {
                    owner = m;
                    found = i;
                    named = sym (member-sort n.id m.dependencies) ∙ d;
                  }))
                  (omega (arith, less, f)))))
  ]
]

visit_modules-Ends :
    (call : Walk → ModuleInfo → Visit) (all ms : List ModuleInfo) (w : Walk)
    → All (λ m. find_module m.id all ≡ some m) ms
    → ((w : Walk) (m : ModuleInfo) → find_module m.id all ≡ some m → Ends all (call w m))
    → Ends all (visit_modules call ms w)
unfolding visit_modules
visit_modules-Ends call all [] w i h = ok-Ends all w
visit_modules-Ends call all (m ∷ ms) w i h =
    and_then-Ends all (call w m) (visit_modules call ms) (h w m i.0)
      (λ w'. visit_modules-Ends call all ms w' i.1 h)

-- What each error says of the modules.
unfoldable pub Cause : List ModuleInfo → SortError → Type 0
Cause modules duplicate_id = distinct (ids modules) ≡ false
Cause modules no_fuel = ⊥
Cause modules (cycle_at id) = Chain modules id id

length-ids : (ms : List ModuleInfo) → length (ids ms) ≡ length ms
length-ids [] = refl
length-ids (m ∷ ms) = ap (λ n. suc n) (length-ids ms)

ended-Cause :
    (modules : List ModuleInfo) (v : Visit) (e : SortError)
    → Ends modules v
    → sorted_of v ≡ inl e
    → Cause modules e
unfolding Ends Cause
ended-Cause modules out_of_fuel e h s = absurd h
ended-Cause modules (cycle id) e h s =
    let same : cycle_at id ≡ e = cc in subst (Cause modules) same h
ended-Cause modules (ok w) e h s = cc

no_repeat :
    (modules : List ModuleInfo) → distinct (ids modules) ≡ false → Cause modules duplicate_id
unfolding Cause
no_repeat modules h = h

-- Sorting fails for two reasons: an id that two modules have, and a module that depends on itself, over others or at
-- once, which the error names. The fuel does not run out.
pub sort_modules-Cause :
    (modules : List ModuleInfo) (e : SortError) → sort_modules modules ≡ inl e → Cause modules e
unfolding sort_modules Linked member
sort_modules-Cause modules e s = elim (Bool-cases (distinct (ids modules))) [
  | inl h ↦
      let start : Walk = record { visited = []; sorted = [] } in
      let call = visit (length modules + 1) modules [] in
      let v = visit_modules call modules start in
      ended-Cause modules v e
        (visit_modules-Ends call modules modules start (find-distinct modules h) (λ w m f.
          visit-Ends (length modules + 1) modules [] w m f (λ id n. absurd cc)
            (omega (arith, missing-le (ids modules) [], length-ids modules))))
        (sym (ap (λ b. if not b then inl duplicate_id else sorted_of v) h) ∙ s)
  | inr h ↦
      let start : Walk = record { visited = []; sorted = [] } in
      let call = visit (length modules + 1) modules [] in
      let v = visit_modules call modules start in
      let s' = sym (ap (λ b. if not b then inl duplicate_id else sorted_of v) h) ∙ s in
      let same : duplicate_id ≡ e = cc in subst (Cause modules) same (no_repeat modules h)
]
