-- ===== src/Registry/Sort/Topological.antt =====
-- What sortModulesByDependencies, app/modules/dependencies.go, returns: every module once, behind its
-- dependencies.
use goravel_mine.Base.{
  ◌+◌, ◌≡◌, refl, sym, ap, ◌∙◌, subst, inl, inr, true, not, some, List, [], ◌∷◌, if◌then◌else◌,
  Bool-cases, length, All,
}
use goravel_mine.Base.Texts.{Text}
use goravel_mine.Base.Eq.{nat_eq, list_eq}
use goravel_mine.Base.Members.{member, distinct}
use goravel_mine.Registry.Sort.{
  ModuleInfo, ids, find_module, Walk, Visit, out_of_fuel, cycle, ok, visit, visit_modules,
  duplicate_id, sort_modules, sorted_of,
}
use goravel_mine.Registry.Sort.Cycle.{find-distinct}
use goravel_mine.Registry.Sort.Steps.{
  Before, Good, Step, Step-refl, Step-trans, Gives, ok-Gives, map-Gives, and_then-Gives, Call,
  visit-Gives,
}

-- A step after which every module of a list is visited.
pub record Toured (all ms : List ModuleInfo) (w w' : Walk) : Type 0 where
  pub step : Step all [] w w'
  pub entered : All (λ m. member m.id w'.visited ≡ true) ms

visit_modules-Gives :
    (call : Walk → ModuleInfo → Visit) (all ms : List ModuleInfo) (w : Walk)
    → Call all [] call
    → All (λ m. find_module m.id all ≡ some m) ms
    → Good all w
    → Gives (Toured all ms w) (visit_modules call ms w)
unfolding visit_modules Call
visit_modules-Gives call all [] w h i g =
    ok-Gives _ w (record { step = Step-refl all [] w g; entered = tt })
visit_modules-Gives call all (m ∷ ms) w h i g =
    and_then-Gives _ _ (call w m) (visit_modules call ms) (h w m i.0 g) (λ w1 n.
      map-Gives _ _ _ (visit_modules-Gives call all ms w1 h i.1 n.step.good) (λ w2 t. record {
        step = Step-trans all [] w w1 w2 n.step t.step;
        entered = (t.step.grows m.id n.entered, t.entered);
      }))

-- An order of the modules: the modules themselves, each once, behind what they depend on.
pub record Ordered (modules order : List ModuleInfo) : Type 0 where
  pub before : Before modules [] order
  pub once : distinct (ids order) ≡ true
  pub inside : All (λ m. find_module m.id modules ≡ some m) order
  pub complete : All (λ m. member m.id (ids order) ≡ true) modules
  pub unique : distinct (ids modules) ≡ true

start-Good : (all : List ModuleInfo) → Good all (record { visited = []; sorted = [] })
unfolding Before distinct member
start-Good all = record { before = tt; marked = λ id. refl; inside = tt; once = refl }

All-member :
    (xs ys : List Text) (ms : List ModuleInfo)
    → ((id : Text) → member id xs ≡ member id ys)
    → All (λ m. member m.id xs ≡ true) ms
    → All (λ m. member m.id ys ≡ true) ms
All-member xs ys [] e h = tt
All-member xs ys (m ∷ ms) e h = (sym (e m.id) ∙ h.0, All-member xs ys ms e h.1)

Toured-Ordered :
    (ms : List ModuleInfo) (start : Walk) (v : Visit) (order : List ModuleInfo)
    → distinct (ids ms) ≡ true
    → Gives (Toured ms ms start) v
    → sorted_of v ≡ inr order
    → Ordered ms order
unfolding Gives
Toured-Ordered ms start out_of_fuel order u t e = cc
Toured-Ordered ms start (cycle id) order u t e = cc
Toured-Ordered ms start (ok w) order u t e =
    let same : w.sorted ≡ order = cc in
    subst (Ordered ms) same (record {
      before = t.step.good.before;
      once = t.step.good.once;
      inside = t.step.good.inside;
      complete = All-member w.visited (ids w.sorted) ms t.step.good.marked t.entered;
      unique = u;
    })

-- What sort_modules returns without an error is an order of the modules: every module stands in it exactly
-- once, no other does, and each stands behind those of its dependencies that are modules.
pub sort_modules-Ordered :
    (modules order : List ModuleInfo) → sort_modules modules ≡ inr order → Ordered modules order
unfolding sort_modules
sort_modules-Ordered modules order e = elim (Bool-cases (distinct (ids modules))) [
  | inl h ↦
      let start : Walk = record { visited = []; sorted = [] } in
      let call = visit (length modules + 1) modules [] in
      let v = visit_modules call modules start in
      Toured-Ordered modules start v order h
        (visit_modules-Gives call modules modules start
          (visit-Gives (length modules + 1) modules []) (find-distinct modules h)
          (start-Good modules))
        (sym (ap (λ b. if not b then inl duplicate_id else sorted_of v) h) ∙ e)
  | inr h ↦
      let start : Walk = record { visited = []; sorted = [] } in
      let call = visit (length modules + 1) modules [] in
      let v = visit_modules call modules start in
      let e' = sym (ap (λ b. if not b then inl duplicate_id else sorted_of v) h) ∙ e in cc
]
