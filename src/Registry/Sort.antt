-- ===== src/Registry/Sort.antt =====
-- sortModulesByDependencies of app/modules/dependencies.go.
pub mod Cycle
pub mod Steps
pub mod Topological
use goravel_mine.Base.{
  ℕ, zero, suc, ◌+◌, ◌⊎◌, inl, inr, true, false, not, Option, none, some, List, [], ◌∷◌, ◌++◌, map,
  if◌then◌else◌, length,
}
use goravel_mine.Base.Texts.{Text}
use goravel_mine.Base.Eq.{nat_eq, list_eq, list_beq}
use goravel_mine.Base.Members.{member, distinct}
use goravel_mine.Base.Texts.{text_less}
use goravel_mine.Lifecycle.Versions.{Dependency}

-- What the registry reads of a module: its id, and the dependencies of its metadata.
pub record ModuleInfo : Type 0 where
  pub id : Text
  pub dependencies : List Dependency

abbrev pub id_of : ModuleInfo → Text
id_of m = m.id

abbrev pub ids : List ModuleInfo → List Text
ids = map id_of

-- `byID[id]`
unfoldable pub find_module : Text → List ModuleInfo → Option ModuleInfo
find_module id [] = none
find_module id (m ∷ ms) = let rest = find_module id ms in if list_beq m.id id then some m else rest

-- sort.SliceStable on ids
unfoldable pub insert_dependency : Dependency → List Dependency → List Dependency
insert_dependency d [] = d ∷ []
insert_dependency d (x ∷ xs) =
    let rest = insert_dependency d xs in if text_less x.id d.id then x ∷ rest else d ∷ x ∷ xs

unfoldable pub sort_dependencies : List Dependency → List Dependency
sort_dependencies [] = []
sort_dependencies (d ∷ ds) = insert_dependency d (sort_dependencies ds)

-- The map `visited` and the list `sorted`.
pub record Walk : Type 0 where
  pub visited : List Text
  pub sorted : List ModuleInfo

pub data Visit : Type 0 where
  out_of_fuel : Visit
  cycle : Text → Visit
  ok : Walk → Visit

abbrev pub and_then : Visit → (Walk → Visit) → Visit
and_then out_of_fuel k = out_of_fuel
and_then (cycle id) k = cycle id
and_then (ok w) k = k w

-- `visited[id] = true` and the append
abbrev pub leave : ModuleInfo → Visit → Visit
leave m out_of_fuel = out_of_fuel
leave m (cycle id) = cycle id
leave m (ok w) = ok (record { visited = m.id ∷ w.visited; sorted = w.sorted ++ m ∷ [] })

-- The loop over the dependencies, which calls visit on those that are modules.
unfoldable pub visit_dependencies :
    (Walk → ModuleInfo → Visit) → List ModuleInfo → List Dependency → Walk → Visit
visit_dependencies call all [] w = ok w
visit_dependencies call all (d ∷ ds) w = elim (find_module d.id all) [
  | none ↦ visit_dependencies call all ds w
  | some m ↦ and_then (call w m) (visit_dependencies call all ds)
]

-- visit. The ids under `visiting` are those of the calls in progress: a call sets its id, and takes it back
-- before it returns, unless it fails, and then the whole sort does.
unfoldable pub visit : ℕ → List ModuleInfo → List Text → Walk → ModuleInfo → Visit
visit zero all visiting w m = out_of_fuel
visit (suc fuel) all visiting w m = elim (member m.id w.visited) [
  | true ↦ ok w
  | false ↦ elim (member m.id visiting) [
    | true ↦ cycle m.id
    | false ↦ leave m (
        visit_dependencies (visit fuel all (m.id ∷ visiting)) all (sort_dependencies m.dependencies)
          w)
  ]
]

-- The loop over the modules.
unfoldable pub visit_modules : (Walk → ModuleInfo → Visit) → List ModuleInfo → Walk → Visit
visit_modules call [] w = ok w
visit_modules call (m ∷ ms) w = and_then (call w m) (visit_modules call ms)

pub data SortError : Type 0 where
  duplicate_id no_fuel : SortError
  cycle_at : Text → SortError

abbrev pub sorted_of : Visit → SortError ⊎ List ModuleInfo
sorted_of out_of_fuel = inl no_fuel
sorted_of (cycle id) = inl (cycle_at id)
sorted_of (ok w) = inr w.sorted

-- Each call of visit in progress has an id of its own, so that one more than the modules is enough fuel.
unfoldable pub sort_modules : List ModuleInfo → SortError ⊎ List ModuleInfo
sort_modules modules =
    if not (distinct (ids modules))
    then inl duplicate_id
    else sorted_of (
        visit_modules (visit (length modules + 1) modules []) modules
          (record { visited = []; sorted = [] }))
