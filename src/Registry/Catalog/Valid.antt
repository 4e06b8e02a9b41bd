-- ===== src/Registry/Catalog/Valid.antt =====
-- What the validation of a catalog, app/modules/catalog_validator.go, guarantees.
use goravel_mine.Base.{
  ◌≡◌, refl, sym, ap, subst, inl, inr, Bool, true, false, not, ◌||◌, List, [], ◌∷◌, ◌++◌, arith,
  if◌then◌else◌, Bool-cases, select, All,
}
use goravel_mine.Base.Texts.{Text, codes}
use goravel_mine.Base.Eq.{nat_eq, list_eq, list_beq, list_beq_iff}
use goravel_mine.Base.Members.{member, member-++, distinct}
use goravel_mine.Base.{++-none}
use goravel_mine.Registry.Catalog.{
  Route, Menu, CatalogModule, CatalogError, add_keys, permission_keys, duplicates, collect,
  module_ids, permission_set, route_path, errors_of, key_errors, route_label,
  route_permission_errors, installer_errors, menu_permission_errors, Stat, checks, validate,
}

-- The values that are not empty.
unfoldable pub filled : List Text → List Text
filled values = select (λ v. not (list_beq v [])) values

-- A permission that a route names is one of the catalog's.
unfoldable pub Granted : List Text → Route → Type 0
Granted permissions r =
    (p : Text)
    → list_beq p [] ≡ false
    → member p (r.permission ∷ r.permissions) ≡ true
    → member p permissions ≡ true

-- A catalog in which nothing is there twice, and every route has an installer and every route and menu names
-- permissions of the catalog.
pub record ValidCatalog (modules : List CatalogModule) : Type 0 where
  pub ids : distinct (filled (module_ids modules)) ≡ true
  pub route_names : distinct (filled (collect (λ m. m.routes) (λ r. r.name) modules)) ≡ true
  pub route_paths : distinct (filled (collect (λ m. m.routes) route_path modules)) ≡ true
  pub menu_keys : distinct (filled (collect (λ m. m.menus) (λ m. m.key) modules)) ≡ true
  pub permissions : distinct (filled (permission_set modules)) ≡ true
  pub installers : All (λ m. All (λ r. r.has_installer ≡ true) m.routes) modules
  pub granted : All (λ m. All (Granted (permission_set modules)) m.routes) modules
  pub menus :
      All
        (λ m.
          All
            (λ x. (list_beq x.permission [] || member x.permission (permission_set modules)) ≡ true)
            m.menus)
        modules

errors_of-none :
    {A : Type 0} (f : A → List CatalogError) (xs : List A)
    → errors_of f xs ≡ []
    → All (λ x. f x ≡ []) xs
unfolding errors_of
errors_of-none f [] h = tt
errors_of-none f (x ∷ xs) h =
    let (a, b) = ++-none (f x) (errors_of f xs) h in (a, errors_of-none f xs b)

All-map :
    {A : Type 0} (P Q : A → Type 0) (xs : List A) → ((x : A) → P x → Q x) → All P xs → All Q xs
All-map P Q [] f h = tt
All-map P Q (x ∷ xs) f h = (f x h.0, All-map P Q xs f h.1)

not_among :
    (v : Text) (seen values : List Text)
    → All (λ u. member u (v ∷ seen) ≡ false) values
    → (member v values ≡ false) × All (λ u. member u seen ≡ false) values
unfolding member
not_among v seen [] h = (refl, tt)
not_among v seen (u ∷ values) h =
    let r = not_among v seen values h.1 in
    (ground (arith, h.0, r.0, list_beq_iff u v, list_beq_iff v u), (ground (arith, h.0), r.1))

-- The values that follow a new one.
filled-cons :
    (v : Text) (values : List Text)
    → list_beq v [] ≡ false
    → filled (v ∷ values) ≡ v ∷ filled values
unfolding filled select
filled-cons v values e = rw e refl

filled-skip :
    (v : Text) (values : List Text) → list_beq v [] ≡ true → filled (v ∷ values) ≡ filled values
unfolding filled select
filled-skip v values e = rw e refl

abbrev Fresh : List Text → List Text → Type 0
Fresh seen values = (distinct values ≡ true) × All (λ u. member u seen ≡ false) values

Fresh-cons :
    (v : Text) (seen values : List Text)
    → member v seen ≡ false
    → Fresh (v ∷ seen) values
    → Fresh seen (v ∷ values)
unfolding distinct
Fresh-cons v seen values i r =
    let (n, m) = not_among v seen values r.1 in (ground (arith, n, r.0), (i, m))

duplicates-none :
    (kind : Text) (values seen : List Text)
    → duplicates kind seen values ≡ []
    → Fresh seen (filled values)
unfolding duplicates filled select distinct
duplicates-none kind [] seen h = (refl, tt)
duplicates-none kind (v ∷ values) seen h = elim (Bool-cases (list_beq v [])) [
  | inl e ↦
      subst (Fresh seen) (sym (filled-skip v values e))
        (duplicates-none kind values seen (ground (arith, h, e)))
  | inr e ↦ elim (Bool-cases (member v seen)) [
    | inl i ↦ absurd (ground (arith, h, e, i))
    | inr i ↦ subst (Fresh seen) (sym (filled-cons v values e)) (
        Fresh-cons v seen (filled values) i
          (duplicates-none kind values (v ∷ seen) (ground (arith, h, e, i))))
  ]
]

-- The keys after one permission.
abbrev with_key : List Text → Text → List Text
with_key keys q = if list_beq q [] || member q keys then keys else keys ++ q ∷ []

with_key-member :
    (keys : List Text) (q p : Text)
    → list_beq p [] ≡ false
    → (member p keys || list_beq q p) ≡ true
    → member p (with_key keys q) ≡ true
unfolding member
with_key-member keys q p n h = ground (
  arith,
  n,
  h,
  member-++ p keys (q ∷ []),
  list_beq_iff q p,
  ap (λ x. list_beq x []) {x = q} {y = p},
  ap (λ x. member x keys) {x = q} {y = p},
)

add_keys-member :
    (permissions keys : List Text) (p : Text)
    → list_beq p [] ≡ false
    → (member p keys || member p permissions) ≡ true
    → member p (add_keys keys permissions) ≡ true
unfolding add_keys member
add_keys-member [] keys p n h = ground (arith, h)
add_keys-member (q ∷ permissions) keys p n h =
    add_keys-member permissions (with_key keys q) p n
      (ground (arith, h, with_key-member keys q p n))

known_key :
    (label : Text) (permissions keys : List Text) (p : Text)
    → All (λ k. key_errors label permissions k ≡ []) keys
    → member p keys ≡ true
    → member p permissions ≡ true
unfolding member
known_key label permissions [] p h i = cc
known_key label permissions (k ∷ keys) p h i = ground (
  arith,
  h.0,
  i,
  known_key label permissions keys p h.1,
  list_beq_iff k p,
  ap (λ x. member x permissions) {x = k} {y = p},
)

route-Granted :
    (permissions : List Text) (r : Route)
    → route_permission_errors permissions r ≡ []
    → Granted permissions r
unfolding Granted permission_keys member
route-Granted permissions r h p n i =
    known_key (route_label r) permissions (permission_keys r) p
      (errors_of-none _ (permission_keys r) h)
      (add_keys-member (r.permission ∷ r.permissions) [] p n i)

installed : (r : Route) → installer_errors r ≡ [] → r.has_installer ≡ true
installed r h = ground (arith, h)

menu_known :
    (permissions : List Text) (m : Menu)
    → menu_permission_errors permissions m ≡ []
    → (list_beq m.permission [] || member m.permission permissions) ≡ true
menu_known permissions m h = ground (arith, h)

-- A catalog that validation accepts, with its files or without, has no module id, route name, route path, menu
-- key or permission key twice, but for those that are empty; every route has an installer, and the permissions that
-- its routes and menus name are permissions of the catalog.
pub validate-ValidCatalog :
    (stat : Text → Stat) (check_files : Bool) (modules : List CatalogModule)
    → validate stat check_files modules ≡ []
    → ValidCatalog modules
unfolding validate
validate-ValidCatalog stat check_files modules h =
    let (h1, (h2, (h3, (h4, (h5, (h6, (h7, (h8, (h9, h10))))))))) =
      errors_of-none (λ e. e) (checks stat check_files modules) h in
    record {
      ids = (duplicates-none (codes "module id") (module_ids modules) [] h1).0;
      route_names =
          (duplicates-none (codes "route name") (collect (λ m. m.routes) (λ r. r.name) modules) []
            h2).0;
      route_paths =
          (duplicates-none (codes "route path") (collect (λ m. m.routes) route_path modules) []
            h3).0;
      menu_keys =
          (duplicates-none (codes "menu key") (collect (λ m. m.menus) (λ m. m.key) modules) []
            h4).0;
      permissions = (duplicates-none (codes "permission key") (permission_set modules) [] h5).0;
      installers =
          All-map _ _ modules
            (λ m e. All-map _ _ m.routes installed (errors_of-none installer_errors m.routes e))
            (errors_of-none (λ m. errors_of installer_errors m.routes) modules h7);
      granted =
          All-map _ _ modules
            (λ m e.
              All-map _ _ m.routes (route-Granted (permission_set modules))
                (errors_of-none (route_permission_errors (permission_set modules)) m.routes e))
            (errors_of-none
              (λ m. errors_of (route_permission_errors (permission_set modules)) m.routes) modules
              h8);
      menus =
          All-map _ _ modules
            (λ m e.
              All-map _ _ m.menus (menu_known (permission_set modules))
                (errors_of-none (menu_permission_errors (permission_set modules)) m.menus e))
            (errors_of-none
              (λ m. errors_of (menu_permission_errors (permission_set modules)) m.menus) modules
              h9);
    }
