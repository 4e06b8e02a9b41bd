-- ===== src/Registry/Catalog.antt =====
-- The validation of a catalog: app/modules/catalog_validator.go, with Route.PermissionKeys of
-- app/modules/module.go. What os.Stat says of a file is an argument.
pub mod Valid
use goravel_mine.Base.{Bool, not, ◌&&◌, ◌||◌, List, [], ◌∷◌, ◌++◌, map, if◌then◌else◌}
use goravel_mine.Base.Texts.{Text, codes, trim_space}
use goravel_mine.Base.Eq.{nat_eq, list_eq, list_beq}
use goravel_mine.Base.Members.{member}

pub record Route : Type 0 where
  pub name : Text
  pub method : Text
  pub path : Text
  pub permission : Text
  pub permissions : List Text
  pub has_installer : Bool

pub record Menu : Type 0 where
  pub key : Text
  pub permission : Text

-- What the validation reads of a ModuleCatalog; a permission stands by its key.
pub record CatalogModule : Type 0 where
  pub id : Text
  pub routes : List Route
  pub menus : List Menu
  pub permissions : List Text
  pub openapi_files : List Text
  pub test_templates : List Text

pub data CatalogError : Type 0 where
  duplicate : Text → Text → CatalogError
  no_installer : Text → CatalogError
  missing_permission menu_missing_permission : Text → Text → CatalogError
  missing_file : Text → Text → CatalogError
  unreadable_file : Text → Text → CatalogError

-- The loop of Route.PermissionKeys, with the keys that were added in their order.
unfoldable pub add_keys : List Text → List Text → List Text
add_keys keys [] = keys
add_keys keys (p ∷ permissions) =
    add_keys (if list_beq p [] || member p keys then keys else keys ++ p ∷ []) permissions

unfoldable pub permission_keys : Route → List Text
permission_keys r = add_keys [] (r.permission ∷ r.permissions)

-- duplicateCheck.duplicates, with the values that were seen
unfoldable pub duplicates : Text → List Text → List Text → List CatalogError
duplicates kind seen [] = []
duplicates kind seen (v ∷ values) =
    if list_beq v []
    then duplicates kind seen values
    else let first = duplicates kind (v ∷ seen) values in
      let again = duplicates kind seen values in
      if member v seen then duplicate kind v ∷ again else first

-- collectCatalogValues
unfoldable pub collect :
    {A : Type 0} → (CatalogModule → List A) → (A → Text) → List CatalogModule → List Text
collect items project [] = []
collect items project (m ∷ modules) = map project (items m) ++ collect items project modules

abbrev pub module_ids : List CatalogModule → List Text
module_ids = map (λ m. m.id)

abbrev pub permission_set : List CatalogModule → List Text
permission_set = collect (λ m. m.permissions) (λ p. p)

abbrev pub route_path : Route → Text
route_path r = r.method ++ 32 ∷ r.path

abbrev pub route_label : Route → Text
route_label r = if list_beq r.name [] then route_path r else r.name

-- The errors of all elements of a list
unfoldable pub errors_of : {A : Type 0} → (A → List CatalogError) → List A → List CatalogError
errors_of f [] = []
errors_of f (x ∷ xs) = f x ++ errors_of f xs

abbrev pub key_errors : Text → List Text → Text → List CatalogError
key_errors label permissions key =
    if member key permissions then [] else missing_permission label key ∷ []

abbrev pub route_permission_errors : List Text → Route → List CatalogError
route_permission_errors permissions r =
    errors_of (key_errors (route_label r) permissions) (permission_keys r)

abbrev pub installer_errors : Route → List CatalogError
installer_errors r = if r.has_installer then [] else no_installer (route_label r) ∷ []

abbrev pub menu_permission_errors : List Text → Menu → List CatalogError
menu_permission_errors permissions m =
    if not (list_beq m.permission []) && not (member m.permission permissions)
    then menu_missing_permission m.key m.permission ∷ []
    else []

-- What os.Stat says of a path.
pub data Stat : Type 0 where
  exists no_file no_access : Stat

abbrev pub file_errors : (Text → Stat) → Text → Text → List CatalogError
file_errors stat kind file = if list_beq file [] then [] else elim (stat file) [
  | exists ↦ []
  | no_file ↦ missing_file kind file ∷ []
  | no_access ↦ unreadable_file kind file ∷ []
]

abbrev pub metadata_file_errors : CatalogModule → List CatalogError
metadata_file_errors m =
    duplicates (codes "openapi file") [] (map trim_space m.openapi_files)
    ++ duplicates (codes "test template") [] (map trim_space m.test_templates)

abbrev pub missing_files : (Text → Stat) → List CatalogModule → List CatalogError
missing_files stat modules =
    errors_of (file_errors stat (codes "openapi file"))
      (collect (λ m. m.openapi_files) trim_space modules)
    ++ errors_of (file_errors stat (codes "test template"))
        (collect (λ m. m.test_templates) trim_space modules)

-- The checks of Catalog.validate, each with its errors
abbrev pub checks : (Text → Stat) → Bool → List CatalogModule → List (List CatalogError)
checks stat check_files modules =
    duplicates (codes "module id") [] (module_ids modules)
    ∷ duplicates (codes "route name") [] (collect (λ m. m.routes) (λ r. r.name) modules)
    ∷ duplicates (codes "route path") [] (collect (λ m. m.routes) route_path modules)
    ∷ duplicates (codes "menu key") [] (collect (λ m. m.menus) (λ m. m.key) modules)
    ∷ duplicates (codes "permission key") [] (permission_set modules)
    ∷ errors_of metadata_file_errors modules
    ∷ errors_of (λ m. errors_of installer_errors m.routes) modules
    ∷ errors_of (λ m. errors_of (route_permission_errors (permission_set modules)) m.routes) modules
    ∷ errors_of (λ m. errors_of (menu_permission_errors (permission_set modules)) m.menus) modules
    ∷ (if check_files then missing_files stat modules else [])
    ∷ []

-- Catalog.validate, with errors.Join
unfoldable pub validate : (Text → Stat) → Bool → List CatalogModule → List CatalogError
validate stat check_files modules = errors_of (λ e. e) (checks stat check_files modules)
