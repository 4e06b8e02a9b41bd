-- ===== src/Migration/Keys.antt =====
-- The scopes of the migration lock and their advisory keys, app/services/runtime/migrationlock/service.go.
-- hash/fnv is a parameter.
use goravel_mine.Base.{
  ℕ, ◌+◌, ◌^◌, ◌≡◌, refl, sym, ◌∙◌, subst, inl, inr, Bool, true, false, not, ◌||◌, Option, none,
  some, List, [], ◌∷◌, ◌++◌, map, arith, ltb, if◌then◌else◌, u64, ==_refl, Bool-cases,
}
use goravel_mine.Base.Texts.{Text, codes, trim_space}
use goravel_mine.Base.Texts.{to_lower}
use goravel_mine.Base.Eq.{nat_eq, list_eq, list_beq, list_beq_iff}
use goravel_mine.Base.Members.{member}

abbrev pub platform_scope : Text
platform_scope = codes "platform"

abbrev pub tenants_scope : Text
tenants_scope = codes "tenants"

abbrev pub all_scope : Text
all_scope = codes "all"

unfoldable pub valid_scope : Text → Bool
valid_scope scope =
    list_beq scope platform_scope || list_beq scope tenants_scope || list_beq scope all_scope

-- ParseMigrationScope
unfoldable pub parse_scope : Text → Option Text
parse_scope value =
    let scope = to_lower (trim_space value) in if valid_scope scope then some scope else none

-- An int64 by its 64 bits: the sign comes first in the order.
abbrev pub signed_less : ℕ → ℕ → Bool
signed_less a b = ltb (u64 (a + 2 ^ 63)) (u64 (b + 2 ^ 63))

-- sort.Slice on at most two keys
unfoldable pub sorted_keys : List ℕ → List ℕ
sorted_keys (a ∷ b ∷ []) = if signed_less b a then b ∷ a ∷ [] else a ∷ b ∷ []
sorted_keys keys = keys

-- The scopes whose keys a scope takes.
abbrev pub scopes_of : Text → List Text
scopes_of scope =
    if list_beq scope all_scope then platform_scope ∷ tenants_scope ∷ [] else scope ∷ []

abbrev pub key_of : (Text → ℕ) → Text → Text → ℕ
key_of fnv database scope =
    u64 (fnv (codes "goravel-mine:migration:" ++ database ++ codes ":" ++ scope))

-- migrationLockKeys
unfoldable pub lock_keys : (Text → ℕ) → Text → Text → Option (List ℕ)
lock_keys fnv database scope =
    let name = trim_space database in
    if list_beq name [] || not (valid_scope scope)
    then none
    else some (sorted_keys (map (key_of fnv name) (scopes_of scope)))

-- Two scopes of a database have a key in common.
pub record Overlap (xs ys : List ℕ) : Type 0 where
  pub shared : ℕ
  pub left : member shared xs ≡ true
  pub right : member shared ys ≡ true

member-sorted_keys : (k : ℕ) (keys : List ℕ) → member k (sorted_keys keys) ≡ member k keys
unfolding sorted_keys member
member-sorted_keys k [] = refl
member-sorted_keys k (a ∷ []) = refl
member-sorted_keys k (a ∷ b ∷ []) = ground (arith)
member-sorted_keys k (a ∷ b ∷ c ∷ keys) = refl

-- The keys that are returned are those of the scopes, of a valid scope.
record Taken (fnv : Text → ℕ) (database scope : Text) (keys : List ℕ) : Type 0 where
  valid : valid_scope scope ≡ true
  same : sorted_keys (map (key_of fnv (trim_space database)) (scopes_of scope)) ≡ keys

lock_keys-Taken :
    (fnv : Text → ℕ) (database scope : Text) (keys : List ℕ)
    → lock_keys fnv database scope ≡ some keys
    → Taken fnv database scope keys
unfolding lock_keys
lock_keys-Taken fnv database scope keys h = record {
  valid = ground (arith, h);
  same = ground (arith, h);
}

Taken-member :
    (fnv : Text → ℕ) (database scope : Text) (keys : List ℕ) (k : ℕ)
    → Taken fnv database scope keys
    → member k (map (key_of fnv (trim_space database)) (scopes_of scope)) ≡ true
    → member k keys ≡ true
Taken-member fnv database scope keys k t h =
    subst (λ ks. member k ks ≡ true) t.same (member-sorted_keys k _ ∙ h)

-- The scope of which a run over all scopes and another run both take the key.
common_scope : Text → Text
common_scope scope = if list_beq scope tenants_scope then tenants_scope else platform_scope

first-member : (k : ℕ) (ks : List ℕ) → member k (k ∷ ks) ≡ true
unfolding member
first-member k ks = ground (arith, ==_refl k)

second-member : (k j : ℕ) (ks : List ℕ) → member k (j ∷ k ∷ ks) ≡ true
unfolding member
second-member k j ks = ground (arith, ==_refl k)

common-all :
    (f : Text → ℕ) (scope : Text)
    → member (f (common_scope scope)) (f platform_scope ∷ f tenants_scope ∷ []) ≡ true
unfolding common_scope
common-all f scope = elim (Bool-cases (list_beq scope tenants_scope)) [
  | inl e ↦ rw (common_scope, e) (second-member (f tenants_scope) (f platform_scope) [])
  | inr e ↦ rw (common_scope, e) (first-member (f platform_scope) (f tenants_scope ∷ []))
]

-- A valid scope is the one in common, unless it is for all.
valid-common :
    (scope : Text)
    → valid_scope scope ≡ true
    → list_beq scope all_scope ≡ false
    → common_scope scope ≡ scope
unfolding common_scope valid_scope
valid-common scope v n =
    ground (arith, v, n, list_beq_iff scope tenants_scope, list_beq_iff scope platform_scope)

common-own :
    (f : Text → ℕ) (scope : Text)
    → valid_scope scope ≡ true
    → member (f (common_scope scope)) (map f (scopes_of scope)) ≡ true
common-own f scope v = elim (Bool-cases (list_beq scope all_scope)) [
  | inl e ↦ rw e (common-all f scope)
  | inr e ↦ rw e (
      subst (λ x. member (f x) (f scope ∷ []) ≡ true) (sym (valid-common scope v e))
        (first-member (f scope) []))
]

all-scopes : (f : Text → ℕ) → map f (scopes_of all_scope) ≡ f platform_scope ∷ f tenants_scope ∷ []
unfolding list_beq
all-scopes f = refl

-- A run over all scopes has a key in common with every run on the same database.
pub lock_keys-Overlap :
    (fnv : Text → ℕ) (database scope : Text) (xs ys : List ℕ)
    → lock_keys fnv database all_scope ≡ some xs
    → lock_keys fnv database scope ≡ some ys
    → Overlap xs ys
lock_keys-Overlap fnv database scope xs ys h g =
    let t = lock_keys-Taken fnv database all_scope xs h in
    let u = lock_keys-Taken fnv database scope ys g in
    let f = key_of fnv (trim_space database) in
    record {
      shared = f (common_scope scope);
      left = Taken-member fnv database all_scope xs _ t (
          subst (λ ks. member (f (common_scope scope)) ks ≡ true) (sym (all-scopes f))
            (common-all f scope));
      right = Taken-member fnv database scope ys _ u (common-own f scope u.valid);
    }
