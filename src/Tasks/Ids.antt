-- ===== src/Tasks/Ids.antt =====
-- compactUniqueUint64 of app/services/runtime/scheduledtask/tenant_scope.go.
use goravel_mine.Base.{
  ℕ, ◌<◌, ◌≡◌, refl, ap, inl, inr, true, false, not, ◌&&◌, ◌||◌, List, [], ◌∷◌, arith, ltb,
  if◌then◌else◌, ◌==◌, ==_iff, ==_refl, Bool-cases, All,
}
use goravel_mine.Base.Eq.{nat_eq, list_eq}
use goravel_mine.Base.Members.{member, distinct}

-- The loop, with the values that were seen
unfoldable pub unique : List ℕ → List ℕ → List ℕ
unique seen [] = []
unique seen (v ∷ values) =
    let skipped = unique seen values in
    let taken = unique (v ∷ seen) values in if (v == 0) || member v seen then skipped else v ∷ taken

-- sort.Slice
unfoldable pub insert_id : ℕ → List ℕ → List ℕ
insert_id v [] = v ∷ []
insert_id v (x ∷ xs) = let rest = insert_id v xs in if ltb x v then x ∷ rest else v ∷ x ∷ xs

unfoldable pub sort_ids : List ℕ → List ℕ
sort_ids [] = []
sort_ids (v ∷ values) = insert_id v (sort_ids values)

unfoldable pub compact_unique : List ℕ → List ℕ
compact_unique values = sort_ids (unique [] values)

-- Each number is above the one before it.
unfoldable pub Ascending : List ℕ → Type 0
Ascending [] = Unit
Ascending (x ∷ xs) = All (λ y. x < y) xs × Ascending xs

member-unique :
    (values seen : List ℕ) (k : ℕ)
    → member k (unique seen values) ≡ (member k values && (not (k == 0) && not (member k seen)))
unfolding unique member
member-unique [] seen k = refl
member-unique (v ∷ values) seen k = ground (
  arith,
  member-unique values seen k,
  member-unique values (v ∷ seen) k,
  ==_iff v k,
  ap (λ x. member x seen) {x = v} {y = k},
)

unique-distinct : (values seen : List ℕ) → distinct (unique seen values) ≡ true
unfolding unique distinct member
unique-distinct [] seen = refl
unique-distinct (v ∷ values) seen = ground (
  arith,
  unique-distinct values seen,
  unique-distinct values (v ∷ seen),
  member-unique values (v ∷ seen) v,
  ==_refl v,
)

member-insert_id : (k v : ℕ) (xs : List ℕ) → member k (insert_id v xs) ≡ member k (v ∷ xs)
unfolding insert_id member
member-insert_id k v [] = refl
member-insert_id k v (x ∷ xs) = ground (arith, member-insert_id k v xs)

member-sort_ids : (k : ℕ) (xs : List ℕ) → member k (sort_ids xs) ≡ member k xs
unfolding sort_ids member
member-sort_ids k [] = refl
member-sort_ids k (x ∷ xs) =
    ground (arith, member-insert_id k x (sort_ids xs), member-sort_ids k xs)

insert_id-above :
    (b v : ℕ) (xs : List ℕ) → b < v → All (λ y. b < y) xs → All (λ y. b < y) (insert_id v xs)
unfolding insert_id
insert_id-above b v [] h a = (h, tt)
insert_id-above b v (x ∷ xs) h a = elim (Bool-cases (ltb x v)) [
  | inl e ↦ rw (insert_id, e) (a.0, insert_id-above b v xs h a.1)
  | inr e ↦ rw (insert_id, e) (h, a)
]

All-above : (a b : ℕ) (xs : List ℕ) → a < b → All (λ y. b < y) xs → All (λ y. a < y) xs
All-above a b [] h k = tt
All-above a b (x ∷ xs) h k = (omega (arith, h, k.0), All-above a b xs h k.1)

insert_id-Ascending :
    (v : ℕ) (xs : List ℕ) → member v xs ≡ false → Ascending xs → Ascending (insert_id v xs)
unfolding insert_id Ascending member
insert_id-Ascending v [] n a = (tt, tt)
insert_id-Ascending v (x ∷ xs) n a = elim (Bool-cases (ltb x v)) [
  | inl e ↦
      rw (insert_id, e)
        (
          insert_id-above x v xs (ground (arith, e)) a.0,
          insert_id-Ascending v xs (ground (arith, n)) a.1,
        )
  | inr e ↦
      let less : v < x = ground (arith, e, n, ==_iff x v) in
      rw (insert_id, e) ((less, All-above v x xs less a.0), a)
]

sort_ids-Ascending : (xs : List ℕ) → distinct xs ≡ true → Ascending (sort_ids xs)
unfolding sort_ids Ascending distinct
sort_ids-Ascending [] d = tt
sort_ids-Ascending (x ∷ xs) d =
    insert_id-Ascending x (sort_ids xs) (ground (arith, d, member-sort_ids x xs))
      (sort_ids-Ascending xs (ground (arith, d)))

-- The ids that are left are those that are not 0, each once and in ascending order.
pub compact_unique-exact :
    (values : List ℕ)
    → Ascending (compact_unique values)
      × ((k : ℕ) → member k (compact_unique values) ≡ (member k values && not (k == 0)))
unfolding compact_unique member
compact_unique-exact values = (
  sort_ids-Ascending (unique [] values) (unique-distinct values []),
  λ k. ground (arith, member-sort_ids k (unique [] values), member-unique values [] k),
)
