-- ===== src/Tenant/Evidence/Changes.antt =====
-- How often the status of a run changes, app/services/application/tenant.go.
use goravel_mine.Base.{
  ℕ, ◌+◌, ◌≤◌, ◌≡◌, refl, ap, inl, inr, Bool, true, false, Option, none, some, List, [], ◌∷◌, arith,
  if◌then◌else◌,
}
use goravel_mine.Base.Eq.{nat_eq, list_eq}
use goravel_mine.Tenant.Runs.{Status, same_status, Tables}
use goravel_mine.Tenant.Evidence.Ranks.{Op, apply, rank_of, status_of, apply-Forward}

unfoldable pub same_row : Option Status → Option Status → Bool
unfolding same_status
same_row none none = true
same_row (some a) (some b) = same_status a b
same_row _ _ = false

-- How often the status of an id changes under statements at given times.
unfoldable pub changes : ℕ → List (ℕ × Op) → Tables → ℕ
changes id [] db = 0
changes id ((now, op) ∷ ops) db =
    let next = apply now op db in
    (if same_row (status_of id db.runs) (status_of id next.runs) then 0 else 1)
    + changes id ops next

same_row_self : (o : Option Status) → same_row o o ≡ true
unfolding same_row same_status
same_row_self none = refl
same_row_self (some s) = ground arith

rank-le : (o : Option Status) → rank_of o ≤ 5
rank-le none = omega arith
rank-le (some s) = ground arith

changes-rank :
    (id : ℕ) (ops : List (ℕ × Op)) (db : Tables)
    → changes id ops db + rank_of (status_of id db.runs) ≤ 5
unfolding changes
changes-rank id [] db = omega (arith, rank-le (status_of id db.runs))
changes-rank id ((now, op) ∷ ops) db = elim (apply-Forward id now op db) [
  | inl e ↦ ground (
    arith,
    changes-rank id ops (apply now op db),
    ap rank_of e,
    ap (same_row (status_of id db.runs)) e,
    same_row_self (status_of id db.runs),
  )
  | inr l ↦ ground (arith, l, changes-rank id ops (apply now op db))
]

-- Whatever statements the repository makes and at whatever times, the status of a run changes at most five times,
-- its creation included.
pub changes_bounded : (id : ℕ) (ops : List (ℕ × Op)) (db : Tables) → changes id ops db ≤ 5
changes_bounded id ops db = omega (arith, changes-rank id ops db)
