-- ===== src/Queue/Idempotency/Once.antt =====
-- A handler of app/services/runtime/queue/idempotency.go runs once for a key that it succeeded for, over every
-- order of the statements of any number of workers.
use goravel_mine.Base.{
  ℕ, ◌+◌, ◌<◌, Bool, ◌≡◌, refl, sym, ap, ◌∙◌, subst, inl, inr, true, false, ◌&&◌, Option, none,
  some, List, [], ◌∷◌, arith, Bool-cases, All,
}
use goravel_mine.Base.Texts.{Text, trim_space}
use goravel_mine.Base.Eq.{nat_eq, list_eq, list_beq, list_self}
use goravel_mine.Queue.Idempotency.{
  running, is_failed, is_running, or_success, Result, Row, is_expired, Reserved, claimed, refused,
  stored, create, reserve_failed, reserve_stale, reserve, finish_row, finish, Outcome, returns,
  Metadata, unpaired, last_error_of, continue, once_with_metadata, Step, reserves, finishes, apply,
  run, Run, lock_time, conflicted,
}

-- A reservation before the deadline, or a worker that finishes under another token.
abbrev pub Foreign : Text → ℕ → Step → Type 0
Foreign token until (reserves now k pair seen) = now < until
Foreign token until (finishes k r) = list_beq token k ≡ false

finish-settled :
    (token : Text) (r : Result) (row : Row)
    → is_running row.status ≡ false
    → finish token r (some row) ≡ some row
unfolding finish finish_row
finish-settled token r row h = ground (arith, h)

finish-other :
    (token : Text) (r : Result) (row : Row)
    → list_beq row.claim_token token ≡ false
    → finish token r (some row) ≡ some row
unfolding finish finish_row
finish-other token r row h = ground (arith, h)

-- A row that is not failed, nor running on an expired lock, is not reserved, whatever the query saw.
reserve-refuses :
    (now : ℕ) (token : Text) (pair : Bool) (seen : Option Row) (row : Row)
    → is_failed row.status ≡ false
    → (is_running row.status && is_expired row.locked_until now) ≡ false
    → (reserve now token pair seen (some row)).1 ≡ some row
unfolding reserve create reserve_failed reserve_stale
reserve-refuses now token pair none row f e = refl
reserve-refuses now token pair (some s) row f e = elim (Bool-cases (is_failed s.status)) [
  | inl g ↦ rw (reserve, g, f) refl
  | inr g ↦ elim (Bool-cases (is_running s.status && is_expired s.locked_until now)) [
    | inl k ↦ rw (reserve, g, k, e) refl
    | inr k ↦ rw (reserve, g, k) refl
  ]
]

apply-settled :
    (s : Step) (row : Row)
    → is_failed row.status ≡ false
    → is_running row.status ≡ false
    → apply s (some row) ≡ some row
unfolding apply
apply-settled (reserves now k pair seen) row f g =
    reserve-refuses now k pair seen row f (ap (λ b. b && is_expired row.locked_until now) g)
apply-settled (finishes k r) row f g = finish-settled k r row g

apply-Foreign :
    (token : Text) (until : ℕ) (s : Step) (row : Row)
    → row.status ≡ running
    → row.claim_token ≡ token
    → row.locked_until ≡ some until
    → Foreign token until s
    → apply s (some row) ≡ some row
unfolding apply
apply-Foreign token until (reserves now k pair seen) row p t l h =
    reserve-refuses now k pair seen row (ap is_failed p) (ground (arith, p, l, h))
apply-Foreign token until (finishes k r) row p t l h =
    finish-other k r row (subst (λ x. list_beq x k ≡ false) (sym t) h)

-- A row with a result, whose status is neither a failure nor the one of a run under way, keeps it under every sequence
-- of statements: nobody reserves its key again, although the query of a worker may be out of date.
pub run-settled :
    (steps : List Step) (row : Row)
    → is_failed row.status ≡ false
    → is_running row.status ≡ false
    → run steps (some row) ≡ some row
unfolding run
run-settled [] row f g = refl
run-settled (s ∷ steps) row f g = rw (run, apply-settled s row f g) (run-settled steps row f g)

-- While the lock of a running worker lasts, no statement of other workers changes its row.
pub run-locked :
    (token : Text) (until : ℕ) (steps : List Step) (row : Row)
    → row.status ≡ running
    → row.claim_token ≡ token
    → row.locked_until ≡ some until
    → All (Foreign token until) steps
    → run steps (some row) ≡ some row
unfolding run
run-locked token until [] row p t l h = refl
run-locked token until (s ∷ steps) row p t l h =
    rw (run, apply-Foreign token until s row p t l h.0) (run-locked token until steps row p t l h.1)

-- The row that a reservation leaves to its worker.
unfoldable pub Holds : ℕ → Text → Reserved × Option Row → Type 0
Holds now token (claimed, none) = ⊥
Holds now token (claimed, some row) =
    (row.status ≡ running)
    × ((row.claim_token ≡ token) × (row.locked_until ≡ some (now + lock_time)))
Holds now token (refused r, row) = Unit
Holds now token (conflicted, row) = Unit

failed-Holds :
    (now : ℕ) (token : Text) (r : Result) (current : Option Row)
    → Holds now token (reserve_failed now token r current)
unfolding Holds reserve_failed
failed-Holds now token r none = tt
failed-Holds now token r (some row) = elim (Bool-cases (is_failed row.status)) [
  | inl e ↦ rw (Holds, reserve_failed, e) (refl, (refl, refl))
  | inr e ↦ rw (Holds, reserve_failed, e) tt
]

stale-Holds :
    (now : ℕ) (token : Text) (r : Result) (current : Option Row)
    → Holds now token (reserve_stale now token r current)
unfolding Holds reserve_stale
stale-Holds now token r none = tt
stale-Holds now token r (some row) =
    elim (Bool-cases (is_running row.status && is_expired row.locked_until now)) [
      | inl e ↦ rw (Holds, reserve_stale, e) (refl, (refl, refl))
      | inr e ↦ rw (Holds, reserve_stale, e) tt
    ]

refused-Holds :
    (now : ℕ) (token : Text) (r : Result) (row : Option Row) → Holds now token (refused r, row)
unfolding Holds
refused-Holds now token r row = tt

create-Holds :
    (now : ℕ) (token : Text) (pair : Bool) (current : Option Row)
    → Holds now token (create now token pair current)
unfolding Holds create
create-Holds now token true none = tt
create-Holds now token false none = (refl, (refl, refl))
create-Holds now token pair (some row) = tt

reserve-Holds :
    (now : ℕ) (token : Text) (pair : Bool) (seen current : Option Row)
    → Holds now token (reserve now token pair seen current)
unfolding reserve
reserve-Holds now token pair none current = create-Holds now token pair current
reserve-Holds now token pair (some s) current = elim (Bool-cases (is_failed s.status)) [
  | inl g ↦ rw (reserve, g) (failed-Holds now token (stored false s) current)
  | inr g ↦ elim (Bool-cases (is_running s.status && is_expired s.locked_until now)) [
    | inl k ↦ rw (reserve, g, k) (stale-Holds now token (stored false s) current)
    | inr k ↦ rw (reserve, g, k) (refused-Holds now token (stored true s) current)
  ]
]

-- The row that a handler's result is stored in.
abbrev pub finished : Result → Row
finished r = record {
  status = r.status;
  result = r.result;
  last_error = last_error_of r;
  locked_until = none;
  claim_token = [];
}

finish-held :
    (token : Text) (r : Result) (row : Row)
    → row.status ≡ running
    → row.claim_token ≡ token
    → finish token r (some row) ≡ some (finished r)
unfolding finish finish_row
finish-held token r row p t = rw (finish, finish_row, p, t, list_self token) refl

continue-stores :
    (now : ℕ) (token : Text) (r : Result) (during : List Step) (x : Reserved × Option Row)
    → Holds now token x
    → All (Foreign token (now + lock_time)) during
    → (continue token (returns r) during x).called ≡ true
    → (continue token (returns r) during x).row
      ≡ some (finished (record r { status = or_success r.status }))
unfolding Holds
continue-stores now token r during (claimed, none) h f c = absurd h
continue-stores now token r during (claimed, some row) h f c =
    let result = record r { status = or_success r.status } in
    ap (finish token result) (run-locked token (now + lock_time) during row h.0 h.1.0 h.1.1 f)
    ∙ finish-held token result row h.0 h.1.0
continue-stores now token r during (refused q, row) h f c = cc
continue-stores now token r during (conflicted, row) h f c = cc

-- The checks of the arguments pass.
once-continue :
    (now : ℕ) (token : Text) (pair : Bool) (key : Text) (m : Metadata) (handler : Outcome)
    (during : List Step) (seen row : Option Row)
    → list_beq (trim_space key) [] ≡ false
    → unpaired m ≡ false
    → once_with_metadata now token pair key m handler during seen row
      ≡ continue token handler during (reserve now token pair seen row)
unfolding once_with_metadata
once-continue now token pair key m handler during seen row k u = rw (once_with_metadata, k, u) refl

reserve-done :
    (now : ℕ) (token : Text) (pair : Bool) (row : Row) (current : Option Row)
    → is_failed row.status ≡ false
    → is_running row.status ≡ false
    → reserve now token pair (some row) current ≡ (refused (stored true row), current)
unfolding reserve
reserve-done now token pair row current f g = rw (reserve, f, g) refl

abbrev pub done_again : Result → Run
done_again r = record {
  answer = inr (record { status = or_success r.status; result = r.result; duplicate = true });
  called = false;
  row = some (finished (record r { status = or_success r.status }));
}

-- Where a call ran its handler, which returned a result whose status is neither a failure nor the one of a run under
-- way, and until it settled other workers reserved the key only before the end of its lock of five minutes, and
-- settled only under other tokens: whatever statements any workers make after that, and between the query and the
-- reservation of a further call, that call runs no handler, gives that result marked as a duplicate, and leaves it.
pub once_again :
    (now later : ℕ) (token token' : Text) (pair pair' : Bool) (key : Text) (m m' : Metadata)
    (r : Result) (next : Outcome) (during after between during' : List Step) (seen row : Option Row)
    → list_beq (trim_space key) [] ≡ false
    → unpaired m ≡ false
    → unpaired m' ≡ false
    → is_failed (or_success r.status) ≡ false
    → is_running (or_success r.status) ≡ false
    → All (Foreign token (now + lock_time)) during
    → (once_with_metadata now token pair key m (returns r) during seen row).called ≡ true
    → once_with_metadata later token' pair' key m' next during'
        (run after (once_with_metadata now token pair key m (returns r) during seen row).row)
        (run between
          (run after (once_with_metadata now token pair key m (returns r) during seen row).row))
      ≡ done_again r
once_again now later token token' pair pair' key m m' r next during after between during' seen row k
      u u' f g o c =
    let begins = once-continue now token pair key m (returns r) during seen row k u in
    let result = finished (record r { status = or_success r.status }) in
    let kept =
      ap (λ x. x.row) begins
      ∙ continue-stores now token r during (reserve now token pair seen row)
          (reserve-Holds now token pair seen row) o (sym (ap (λ x. x.called) begins) ∙ c) in
    rw
      (
        kept,
        run-settled after result f g,
        run-settled between result f g,
        once-continue later token' pair' key m' next during' (some result) (some result) k u',
      )
      (ap (continue token' next during') (reserve-done later token' pair' result (some result) f g))
