-- ===== src/Queue/Idempotency.antt =====
-- app/services/runtime/queue/idempotency.go: a handler runs once for a key. Every statement of the table
-- queue_idempotency is about the row of one key, so that a row, where there is one, stands for the table.
pub mod Once
use goravel_mine.Base.{
  ℕ, ◌+◌, ◌⊎◌, inl, inr, Bool, true, false, not, ◌&&◌, ◌||◌, Option, none, some, List, [], ◌∷◌, leb,
  if◌then◌else◌,
}
use goravel_mine.Base.Texts.{Text, codes, trim_space}
use goravel_mine.Base.Eq.{nat_eq, list_eq, list_beq}

pub data RunStatus : Type 0 where
  unset running success failed : RunStatus
  custom : Text → RunStatus

abbrev pub is_failed : RunStatus → Bool
is_failed failed = true
is_failed _ = false

abbrev pub is_running : RunStatus → Bool
is_running running = true
is_running _ = false

-- `if result.Status == ""`
abbrev pub or_success : RunStatus → RunStatus
or_success unset = success
or_success s = s

-- QueueIdempotencyResult
pub record Result : Type 0 where
  pub status : RunStatus
  pub result : Text
  pub duplicate : Bool

pub record Row : Type 0 where
  pub status : RunStatus
  pub result : Text
  pub last_error : Option Text
  pub locked_until : Option ℕ
  pub claim_token : Text

abbrev pub lock_time : ℕ
lock_time = 300000000000

abbrev pub is_expired : Option ℕ → ℕ → Bool
is_expired none now = true
is_expired (some t) now = leb t now

-- The answer of reserve: a claim, the error of an insertion that failed, or the result that Once returns in place of
-- the handler's.
pub data Reserved : Type 0 where
  claimed conflicted : Reserved
  refused : Result → Reserved

abbrev pub stored : Bool → Row → Result
stored d row = record { status = row.status; result = row.result; duplicate = d }

abbrev pub new_row : ℕ → Text → Row
new_row now token = record {
  status = running;
  result = [];
  last_error = none;
  locked_until = some (now + lock_time);
  claim_token = token;
}

abbrev pub taken : ℕ → Text → Row → Row
taken now token row = record row {
  status = running;
  locked_until = some (now + lock_time);
  claim_token = token;
}

-- Create, which fails where the key has a row, or where the row of another key has the pair of consumer key and
-- idempotency key (`pair_taken`), which is unique; and existingAfterReserveConflict.
unfoldable pub create : ℕ → Text → Bool → Option Row → Reserved × Option Row
create now token pair_taken none =
    if pair_taken then (conflicted, none) else (claimed, some (new_row now token))
create now token pair_taken (some row) = (refused (stored true row), some row)

-- reserveFailed with its fallback
unfoldable pub reserve_failed : ℕ → Text → Result → Option Row → Reserved × Option Row
reserve_failed now token fallback none = (refused fallback, none)
reserve_failed now token fallback (some row) =
    if is_failed row.status
    then (claimed, some (taken now token row))
    else (refused fallback, some row)

-- reserveStaleRunning with its fallback
unfoldable pub reserve_stale : ℕ → Text → Result → Option Row → Reserved × Option Row
reserve_stale now token fallback none = (refused fallback, none)
reserve_stale now token fallback (some row) =
    if is_running row.status && is_expired row.locked_until now
    then (claimed, some (taken now token row))
    else (refused fallback, some row)

-- reserve: what its query saw, and the row that the following statement meets, which other workers may
-- have changed in between.
unfoldable pub reserve : ℕ → Text → Bool → Option Row → Option Row → Reserved × Option Row
reserve now token pair_taken none current = create now token pair_taken current
reserve now token pair_taken (some row) current =
    if not (is_failed row.status)
    then (if is_running row.status && is_expired row.locked_until now
        then reserve_stale now token (stored false row) current
        else (refused (stored true row), current))
    else reserve_failed now token (stored false row) current

-- lastErrorForIdempotencyResult
abbrev pub last_error_of : Result → Option Text
last_error_of r = if is_failed r.status then some r.result else none

unfoldable pub finish_row : Text → Result → Row → Row
finish_row token r row =
    if is_running row.status && list_beq row.claim_token token
    then record {
      status = r.status;
      result = r.result;
      last_error = last_error_of r;
      locked_until = none;
      claim_token = [];
    }
    else row

unfoldable pub finish : Text → Result → Option Row → Option Row
finish token r none = none
finish token r (some row) = some (finish_row token r row)

-- What the handler returns.
pub data Outcome : Type 0 where
  returns : Result → Outcome
  fails : Text → Outcome

-- QueueIdempotencyMetadata, but for the message's id, which is stored only.
pub record Metadata : Type 0 where
  pub consumer_key : Text
  pub idempotency_key : Text

abbrev pub unpaired : Metadata → Bool
unpaired m =
    let c = list_beq (trim_space m.consumer_key) [] in
    let i = list_beq (trim_space m.idempotency_key) [] in not (c && i) && (c || i)

-- A statement of a worker: the one that follows the query of reserve, with what that query saw, or the
-- update of finish.
pub data Step : Type 0 where
  reserves : ℕ → Text → Bool → Option Row → Step
  finishes : Text → Result → Step

unfoldable pub apply : Step → Option Row → Option Row
apply (reserves now token pair_taken seen) row = (reserve now token pair_taken seen row).1
apply (finishes token r) row = finish token r row

unfoldable pub run : List Step → Option Row → Option Row
run [] row = row
run (s ∷ steps) row = run steps (apply s row)

-- What OnceWithMetadata comes to: the result, or the error's text, whether the handler ran, and the row.
pub record Run : Type 0 where
  pub answer : Text ⊎ Result
  pub called : Bool
  pub row : Option Row

abbrev pub settle : Text → Outcome → Option Row → Run
settle token (fails e) row = record {
  answer = inl e;
  called = true;
  row = finish token (record { status = failed; result = e; duplicate = false }) row;
}
settle token (returns r) row = record {
  answer = inr (record r { status = or_success r.status });
  called = true;
  row = finish token (record r { status = or_success r.status }) row;
}

-- What follows the reservation, where other workers make the statements `during` while the handler runs.
abbrev pub continue : Text → Outcome → List Step → Reserved × Option Row → Run
continue token handler during (claimed, row) = settle token handler (run during row)
continue token handler during (refused r, row) = record {
  answer = inr r;
  called = false;
  row = row;
}
continue token handler during (conflicted, row) = record {
  answer = inl (codes "duplicate pair");
  called = false;
  row = row;
}

-- OnceWithMetadata, whose query sees the row `seen`, whose reservation meets `row`, and which settles after the
-- statements `during` of other workers.
unfoldable pub once_with_metadata :
    ℕ → Text → Bool → Text → Metadata → Outcome → List Step → Option Row → Option Row → Run
once_with_metadata now token pair_taken key metadata handler during seen row =
    if list_beq (trim_space key) []
    then record { answer = inl (codes "key is required"); called = false; row = row }
    else if unpaired metadata
    then record { answer = inl (codes "keys belong together"); called = false; row = row }
    else continue token handler during (reserve now token pair_taken seen row)
