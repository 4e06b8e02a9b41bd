-- ===== src/Lifecycle/Store.antt =====
-- MemoryLifecycleStore, app/modulecatalog/lifecycle_memory_store.go: its methods, each under its mutex, at a
-- time that the clock gives.
pub mod Leases
use goravel_mine.Base.{
  ℕ, ◌+◌, ◌*◌, ◌^◌, ◌⊎◌, inl, inr, Bool, true, false, not, ◌&&◌, ◌||◌, Option, none, some, List, [],
  ◌∷◌, ltb, if◌then◌else◌, ◌==◌,
}
use goravel_mine.Base.Texts.{Text, trim_space}
use goravel_mine.Base.Eq.{nat_eq, list_eq, list_beq}
use goravel_mine.Base.Dict.{Dict, get, get_or, put}
use goravel_mine.Base.Dict.{remove}
use goravel_mine.Queue.Retry.{int64_positive}

pub record Lock : Type 0 where
  pub key : Text
  pub owner : Text
  pub run_key : Text
  pub acquired : Bool
  pub expires_at : ℕ

pub data RunStatus : Type 0 where
  planned running succeeded failed skipped lock_blocked manual_required reconciliation_required :
      RunStatus

pub record RunRecord : Type 0 where
  pub idempotency_key : Text
  pub status : RunStatus
  pub error : Text
  pub finished_at : ℕ

pub record StepRecord : Type 0 where
  pub attempt_key : Text
  pub status : RunStatus
  pub stdout : Text
  pub stderr : Text
  pub error : Text
  pub started : ℕ
  pub finished : ℕ

pub record Store : Type 0 where
  pub locks : Dict Text Lock
  pub runs : Dict Text RunRecord
  pub steps : List StepRecord
  pub states : Dict Text Text

pub data LockError : Type 0 where
  key_required not_acquired : LockError
  lost : Text → LockError

-- time.Minute, for a duration that is not positive
abbrev pub ttl_of : ℕ → ℕ
ttl_of ttl = if int64_positive ttl then ttl else 60 * 10 ^ 9

-- The lock that holds a key now.
unfoldable pub holder : Dict Text Lock → Text → ℕ → Option Lock
holder locks key now = elim (get locks key) [
  | none ↦ none
  | some l ↦ if ltb now l.expires_at then some l else none
]

abbrev pub new_lock : Text → Text → Text → ℕ → ℕ → Lock
new_lock key owner run_key ttl now = record {
  key = key;
  owner = owner;
  run_key = run_key;
  acquired = true;
  expires_at = now + ttl_of ttl;
}

-- Acquire
unfoldable pub acquire : Text → Text → Text → ℕ → ℕ → Store → (LockError ⊎ Lock) × Store
acquire key_text owner_text run_key ttl now s =
    let key = trim_space key_text in
    let owner = trim_space owner_text in
    if list_beq key [] || list_beq owner []
    then (inl key_required, s)
    else elim (holder s.locks key now) [
      | some l ↦ (inr (record l { key = key; acquired = false }), s)
      | none ↦ (
        inr (new_lock key owner run_key ttl now),
        record s { locks = put s.locks key (new_lock key owner run_key ttl now) },
      )
    ]

abbrev pub is_own : Lock → Lock → Bool
is_own current lock = list_beq current.owner lock.owner && list_beq current.run_key lock.run_key

abbrev pub renewed : Lock → ℕ → ℕ → Lock
renewed lock ttl now = record lock { expires_at = now + ttl_of ttl }

-- Renew, which does not ask whether the lease is over
unfoldable pub renew : Lock → ℕ → ℕ → Store → (LockError ⊎ Lock) × Store
renew lock ttl now s =
    if not lock.acquired then (inl not_acquired, s) else elim (get s.locks lock.key) [
      | none ↦ (inl (lost lock.key), s)
      | some current ↦
          if is_own current lock
          then (
            inr (renewed lock ttl now),
            record s { locks = put s.locks lock.key (renewed lock ttl now) },
          )
          else (inl (lost lock.key), s)
    ]

-- Release
unfoldable pub release : Lock → Store → Store
release lock s = if not lock.acquired then s else elim (get s.locks lock.key) [
  | none ↦ s
  | some current ↦ if is_own current lock then record s { locks = remove s.locks lock.key } else s
]

-- lifecycleRunBlocksAutomaticRetry of app/modulecatalog/lifecycle_db_repository.go
unfoldable pub blocks_retry : RunStatus → Bool
blocks_retry succeeded = true
blocks_retry reconciliation_required = true
blocks_retry _ = false

unfoldable pub successful_run_exists : Text → Store → Bool
successful_run_exists key s = elim (get s.runs key) [
  | none ↦ false
  | some r ↦ blocks_retry r.status
]

unfoldable pub begin_run : RunRecord → Store → Store
begin_run r s = record s { runs = put s.runs r.idempotency_key (record r { status = running }) }

abbrev pub no_run : RunRecord
no_run = record { idempotency_key = []; status = planned; error = []; finished_at = 0 }

unfoldable pub complete_run : Text → RunStatus → Text → ℕ → Store → Store
complete_run key status error finished_at s =
    let r = get_or s.runs key no_run in
    record s {
      runs =
          put s.runs key (record r { status = status; error = error; finished_at = finished_at });
    }

abbrev pub updated_step : StepRecord → StepRecord → StepRecord
updated_step item step = record item {
  started = if step.started == 0 then item.started else step.started;
  finished = if step.finished == 0 then item.finished else step.finished;
  status = step.status;
  stdout = step.stdout;
  stderr = step.stderr;
  error = step.error;
}

-- RecordStep: the first step of the attempt is updated, or the step is added.
unfoldable pub record_step : StepRecord → List StepRecord → List StepRecord
record_step step [] = step ∷ []
record_step step (item ∷ steps) =
    let rest = record_step step steps in
    if list_beq item.attempt_key step.attempt_key
    then updated_step item step ∷ steps
    else item ∷ rest

unfoldable pub upsert_state : Text → Text → Store → Store
upsert_state module_id state s = record s { states = put s.states module_id state }
