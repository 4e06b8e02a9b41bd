-- ===== src/Tenant/Runs.antt =====
-- TenantGovernanceRunRepository, app/services/application/tenant.go: the rows of the tables
-- tenant_governance_run and tenant_governance_evidence, and the statements on them.
use goravel_mine.Base.{
  ℕ, ◌+◌, ◌⊎◌, inl, inr, Bool, true, false, not, ◌&&◌, ◌||◌, Option, none, some, List, [], ◌∷◌,
  ◌++◌, if◌then◌else◌, ◌==◌, length, select,
}
use goravel_mine.Base.Texts.{Text, codes, trim_space}
use goravel_mine.Base.Eq.{nat_eq, list_eq, list_beq}

-- The statuses of app/models/tenant_governance_run.go.
pub data Status : Type 0 where
  pending running awaiting_evidence artifact_written completed failed stale : Status

unfoldable pub same_status : Status → Status → Bool
same_status pending pending = true
same_status running running = true
same_status awaiting_evidence awaiting_evidence = true
same_status artifact_written artifact_written = true
same_status completed completed = true
same_status failed failed = true
same_status stale stale = true
same_status _ _ = false

abbrev pub retention : Text
retention = codes "retention"

unfoldable pub valid_kind : Text → Bool
valid_kind kind =
    list_beq kind retention
    || list_beq kind (codes "export")
    || list_beq kind (codes "isolation_verify")

pub record Run : Type 0 where
  pub id : ℕ
  pub tenant_id : ℕ
  pub tenant_code : Text
  pub kind : Text
  pub key : Text
  pub policy_version : Text
  pub plan_id : Text
  pub status : Status
  pub started_at : Option ℕ
  pub finished_at : Option ℕ
  pub error : Text
  pub updated_at : ℕ

pub record Evidence : Type 0 where
  pub run_id : ℕ
  pub tenant_id : ℕ
  pub kind : Text
  pub uri : Text
  pub object_version : Text
  pub sha256 : Text
  pub verified_at : ℕ
  pub expires_at : ℕ
  pub stale_at : Option ℕ

-- The two tables; the database gives a new run the next id.
pub record Tables : Type 0 where
  pub runs : List Run
  pub evidence : List Evidence
  pub last_id : ℕ

pub data RunError : Type 0 where
  invalid_transition evidence_exists evidence_invalid : RunError

-- tenantGovernanceTransitionAllowed
unfoldable pub transition_allowed : Status → Status → Bool
transition_allowed pending running = true
transition_allowed pending failed = true
transition_allowed running awaiting_evidence = true
transition_allowed running artifact_written = true
transition_allowed running completed = true
transition_allowed running failed = true
transition_allowed awaiting_evidence completed = true
transition_allowed awaiting_evidence failed = true
transition_allowed artifact_written completed = true
transition_allowed artifact_written failed = true
transition_allowed completed stale = true
transition_allowed _ _ = false

unfoldable pub terminal : Status → Bool
unfolding same_status
terminal s = same_status s completed || same_status s failed || same_status s stale

-- UPDATE with a condition
unfoldable pub update_runs : (Run → Bool) → (Run → Run) → List Run → List Run
update_runs p f [] = []
update_runs p f (r ∷ runs) = (if p r then f r else r) ∷ update_runs p f runs

abbrev pub affected : (Run → Bool) → List Run → ℕ
affected p runs = length (select p runs)

-- An UPDATE of the runs that has to affect one row
abbrev pub update_one : (Run → Bool) → (Run → Run) → Tables → Option RunError × Tables
update_one p f db = (
  if affected p db.runs == 1 then none else some invalid_transition,
  record db { runs = update_runs p f db.runs },
)

abbrev pub at_status : ℕ → Status → Run → Bool
at_status id status r = (r.id == id) && same_status r.status status

abbrev pub moved : Status → Text → ℕ → Run → Run
moved to message now r = record r {
  status = to;
  updated_at = now;
  started_at = if same_status to running then some now else r.started_at;
  finished_at = if terminal to then some now else r.finished_at;
  error = if list_beq (trim_space message) [] then r.error else trim_space message;
}

unfoldable pub transition : ℕ → Status → Status → Text → ℕ → Tables → Option RunError × Tables
transition id from to message now db =
    if (id == 0) || not (transition_allowed from to)
    then (some invalid_transition, db)
    else update_one (at_status id from) (moved to message now) db

abbrev pub awaiting : Text → ℕ → Run → Run
awaiting plan now r = record r {
  plan_id = plan;
  status = awaiting_evidence;
  error = [];
  updated_at = now;
}

unfoldable pub await_retention : ℕ → Text → ℕ → Tables → Option RunError × Tables
await_retention id plan_id now db =
    let plan = trim_space plan_id in
    if (id == 0) || list_beq plan []
    then (some invalid_transition, db)
    else update_one (λ r. at_status id running r && list_beq r.kind retention) (awaiting plan now)
        db

-- First(&run) under a condition
unfoldable pub first_run : (Run → Bool) → List Run → Option Run
first_run p [] = none
first_run p (r ∷ runs) = if p r then some r else first_run p runs

unfoldable pub finish_plan : Text → Status → Text → ℕ → Tables → Option RunError × Tables
finish_plan plan_id status message now db =
    let plan = trim_space plan_id in
    if list_beq plan [] || not (same_status status completed || same_status status failed)
    then (some invalid_transition, db)
    else elim (first_run (λ r. list_beq r.kind retention && list_beq r.plan_id plan) db.runs) [
      | none ↦ (none, db)
      | some r ↦
          if r.id == 0 then (none, db) else transition r.id awaiting_evidence status message now db
    ]

pub record NewRun : Type 0 where
  pub tenant_id : ℕ
  pub tenant_code : Text
  pub kind : Text
  pub key : Text
  pub policy_version : Text

abbrev pub run_of : NewRun → ℕ → ℕ → Run
run_of input id now = record {
  id = id;
  tenant_id = input.tenant_id;
  tenant_code = trim_space input.tenant_code;
  kind = trim_space input.kind;
  key = trim_space input.key;
  policy_version = input.policy_version;
  plan_id = [];
  status = pending;
  started_at = none;
  finished_at = none;
  error = [];
  updated_at = now;
}

abbrev pub valid_input : NewRun → Bool
valid_input input =
    not (input.tenant_id == 0)
    && not (list_beq (trim_space input.tenant_code) [])
    && (valid_kind (trim_space input.kind) && not (list_beq (trim_space input.key) []))

-- CreateOrGetRun: the run, whether it is new, and the tables.
unfoldable pub create_or_get : NewRun → ℕ → Tables → (RunError ⊎ Run × Bool) × Tables
create_or_get input now db =
    if not (valid_input input)
    then (inl invalid_transition, db)
    else elim (first_run
        (λ r.
          (r.tenant_id == input.tenant_id)
          && (list_beq r.kind (trim_space input.kind) && list_beq r.key (trim_space input.key)))
        db.runs) [
          | some r ↦ (inr (r, false), db)
          | none ↦
              let r = run_of input (db.last_id + 1) now in
              (inr (r, true), record db { runs = db.runs ++ r ∷ []; last_id = db.last_id + 1 })
        ]
