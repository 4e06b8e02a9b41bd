-- ===== src/Tenant/Evidence.antt =====
-- The evidence of runs: AttachEvidence, CurrentEvidence and MarkStale of TenantGovernanceRunRepository,
-- app/services/application/tenant.go.
pub mod Ranks
pub mod Changes
pub mod Once
use goravel_mine.Base.{
  ℕ, Bool, true, false, not, ◌&&◌, ◌||◌, Option, none, some, List, [], ◌∷◌, ◌++◌, map, ltb, leb,
  if◌then◌else◌, ◌==◌, length, select, any,
}
use goravel_mine.Base.Texts.{Text, codes, trim_space, strip_prefix}
use goravel_mine.Base.Texts.{to_lower}
use goravel_mine.Base.Eq.{nat_eq, list_eq, list_beq}
use goravel_mine.Base.Members.{member}
use goravel_mine.Tenant.Runs.{
  running, artifact_written, completed, stale, same_status, Run, Evidence, Tables, RunError,
  evidence_invalid, evidence_exists, invalid_transition, update_runs, affected, at_status,
}

abbrev is_hex : ℕ → Bool
is_hex c = (leb b'0' c && leb c b'9') || (leb b'a' c && leb c b'f')

-- strings.TrimPrefix, and isSHA256 of app/services/application/audit.go, with hex.DecodeString on 64 bytes
abbrev pub digest_of : Text → Text
digest_of lower = elim (strip_prefix (codes "sha256:") lower) [ none ↦ lower | some rest ↦ rest ]

unfoldable pub is_sha256 : Text → Bool
is_sha256 value =
    let digest = digest_of (to_lower (trim_space value)) in
    (length digest == 64) && not (any (λ c. not (is_hex c)) digest)

pub record EvidenceInput : Type 0 where
  pub uri : Text
  pub object_version : Text
  pub sha256 : Text
  pub verified_at : ℕ
  pub expires_at : ℕ

-- A time 0 is the zero time.
abbrev pub invalid_evidence : Run → EvidenceInput → Bool
invalid_evidence run input =
    (run.id == 0)
    || (run.tenant_id == 0)
    || list_beq (trim_space input.uri) []
    || list_beq (trim_space input.object_version) []
    || (not (is_sha256 input.sha256)
        || (input.verified_at == 0)
        || not (ltb input.verified_at input.expires_at))

abbrev pub evidence_of : Run → EvidenceInput → Evidence
evidence_of run input = record {
  run_id = run.id;
  tenant_id = run.tenant_id;
  kind = run.kind;
  uri = input.uri;
  object_version = input.object_version;
  sha256 = input.sha256;
  verified_at = input.verified_at;
  expires_at = input.expires_at;
  stale_at = none;
}

unfoldable pub evidence_count : ℕ → List Evidence → ℕ
evidence_count id evidence = length (select (λ e. e.run_id == id) evidence)

abbrev pub written : ℕ → Run → Run
written now r = record r { status = artifact_written; updated_at = now }

-- AttachEvidence: the transaction changes nothing if it fails.
unfoldable pub attach_evidence : Run → EvidenceInput → ℕ → Tables → Option RunError × Tables
attach_evidence run input now db =
    if invalid_evidence run input
    then (some evidence_invalid, db)
    else (if not (evidence_count run.id db.evidence == 0)
        then (some evidence_exists, db)
        else (if affected (at_status run.id running) db.runs == 1
            then (
              none,
              record db {
                runs = update_runs (at_status run.id running) (written now) db.runs;
                evidence = db.evidence ++ evidence_of run input ∷ [];
              },
            )
            else (some invalid_transition, db)))

abbrev pub with_stale : ℕ → Evidence → Evidence
with_stale now e = elim e.stale_at [
  | none ↦ if leb e.expires_at now then record e { stale_at = some now } else e
  | some t ↦ e
]

unfoldable pub expired_run_ids : ℕ → List Evidence → List ℕ
expired_run_ids now evidence = map (λ e. e.run_id) (select (λ e. leb e.expires_at now) evidence)

abbrev pub expired_run : ℕ → List Evidence → Run → Bool
expired_run now evidence r =
    same_status r.status completed && member r.id (expired_run_ids now evidence)

-- MarkStale
unfoldable pub mark_stale : ℕ → Tables → Tables
mark_stale now db = record db {
  runs =
      update_runs (expired_run now db.evidence) (λ r. record r { status = stale; updated_at = now })
        db.runs;
  evidence = map (with_stale now) db.evidence;
}

-- The condition of CurrentEvidence
unfoldable pub is_current : ℕ → Text → ℕ → List Run → Evidence → Bool
is_current tenant_id kind now runs e =
    (e.tenant_id == tenant_id)
    && list_beq e.kind kind
    && (any (λ r. at_status e.run_id completed r) runs
        && (elim e.stale_at [ none ↦ true | some t ↦ false ] && ltb now e.expires_at))

abbrev pub later : Evidence → Option Evidence → Option Evidence
later e none = some e
later e (some f) = if ltb e.verified_at f.verified_at then some f else some e

-- ORDER BY verified_at DESC, the first
unfoldable pub latest : List Evidence → Option Evidence
latest [] = none
latest (e ∷ evidence) = later e (latest evidence)

unfoldable pub current_evidence : ℕ → Text → ℕ → Tables → Option Evidence
current_evidence tenant_id kind now db =
    latest (select (is_current tenant_id kind now db.runs) db.evidence)
