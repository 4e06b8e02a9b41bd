-- ===== src/Tenant/Tests.antt =====
-- The governance of a tenant at hand.
use goravel_mine.Base.{
  ℕ, ◌*◌, ◌≤◌, ◌≡◌, refl, ◌≢◌, true, false, Option, none, some, List, [], ◌∷◌, arith, ltb,
  if◌then◌else◌, length, select, any,
}
use goravel_mine.Base.Texts.{Text, codes, trim_space, strip_prefix}
use goravel_mine.Base.Eq.{nat_eq, list_eq, list_beq}
use goravel_mine.Base.Members.{member}
use goravel_mine.Base.Texts.{trim_left, trim_right, is_space, to_lower}
use goravel_mine.Tenant.Runs.{
  pending, running, artifact_written, completed, Run, Evidence, Tables, NewRun, run_of, same_status,
  transition_allowed, terminal, update_runs, create_or_get, valid_kind, first_run, transition,
}
use goravel_mine.Tenant.Evidence.{
  EvidenceInput, evidence_count, is_sha256, attach_evidence, mark_stale, expired_run_ids,
}
use goravel_mine.Tenant.Evidence.Ranks.{Op, create, move, attach, expire, apply, status_of}
use goravel_mine.Tenant.Evidence.Changes.{changes, changes_bounded, same_row}
use goravel_mine.Tenant.Evidence.Once.{apply_all, attach_evidence-once}
use goravel_mine.Tenant.Policy.{Policy, PolicyPatch, empty}
use goravel_mine.Tenant.Rate.{
  second, truncated, recent_hits, allowed, quota_exceeded, allow, increment,
}
use goravel_mine.Tenant.Rate.Window.{Call, calls, InOrder, unseen, allow-exact}

abbrev input : NewRun
input = record {
  tenant_id = 4;
  tenant_code = codes "acme";
  kind = codes "isolation_verify";
  key = codes "k";
  policy_version = [];
}

abbrev digest : Text
digest = codes "sha256:0123456789abcdef0123456789abcdef0123456789abcdef0123456789abcdef"

abbrev proof : EvidenceInput
proof = record {
  uri = codes "s3://a";
  object_version = codes "1";
  sha256 = digest;
  verified_at = 5;
  expires_at = 9;
}

abbrev running_run : Run
running_run = record (run_of input 1 2) { status = running }

abbrev tables : Tables
tables = record { runs = running_run ∷ []; evidence = []; last_id = 1 }

abbrev whole_way : List (ℕ × Op)
whole_way =
    (1, create input)
    ∷ (2, move 1 pending running [])
    ∷ (3, attach running_run proof)
    ∷ (4, move 1 artifact_written completed [])
    ∷ (9, expire)
    ∷ []

abbrev no_tables : Tables
no_tables = record { runs = []; evidence = []; last_id = 0 }

changes_bounded_example : changes 1 whole_way no_tables ≤ 5
changes_bounded_example = changes_bounded 1 whole_way no_tables

whole_way-changes : changes 1 whole_way no_tables ≡ 5
unfolding changes apply same_row same_status status_of create_or_get valid_kind first_run transition
    transition_allowed terminal update_runs attach_evidence evidence_count select is_sha256 to_lower
    mark_stale expired_run_ids member list_beq trim_space trim_left trim_right is_space strip_prefix
    any
whole_way-changes = refl

attached : (attach_evidence running_run proof 3 tables).0 ≡ none
unfolding attach_evidence evidence_count select is_sha256 to_lower same_status list_beq trim_space
    trim_left trim_right is_space strip_prefix any
attached = refl

attach_evidence-once_example :
    (attach_evidence running_run proof 6 (
      apply_all
        ((4, move 1 artifact_written completed []) ∷ [])
        (attach_evidence running_run proof 3 tables).1)).0
    ≢ none
attach_evidence-once_example =
    attach_evidence-once running_run proof 3 tables ((4, move 1 artifact_written completed []) ∷ [])
      running_run proof 6 attached refl

abbrev acme : Policy
acme = record {
  tenant_id = 4;
  tenant_code = codes "acme";
  modules = (codes "shop", true) ∷ [];
  quotas = empty;
  per_minute = 60;
  audit_days = 180;
  data_days = 365;
  data_export = record { enabled = true; requires_approval = true };
  data_deletion = record { enabled = true; requires_approval = true };
  isolation_proof = record {
    verified = false;
    evidence = [];
    digest = [];
    verified_at = [];
    expires_at = [];
    ttl_hours = 24;
    cadence_hours = 24;
  };
  export_set = false;
  deletion_set = false;
}

-- A patch that switches a module off, takes the limit away, and claims the isolation to be verified.
abbrev claim : PolicyPatch
claim = record {
  modules = some ((codes "shop", false) ∷ []);
  quotas = none;
  per_minute = some 0;
  audit_days = none;
  data_days = none;
  data_export = record { enabled = none; requires_approval = some false };
  data_deletion = record { enabled = none; requires_approval = none };
  isolation_proof = record {
    verified = some true;
    evidence = none;
    digest = none;
    verified_at = none;
    expires_at = none;
    ttl_hours = none;
    cadence_hours = none;
  };
}

abbrev no_evidence : ℕ → Option Evidence
no_evidence tenant = none

abbrev one_call : List Call
one_call = record { time = 5 * second; obtained = true; stored = true } ∷ []

one_call-InOrder : InOrder 0 one_call (6 * second)
unfolding InOrder
one_call-InOrder = (omega arith, omega arith)

allow-exact_example : (allow 1 (6 * second) true true (calls 1 one_call unseen).bucket).0 ≡ (
    if ltb (length (recent_hits (truncated (6 * second)) (calls 1 one_call unseen).log)) 1
    then allowed
    else quota_exceeded)
allow-exact_example = allow-exact 1 (6 * second) one_call refl one_call-InOrder

second_call_refused :
    (allow 1 (6 * second) true true (calls 1 one_call unseen).bucket).0 ≡ quota_exceeded
unfolding allow increment calls recent_hits select
second_call_refused = refl
