-- ===== src/Tenant/Policy.antt =====
-- TenantGovernanceService, app/services/application/tenant.go, with the policies in memory. An int64 stands by its
-- 64 bits. The features and quotas of the tenant's plan, the format of times and the approvals of the security
-- service are arguments.
pub mod Patch
use goravel_mine.Base.{
  ℕ, Bool, true, false, ◌||◌, Option, none, some, [], ◌∷◌, map, if◌then◌else◌, ◌==◌,
}
use goravel_mine.Base.Texts.{Text, codes}
use goravel_mine.Base.Eq.{nat_eq, list_eq, list_beq}
use goravel_mine.Base.Dict.{Dict, get, put}
use goravel_mine.Queue.Retry.{int64_positive}
use goravel_mine.Tenant.Runs.{Evidence}

mutual
  -- A value of a models.JSONMap, and the map itself.
  pub data Json : Type 0 where
    flag : Bool → Json
    text : Text → Json
    number : ℕ → Json
    object : JsonMap → Json

  pub data JsonMap : Type 0 where
    empty : JsonMap
    entry : Text → Json → JsonMap → JsonMap

unfoldable pub get_json : JsonMap → Text → Option Json
get_json empty k = none
get_json (entry j v m) k = if list_beq j k then some v else get_json m k

unfoldable pub put_json : JsonMap → Text → Json → JsonMap
put_json empty k v = entry k v empty
put_json (entry j w m) k v =
    let rest = put_json m k v in if list_beq j k then entry k v m else entry j w rest

pub record DataAction : Type 0 where
  pub enabled : Bool
  pub requires_approval : Bool

pub record IsolationProof : Type 0 where
  pub verified : Bool
  pub evidence : Text
  pub digest : Text
  pub verified_at : Text
  pub expires_at : Text
  pub ttl_hours : ℕ
  pub cadence_hours : ℕ

pub record Policy : Type 0 where
  pub tenant_id : ℕ
  pub tenant_code : Text
  pub modules : Dict Text Bool
  pub quotas : JsonMap
  pub per_minute : ℕ
  pub audit_days : ℕ
  pub data_days : ℕ
  pub data_export : DataAction
  pub data_deletion : DataAction
  pub isolation_proof : IsolationProof
  pub export_set : Bool
  pub deletion_set : Bool

-- truthy
unfoldable pub truthy : Json → Bool
truthy (flag b) = b
truthy (text t) =
    list_beq t (codes "true") || list_beq t (codes "1") || list_beq t (codes "enabled")
truthy (number n) = false
truthy (object m) = false

abbrev pub default_action : DataAction
default_action = record { enabled = true; requires_approval = true }

-- DefaultPolicy, of the modules among the features of the plan, its quotas and its limit per minute
unfoldable pub default_policy : ℕ → Text → Dict Text Json → JsonMap → ℕ → Policy
default_policy id code features quotas per_minute = record {
  tenant_id = id;
  tenant_code = code;
  modules = map (λ f. (f.0, truthy f.1)) features;
  quotas = quotas;
  per_minute = per_minute;
  audit_days = 180;
  data_days = 365;
  data_export = default_action;
  data_deletion = default_action;
  isolation_proof = record {
    verified = false;
    evidence = [];
    digest = [];
    verified_at = [];
    expires_at = [];
    ttl_hours = 24;
    cadence_hours = 24;
  };
  export_set = false;
  deletion_set = false;
}

-- mergeBoolMaps
unfoldable pub merge_bools : Dict Text Bool → Dict Text Bool → Dict Text Bool
merge_bools base [] = base
merge_bools base ((k, v) ∷ override) = put (merge_bools base override) k v

-- mergeJSONMaps, and what it stores for a key
unfoldable mutual
  pub merge_json : JsonMap → JsonMap → JsonMap
  merge_json base empty = base
  merge_json base (entry k v override) =
      put_json (merge_json base override) k (merged_value (get_json base k) v)

  pub merged_value : Option Json → Json → Json
  merged_value (some (object m)) (object n) = object (merge_json m n)
  merged_value _ v = v

-- mergeTenantGovernancePolicy
unfoldable pub merge_policy : Policy → Policy → Policy
merge_policy base override = record base {
  modules = merge_bools base.modules override.modules;
  quotas = merge_json base.quotas override.quotas;
  per_minute = if int64_positive override.per_minute then override.per_minute else base.per_minute;
  audit_days = if int64_positive override.audit_days then override.audit_days else base.audit_days;
  data_days = if int64_positive override.data_days then override.data_days else base.data_days;
  data_export = if override.export_set then override.data_export else base.data_export;
  data_deletion = if override.deletion_set then override.data_deletion else base.data_deletion;
  isolation_proof = override.isolation_proof;
}

-- normalizeTenantGovernancePolicy, where a nil map is an empty one
abbrev pub normalized : Policy → Policy
normalized p = record p { export_set = true; deletion_set = true }

abbrev pub proof_of : (ℕ → Text) → Option Evidence → IsolationProof → IsolationProof
proof_of format none proof = record proof { verified = false }
proof_of format (some e) proof = record proof {
  verified = true;
  evidence = e.uri;
  digest = e.sha256;
  verified_at = format e.verified_at;
  expires_at = format e.expires_at;
}

-- applyCurrentIsolationEvidence, with the evidence of CurrentEvidence
unfoldable pub with_evidence : (ℕ → Text) → (ℕ → Option Evidence) → Policy → Policy
with_evidence format current p =
    if p.tenant_id == 0
    then p
    else record p { isolation_proof = proof_of format (current p.tenant_id) p.isolation_proof }

-- The policies in memory, by tenant.
abbrev pub Store : Type 0
Store = Dict ℕ Policy

-- Policy, for the default policy of a tenant
unfoldable pub policy : (ℕ → Text) → (ℕ → Option Evidence) → Policy → Store → Policy
policy format current base store = elim (get store base.tenant_id) [
  | none ↦ base
  | some persisted ↦ with_evidence format current (merge_policy base persisted)
]

-- SavePolicy
unfoldable pub save_policy : Policy → Store → Store
save_policy p store = put store p.tenant_id (normalized p)

pub record ActionPatch : Type 0 where
  pub enabled : Option Bool
  pub requires_approval : Option Bool

pub record ProofPatch : Type 0 where
  pub verified : Option Bool
  pub evidence : Option Text
  pub digest : Option Text
  pub verified_at : Option Text
  pub expires_at : Option Text
  pub ttl_hours : Option ℕ
  pub cadence_hours : Option ℕ

-- TenantGovernancePatch: a nil map or number is none, and so are the parts of a patch that is nil.
pub record PolicyPatch : Type 0 where
  pub modules : Option (Dict Text Bool)
  pub quotas : Option JsonMap
  pub per_minute : Option ℕ
  pub audit_days : Option ℕ
  pub data_days : Option ℕ
  pub data_export : ActionPatch
  pub data_deletion : ActionPatch
  pub isolation_proof : ProofPatch

abbrev pub or_else : {A : Type 0} → Option A → A → A
or_else none old = old
or_else (some new) old = new

abbrev pub patch_action : DataAction → ActionPatch → DataAction
patch_action a p = record {
  enabled = or_else p.enabled a.enabled;
  requires_approval = or_else p.requires_approval a.requires_approval;
}

abbrev pub patch_proof : IsolationProof → ProofPatch → IsolationProof
patch_proof i p = record {
  verified = or_else p.verified i.verified;
  evidence = or_else p.evidence i.evidence;
  digest = or_else p.digest i.digest;
  verified_at = or_else p.verified_at i.verified_at;
  expires_at = or_else p.expires_at i.expires_at;
  ttl_hours = or_else p.ttl_hours i.ttl_hours;
  cadence_hours = or_else p.cadence_hours i.cadence_hours;
}

abbrev pub patch_modules : Dict Text Bool → Option (Dict Text Bool) → Dict Text Bool
patch_modules modules none = modules
patch_modules modules (some p) = merge_bools modules p

abbrev pub patch_quotas : JsonMap → Option JsonMap → JsonMap
patch_quotas quotas none = quotas
patch_quotas quotas (some p) = merge_json quotas p

-- applyTenantGovernancePatch
unfoldable pub apply_patch : Policy → PolicyPatch → Policy
apply_patch p c = record p {
  modules = patch_modules p.modules c.modules;
  quotas = patch_quotas p.quotas c.quotas;
  per_minute = or_else c.per_minute p.per_minute;
  audit_days = or_else c.audit_days p.audit_days;
  data_days = or_else c.data_days p.data_days;
  data_export = patch_action p.data_export c.data_export;
  data_deletion = patch_action p.data_deletion c.data_deletion;
  isolation_proof = patch_proof p.isolation_proof c.isolation_proof;
}

-- PatchPolicy: the policy that it returns, and the store.
unfoldable pub patch_policy :
    (ℕ → Text) → (ℕ → Option Evidence) → Policy → PolicyPatch → Store → Policy × Store
patch_policy format current base c store =
    let store' = save_policy (apply_patch (policy format current base store) c) store in
    (policy format current base store', store')
