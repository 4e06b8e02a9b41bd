-- ===== src/Tenant/Guards.antt =====
-- What a TenantGovernancePolicy, app/services/application/tenant.go, demands of an action.
use goravel_mine.Base.{
  ℕ, Bool, true, false, not, ◌||◌, Option, none, some, [], ltb, if◌then◌else◌, ◌==◌,
}
use goravel_mine.Base.Texts.{Text, trim_space}
use goravel_mine.Base.Eq.{nat_eq, list_eq, list_beq}
use goravel_mine.Base.Dict.{get_or}
use goravel_mine.Queue.Retry.{int64_positive}
use goravel_mine.Tenant.Policy.{Policy, DataAction}

unfoldable pub module_enabled : Policy → Text → Bool
module_enabled p name =
    let module_id = trim_space name in
    if list_beq module_id [] then true else get_or p.modules module_id true

pub data PolicyError : Type 0 where
  module_disabled retention_invalid isolation_missing action_denied approval_required : PolicyError
  approval_error : Text → PolicyError

unfoldable pub require_module : Policy → Text → Option PolicyError
require_module p name = if module_enabled p name then none else some module_disabled

unfoldable pub require_retention : Policy → Option PolicyError
require_retention p =
    if not (int64_positive p.audit_days) || not (int64_positive p.data_days)
    then some retention_invalid
    else none

-- RequireIsolationProof, with time.Parse as an argument
unfoldable pub require_isolation : (Text → Option ℕ) → ℕ → Policy → Option PolicyError
require_isolation parse now p =
    let i = p.isolation_proof in
    if not i.verified
      || list_beq (trim_space i.evidence) []
      || list_beq (trim_space i.digest) []
      || not (unexpired now (parse i.expires_at))
    then some isolation_missing
    else none
  where
    unexpired : ℕ → Option ℕ → Bool
    unexpired now none = false
    unexpired now (some t) = ltb now t

pub record ApprovalRequest : Type 0 where
  pub approval_id : Text
  pub requester_id : ℕ
  pub resource : Text

-- requireDataActionApproval: the answer of the security service is none where it approves.
unfoldable pub require_action :
    (ApprovalRequest → Text → Option PolicyError)
    → DataAction
    → ApprovalRequest
    → Text
    → Option PolicyError
require_action approve a req scope =
    if not a.enabled
    then some action_denied
    else if not a.requires_approval
    then none
    else if list_beq (trim_space req.approval_id) []
        || (req.requester_id == 0)
        || list_beq (trim_space req.resource) []
    then some approval_required
    else approve req scope
