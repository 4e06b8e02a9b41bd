-- ===== src/Tenant/Policy/Patch.antt =====
-- What PatchPolicy, app/services/application/tenant.go, does to a policy.
use goravel_mine.Base.{ℕ, ◌≡◌, Bool, Option, none, some, if◌then◌else◌}
use goravel_mine.Base.Texts.{Text}
use goravel_mine.Base.Eq.{nat_eq, list_eq}
use goravel_mine.Base.Dict.{Dict, get}
use goravel_mine.Queue.Retry.{int64_positive}
use goravel_mine.Tenant.Runs.{Evidence}
use goravel_mine.Tenant.Policy.{Policy, proof_of, PolicyPatch, or_else, patch_action, patch_proof}

abbrev pub first : Option Bool → Option Bool → Option Bool
first none old = old
first (some new) old = some new

-- The entry that a patch has for a module.
abbrev pub patched : Option (Dict Text Bool) → Text → Option Bool
patched none k = none
patched (some m) k = get m k

-- A policy after a patch, by the one before it and the default policy.
pub record Patched (format : ℕ → Text) (current : ℕ → Option Evidence) (base : Policy)
    (c : PolicyPatch) (before after : Policy) : Type 0 where
  pub modules :
      (k : Text) → get after.modules k ≡ first (patched c.modules k) (get before.modules k)
  pub per_minute : after.per_minute ≡ (
      if int64_positive (or_else c.per_minute before.per_minute)
      then or_else c.per_minute before.per_minute
      else base.per_minute)
  pub data_export : after.data_export ≡ patch_action before.data_export c.data_export
  pub data_deletion : after.data_deletion ≡ patch_action before.data_deletion c.data_deletion
  pub proof :
      after.isolation_proof
      ≡ proof_of format
          (current base.tenant_id)
          (patch_proof before.isolation_proof c.isolation_proof)

-- A policy keeps the tenant and the modules of the default one.
record Extends (base p : Policy) : Type 0 where
  tenant : p.tenant_id ≡ base.tenant_id
  covers : (k : Text) → get p.modules k ≡ none → get base.modules k ≡ none
