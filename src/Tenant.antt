-- ===== src/Tenant.antt =====
-- The governance of tenants, app/services/application/tenant.go, and their rate limit,
-- app/services/tenancy/tenant/rate_limiter.go.
pub mod Runs
pub mod Evidence
pub mod Guards
pub mod Policy
pub mod Rate
mod Tests
