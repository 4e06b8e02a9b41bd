-- ===== src/Protection.antt =====
-- The request protection of app/services/runtime/protection: rate limits, circuit breakers and
-- concurrency limits over published rule sets.
pub mod Rule
pub mod State
pub mod Matching
pub mod Evaluate
pub mod Record
pub mod Replace
pub mod Bound
pub mod Validated
mod Tests
