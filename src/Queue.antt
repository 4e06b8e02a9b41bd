-- ===== src/Queue.antt =====
-- The reliable queue, app/services/runtime/queue: retries, the outbox and its claims, the dispatcher, and
-- handlers that run once for a key.
pub mod Retry
pub mod Outbox
pub mod Dispatch
pub mod Memory
pub mod Idempotency
mod Tests
