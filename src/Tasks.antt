-- ===== src/Tasks.antt =====
-- Scheduled tasks, app/services/runtime/scheduledtask: the delays of retries, the runs that replace each
-- other, and the tenants of a task.
pub mod Delay
pub mod Active
pub mod Ids
mod Tests
