-- ===== src/Cron.antt =====
-- Scheduled jobs: their control and fire jobs in the worker, and the report that closes a run.
mod Jobs
pub mod Lifecycle
unfoldable pub use Jobs.*
