-- ===== src/Resources.antt =====
-- Managed databases from the request to the node's report, and what the reports on the other managed
-- resources change: apps/api/src/routes/databases.ts, apps/worker/src/processors/database.ts and
-- applyResourceResult of apps/api/src/services/command-result.service.ts.
mod State
mod Databases
mod Reports
pub mod Lifecycle
unfoldable pub use State.*
unfoldable pub use Databases.*
unfoldable pub use Reports.*
