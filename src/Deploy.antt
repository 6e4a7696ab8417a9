-- ===== src/Deploy.antt =====
-- Deployments from the trigger to the node's report: apps/api/src/services/deployment.service.ts and
-- command-result.service.ts, and the deploy, healthcheck and rollback processors of apps/worker.
mod Enums
mod State
mod Trigger
mod Process
mod Outcome
mod Recovery
pub mod Rows
pub mod Invariant
pub mod Reachable
pub mod Behaviour
pub mod Dispatch
pub mod Release
unfoldable pub use Enums.*
unfoldable pub use State.*
unfoldable pub use Trigger.*
unfoldable pub use Process.*
unfoldable pub use Outcome.*
unfoldable pub use Recovery.*
