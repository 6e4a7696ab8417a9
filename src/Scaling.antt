-- ===== src/Scaling.antt =====
-- Pools of runners and the replicas of an app: apps/worker/src/processors/runner.ts and autoscale.ts.
mod Runners
mod Replicas
mod Autoscale
pub mod Reconcile
pub mod Bounds
unfoldable pub use Runners.*
unfoldable pub use Replicas.*
unfoldable pub use Autoscale.*
