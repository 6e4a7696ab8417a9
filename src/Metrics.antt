-- ===== src/Metrics.antt =====
-- Metrics of managed resources: apps/api/src/services/metrics.service.ts, the routes that take samples
-- in and give them out, and who may see them.
mod Samples
pub mod Upserts
pub mod Series
unfoldable pub use Samples.*
