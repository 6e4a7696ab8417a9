-- ===== src/Webhooks.antt =====
-- Deliveries of GitHub that start deployments: apps/worker/src/processors/webhook.ts.
mod Process
pub mod Delivery
unfoldable pub use Process.*
