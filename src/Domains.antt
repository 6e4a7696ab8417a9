-- ===== src/Domains.antt =====
-- Custom domains of apps: apps/api/src/routes/domains.ts and apps/worker/src/processors/domain.ts.
mod Requests
mod Verify
pub mod Attempts
unfoldable pub use Requests.*
unfoldable pub use Verify.*
