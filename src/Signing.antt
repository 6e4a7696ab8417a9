-- ===== src/Signing.antt =====
-- The canonical JSON of packages/shared/src/canonical.ts and the signatures over it of
-- packages/security/src/signing.ts.
mod Canonical
mod Signature
pub mod KeyOrder
pub mod Reordering
unfoldable pub use Canonical.*
unfoldable pub use Signature.*
