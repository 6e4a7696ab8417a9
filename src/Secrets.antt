-- ===== src/Secrets.antt =====
-- The environment of an app and the spec that its node is sent: apps/worker/src/lib/secrets.ts and
-- spec.ts, and packages/security/src/encryption.ts.
mod Env
mod Source
mod Spec
pub mod Precedence
pub mod Defaults
pub mod Encryption
pub mod RoundTrip
unfoldable pub use Env.*
unfoldable pub use Source.*
unfoldable pub use Spec.*
