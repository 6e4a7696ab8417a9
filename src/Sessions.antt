-- ===== src/Sessions.antt =====
-- Who a request is from: session cookies and API tokens, apps/api/src/lib/auth.ts, plugins/auth.ts and
-- routes/tokens.ts.
mod Tokens
pub mod Validity
unfoldable pub use Tokens.*
