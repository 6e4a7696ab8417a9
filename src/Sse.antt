-- ===== src/Sse.antt =====
-- The event stream: what the API writes (apps/api/src/routes/events.ts) and the parser by which the
-- command line tool reads it back (apps/cli/src/lib/sse.ts).
mod Parser
mod Wire
pub mod Frames
pub mod Chunks
pub mod Chunking
pub mod RoundTrip
unfoldable pub use Parser.*
unfoldable pub use Wire.*
