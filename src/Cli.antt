-- ===== src/Cli.antt =====
-- Arguments of the command line tool: apps/cli/src/lib/env.ts.
mod KeyValue
pub mod Quoting
unfoldable pub use KeyValue.*
