-- ===== src/Nodes.antt =====
-- Nodes: their health (heartbeats, the liveness sweep, draining), the placement of work on them and
-- the queue of commands that each one polls.
mod State
mod Health
mod Placement
mod Claim
mod Join
pub mod Joining
pub mod Interleaving
pub mod Race
pub mod Freshness
pub mod Delivery
pub mod Draining
unfoldable pub use State.*
unfoldable pub use Health.*
unfoldable pub use Placement.*
unfoldable pub use Claim.*
unfoldable pub use Join.*
