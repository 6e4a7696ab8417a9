-- ===== src/Network.antt =====
-- Firewalls and load balancers: apps/worker/src/processors/firewall.ts and loadbalancer.ts, and the
-- handlers of their routes that delete and apply.
mod Firewall
mod Targets
mod Balancer
pub mod Requests
pub mod Cleanup
pub mod RuleOrder
pub mod TargetWeights
unfoldable pub use Firewall.*
unfoldable pub use Balancer.*
unfoldable pub use Targets.*
