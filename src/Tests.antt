-- ===== src/Tests.antt =====
-- The theorems at concrete tables.
mod Access
mod Deploys
mod Fleet
mod Balancers
mod Streams
mod Settings
mod Pools
mod Engines
mod Deliveries
mod Arguments
mod Blueprints
mod Arrivals
