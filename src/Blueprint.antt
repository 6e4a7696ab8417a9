-- ===== src/Blueprint.antt =====
-- Blueprints: apps/api/src/routes/blueprint.ts and services/blueprint.service.ts, the plan of a declared
-- project against what exists, its application, and the export of a project.
pub mod Schema
pub mod Names
pub mod Slugs
pub mod Plan
pub mod Store
pub mod Inserts
pub mod Create
pub mod Apply
pub mod Contract
pub mod Loops
pub mod Planned
pub mod Balancing
pub mod Sections
pub mod Additive
pub mod Convergence
pub mod Replan
pub mod Again
pub mod Export
pub mod Exported
pub mod RoundTrip
pub mod Sources
