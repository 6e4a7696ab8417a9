-- ===== src/Tenancy.antt =====
-- Workspaces, organizations, teams and who may do what in them: apps/api/src/lib/rbac.ts and the
-- member, team and grant handlers of apps/api/src/routes/workspaces.ts and organizations.ts.
pub mod Db
mod Access
pub mod Members
pub mod Teams
pub mod TeamAccess
pub mod OwnerCount
pub mod LastOwner
pub mod OrgOwner
pub mod EffectiveRole
pub mod Granting
unfoldable pub use Db.*
unfoldable pub use Access.*
