-- ===== src/Rbac.antt =====
-- packages/shared/src/rbac.ts and the roles of packages/shared/src/enums.ts.
mod Roles
mod Permissions
pub mod PermissionOrder
unfoldable pub use Roles.*
unfoldable pub use Permissions.*
