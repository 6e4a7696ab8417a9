-- ===== src/Tenancy/Db.antt =====
-- The tables that the access checks read (packages/db/prisma/schema.prisma), as lists of rows. An
-- id is a number, and `next_id` stands for the generator of new ids. A soft-deleted row has its
-- `deleted` flag set.
use your_stack.Common.{ℕ, Bool, Option, List, String}
use your_stack.Rbac.{WorkspaceRole}

pub data OrgRole : Type 0 where
  owner admin member : OrgRole

pub data WorkspaceStatus : Type 0 where
  active suspended : WorkspaceStatus

pub record User : Type 0 where
  pub id : ℕ
  pub email : String
  pub is_platform_admin : Bool

pub record Workspace : Type 0 where
  pub id : ℕ
  pub status : WorkspaceStatus
  pub organization_id : Option ℕ
  pub deleted : Bool

pub record WorkspaceMember : Type 0 where
  pub id : ℕ
  pub workspace_id : ℕ
  pub user_id : ℕ
  pub role : WorkspaceRole

pub record Organization : Type 0 where
  pub id : ℕ
  pub deleted : Bool

pub record OrgMember : Type 0 where
  pub id : ℕ
  pub organization_id : ℕ
  pub user_id : ℕ
  pub role : OrgRole

pub record Team : Type 0 where
  pub id : ℕ
  pub organization_id : ℕ
  pub slug : String
  pub deleted : Bool

pub record TeamMember : Type 0 where
  pub team_id : ℕ
  pub user_id : ℕ

pub record WorkspaceGrant : Type 0 where
  pub team_id : ℕ
  pub workspace_id : ℕ
  pub role : WorkspaceRole

-- The actions that the handlers below write to the audit log.
pub data AuditAction : Type 0 where
  member_invite member_role_update member_remove : AuditAction
  org_member_invite org_member_remove team_grant_workspace : AuditAction

pub record AuditEntry : Type 0 where
  pub actor_id : ℕ
  pub action : AuditAction
  pub target_id : ℕ

pub record Db : Type 0 where
  pub users : List User
  pub workspaces : List Workspace
  pub workspace_members : List WorkspaceMember
  pub organizations : List Organization
  pub org_members : List OrgMember
  pub teams : List Team
  pub team_members : List TeamMember
  pub grants : List WorkspaceGrant
  pub audit_log : List AuditEntry
  pub next_id : ℕ
