-- ===== src/Tests/Access.antt =====
-- One organization with a workspace, its owner, a developer, and a team that is granted the workspace.
use your_stack.Common.{ℕ, ◌≡◌, ◌↔◌, refl, false, some, [], ◌∷◌, Result, ok, err, arith}
use your_stack.Rbac.{WorkspaceRole, Permission}
use your_stack.Tenancy.Db.{Db, User, Workspace, WorkspaceStatus, OrgRole}
use your_stack.Tenancy.{WorkspaceMembership, effective_role, resolve_membership, require_permission}
use your_stack.Tenancy.{require_org_role}
use your_stack.Tenancy.Members.{MemberRequest, serve}
use your_stack.Tenancy.Teams.{grant_workspace, delete_team}
use your_stack.Tenancy.EffectiveRole.{HasRole, IsGreatest, effective_role-IsGreatest}
use your_stack.Tenancy.Granting.{
  HasAccess, IsPermitted, resolve_membership_iff, require_permission_iff,
}
use your_stack.Tenancy.LastOwner.{HasOwner, serve-HasOwner}
use your_stack.Tenancy.TeamAccess.{delete_team-resolve_membership}

abbrev pub alice : User
alice = record { id = 1; email = "alice"; is_platform_admin = false }

abbrev bob : User
bob = record { id = 2; email = "bob"; is_platform_admin = false }

abbrev carol : User
carol = record { id = 3; email = "carol"; is_platform_admin = false }

abbrev space : Workspace
space = record {
  id = 10;
  status = WorkspaceStatus.active;
  organization_id = some 100;
  deleted = false;
}

abbrev pub tables : Db
tables = record {
  users = alice ∷ bob ∷ carol ∷ [];
  workspaces = space ∷ [];
  workspace_members =
      record { id = 1000; workspace_id = 10; user_id = 1; role = WorkspaceRole.owner }
      ∷ record { id = 1001; workspace_id = 10; user_id = 2; role = WorkspaceRole.developer }
      ∷ [];
  organizations = record { id = 100; deleted = false } ∷ [];
  org_members = record { id = 2000; organization_id = 100; user_id = 1; role = OrgRole.owner } ∷ [];
  teams = record { id = 50; organization_id = 100; slug = "team"; deleted = false } ∷ [];
  team_members = record { team_id = 50; user_id = 3 } ∷ [];
  grants = [];
  audit_log = [];
  next_id = 3000;
}

abbrev pub value_of : Result Db → Db
value_of (ok db) = db
value_of (err e) = tables

abbrev granted : Db
granted = value_of (grant_workspace tables alice 50 10 WorkspaceRole.viewer)

effective_role-IsGreatest_example :
    IsGreatest (HasRole granted space carol 10) (effective_role granted space carol 10)
effective_role-IsGreatest_example = effective_role-IsGreatest granted space carol 10

resolve_membership_iff_example :
    (resolve_membership granted (some carol) 10
      ≡ ok record { workspace_id = 10; role = WorkspaceRole.viewer })
    ↔ (◌≡◌ {A = ℕ} 10 10 × HasAccess granted carol 10 WorkspaceRole.viewer)
resolve_membership_iff_example =
    resolve_membership_iff granted carol 10
      record { workspace_id = 10; role = WorkspaceRole.viewer } refl

require_permission_iff_example :
    ((m : WorkspaceMembership) × (require_permission granted
          (some carol)
          10
          Permission.workspace_view
        ≡ ok m))
    ↔ IsPermitted granted carol 10 Permission.workspace_view
require_permission_iff_example =
    require_permission_iff granted carol 10 Permission.workspace_view refl

tables-HasOwner : HasOwner 10 tables
tables-HasOwner = record { unique = ground arith; fresh = ground arith; owned = ground arith }

serve-HasOwner_example : HasOwner 10 (
    serve tables (
      (alice, MemberRequest.remove 10 1000)
      ∷ (alice, MemberRequest.update_role 10 1001 WorkspaceRole.owner)
      ∷ (bob, MemberRequest.remove 10 1000)
      ∷ []))
serve-HasOwner_example =
    serve-HasOwner 10 tables
      ((alice, MemberRequest.remove 10 1000)
        ∷ (alice, MemberRequest.update_role 10 1001 WorkspaceRole.owner)
        ∷ (bob, MemberRequest.remove 10 1000)
        ∷ [])
      tables-HasOwner

delete_team-resolve_membership_example :
    resolve_membership (value_of (delete_team granted alice 50)) (some carol) 10
    ≡ resolve_membership granted (some carol) 10
unfolding grant_workspace delete_team require_org_role
delete_team-resolve_membership_example =
    delete_team-resolve_membership granted (value_of (delete_team granted alice 50)) alice 50
      (some carol) 10 refl

-- The organization with a second owner, whom the first removes.
abbrev shared_tables : Db
shared_tables = record tables {
  org_members =
      record { id = 2000; organization_id = 100; user_id = 1; role = OrgRole.owner }
      ∷ record { id = 2001; organization_id = 100; user_id = 2; role = OrgRole.owner }
      ∷ [];
}
