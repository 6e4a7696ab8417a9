-- ===== src/Tenancy/Teams.antt =====
-- The organization member, team and grant handlers of apps/api/src/routes/organizations.ts. A handler
-- returns the new tables; where it throws, the tables stay as they were.
use your_stack.Common.{
  ℕ, suc, Bool, true, false, not, ◌&&◌, Option, some, List, ◌∷◌, String, leb, ◌==◌, eq_opt,
  if◌then◌else◌, find, filter, any, count, update, is_some, Result, ok, ◌>>=◌, ◌>>◌, throw_if,
  conflict, validation, not_found, bad_request,
}
use your_stack.Rbac.{WorkspaceRole}
use your_stack.Tenancy.Db.{
  Db, User, OrgRole, OrgMember, Team, TeamMember, WorkspaceGrant, AuditAction,
}
use your_stack.Tenancy.Access.{find_org_member, find_workspace, or_throw, require_org_role}
use your_stack.Tenancy.Members.{audit, upsert_user}

abbrev pub is_org_owner : OrgRole → Bool
is_org_owner OrgRole.owner = true
is_org_owner _ = false

-- POST /organizations/:id/members
unfoldable pub invite_org_member : Db → User → ℕ → String → OrgRole → Result Db
unfolding upsert_user
invite_org_member db caller id email role = do
  _ ← require_org_role db (some caller) id OrgRole.admin
  -- `inviteOrgMemberSchema` has every role but `owner`.
  throw_if (is_org_owner role) (validation "Request validation failed")
  let (user, db1) = upsert_user email db
  throw_if (is_some (find_org_member db1 id user.id))
      (conflict "User is already a member of this organization")
  let member : OrgMember = record {
    id = db1.next_id;
    organization_id = id;
    user_id = user.id;
    role = role;
  }
  let db2 = record db1 { org_members = member ∷ db1.org_members; next_id = suc db1.next_id }
  ok (audit caller AuditAction.org_member_invite user.id db2)

abbrev pub find_org_row : ℕ → ℕ → List OrgMember → Option OrgMember
find_org_row id mid ms = find (λ m. m.id == mid && m.organization_id == id) ms

abbrev pub org_owners : ℕ → List OrgMember → ℕ
org_owners id ms = count (λ m. m.organization_id == id && is_org_owner m.role) ms

-- PATCH /organizations/:id/members/:mid
unfoldable pub update_org_member : Db → User → ℕ → ℕ → OrgRole → Result Db
update_org_member db caller id mid role = do
  _ ← require_org_role db (some caller) id OrgRole.admin
  throw_if (is_org_owner role) (validation "Request validation failed")
  member ← or_throw (find_org_row id mid db.org_members) (not_found "Member not found")
  throw_if (is_org_owner member.role) (bad_request "Cannot change an owner's role")
  ok (record db {
    org_members = update (λ m. m.id == mid) (λ m. record m { role = role }) db.org_members;
  })

-- DELETE /organizations/:id/members/:mid
unfoldable pub remove_org_member : Db → User → ℕ → ℕ → Result Db
remove_org_member db caller id mid = do
  _ ← require_org_role db (some caller) id OrgRole.admin
  member ← or_throw (find_org_row id mid db.org_members) (not_found "Member not found")
  throw_if (is_org_owner member.role && leb (org_owners id db.org_members) 1)
      (bad_request "An organization must have at least one owner")
  let db1 = record db { org_members = filter (λ m. not (m.id == mid)) db.org_members }
  ok (audit caller AuditAction.org_member_remove member.user_id db1)

-- `teamOrg`
unfoldable pub team_org : Db → ℕ → Result Team
team_org db id =
    or_throw (find (λ t. t.id == id && not t.deleted) db.teams) (not_found "Team not found")

-- DELETE /teams/:id
unfoldable pub delete_team : Db → User → ℕ → Result Db
unfolding team_org
delete_team db caller id = do
  team ← team_org db id
  _ ← require_org_role db (some caller) team.organization_id OrgRole.admin
  ok (record db { teams = update (λ t. t.id == id) (λ t. record t { deleted = true }) db.teams })

-- POST /teams/:id/members
unfoldable pub add_team_member : Db → User → ℕ → ℕ → Result Db
unfolding team_org
add_team_member db caller id user_id = do
  team ← team_org db id
  _ ← require_org_role db (some caller) team.organization_id OrgRole.admin
  _ ←
      or_throw (find_org_member db team.organization_id user_id)
        (bad_request "User must be a member of the organization first")
  throw_if (any (λ m. m.team_id == id && m.user_id == user_id) db.team_members)
      (conflict "User is already on this team")
  let member : TeamMember = record { team_id = id; user_id = user_id }
  ok (record db { team_members = member ∷ db.team_members })

-- DELETE /teams/:id/members/:uid
unfoldable pub remove_team_member : Db → User → ℕ → ℕ → Result Db
unfolding team_org
remove_team_member db caller id uid = do
  team ← team_org db id
  _ ← require_org_role db (some caller) team.organization_id OrgRole.admin
  let ms = filter (λ m. not (m.team_id == id && m.user_id == uid)) db.team_members
  ok (record db { team_members = ms })

abbrev pub is_grant : ℕ → ℕ → WorkspaceGrant → Bool
is_grant tid wid g = g.team_id == tid && g.workspace_id == wid

-- `workspaceGrant.upsert`
unfoldable pub upsert_grant : ℕ → ℕ → WorkspaceRole → List WorkspaceGrant → List WorkspaceGrant
upsert_grant tid wid role gs =
    if any (is_grant tid wid) gs
    then update (is_grant tid wid) (λ g. record g { role = role }) gs
    else record { team_id = tid; workspace_id = wid; role = role } ∷ gs

-- POST /teams/:id/grants
unfoldable pub grant_workspace : Db → User → ℕ → ℕ → WorkspaceRole → Result Db
unfolding team_org upsert_grant
grant_workspace db caller id wid role = do
  team ← team_org db id
  _ ← require_org_role db (some caller) team.organization_id OrgRole.admin
  workspace ← or_throw (find_workspace db wid) (not_found "Workspace not found")
  throw_if (not (eq_opt workspace.organization_id (some team.organization_id)))
      (bad_request "Workspace does not belong to this team's organization")
  let db1 = record db { grants = upsert_grant id wid role db.grants }
  ok (audit caller AuditAction.team_grant_workspace id db1)

-- DELETE /teams/:id/grants/:workspaceId
unfoldable pub revoke_grant : Db → User → ℕ → ℕ → Result Db
unfolding team_org
revoke_grant db caller id wid = do
  team ← team_org db id
  _ ← require_org_role db (some caller) team.organization_id OrgRole.admin
  ok (record db { grants = filter (λ g. not (is_grant id wid g)) db.grants })
