-- ===== src/Tenancy/Access.antt =====
-- apps/api/src/lib/rbac.ts
use your_stack.Common.{
  ℕ, Bool, true, false, not, ◌&&◌, Option, none, some, List, [], ◌∷◌, leb, ltb, ◌==◌, if◌then◌else◌,
  find, filter, any, Result, ok, err, ◌>>=◌, ◌>>◌, throw_if, AppError, unauthorized, forbidden,
  not_found,
}
use your_stack.Rbac.{WorkspaceRole, owner, admin, role_rank, Permission, role_has_permission}
use your_stack.Tenancy.Db.{
  Db, User, Workspace, WorkspaceStatus, active, suspended, OrgRole, WorkspaceGrant, OrgMember,
  WorkspaceMember,
}

pub record WorkspaceMembership : Type 0 where
  pub workspace_id : ℕ
  pub role : WorkspaceRole

-- The most privileged of two roles; `none` is `null`.
unfoldable pub max_role : Option WorkspaceRole → Option WorkspaceRole → Option WorkspaceRole
max_role none b = b
max_role (some a) none = some a
max_role (some a) (some b) = some (if leb (role_rank b) (role_rank a) then a else b)

-- `findUnique` and `findFirst`: the row that the query finds, or its error.
abbrev pub or_throw {ℓ} : {A : Type ℓ} → Option A → AppError → Result A
or_throw none e = err e
or_throw (some a) e = ok a

-- apps/api/src/lib/auth.ts
abbrev pub require_user : Option User → Result User
require_user user = or_throw user (unauthorized "Authentication required")

abbrev pub find_workspace : Db → ℕ → Option Workspace
find_workspace db wid = find (λ w. w.id == wid && not w.deleted) db.workspaces

abbrev pub find_org_member : Db → ℕ → ℕ → Option OrgMember
find_org_member db oid uid = find (λ m. m.organization_id == oid && m.user_id == uid) db.org_members

abbrev pub find_member : Db → ℕ → ℕ → Option WorkspaceMember
find_member db wid uid = find (λ m. m.workspace_id == wid && m.user_id == uid) db.workspace_members

-- `team: { members: { some: { userId } } }`
abbrev pub team_has : Db → ℕ → ℕ → Bool
team_has db uid tid =
    any (λ t. t.id == tid && any (λ m. m.team_id == t.id && m.user_id == uid) db.team_members)
      db.teams

unfoldable pub find_grants : Db → ℕ → ℕ → List WorkspaceGrant
find_grants db wid uid = filter (λ g. g.workspace_id == wid && team_has db uid g.team_id) db.grants

-- The role in every workspace of an organization that a role in it gives.
abbrev pub org_gives : Option OrgMember → Option WorkspaceRole
org_gives none = none
org_gives (some m) = elim m.role [
  | OrgRole.owner ↦ some owner
  | OrgRole.admin ↦ some admin
  | OrgRole.member ↦ none
]

abbrev pub org_role_of : Db → Option ℕ → ℕ → Option WorkspaceRole
org_role_of db none uid = none
org_role_of db (some oid) uid = org_gives (find_org_member db oid uid)

abbrev pub member_role : Option WorkspaceMember → Option WorkspaceRole
member_role none = none
member_role (some m) = some m.role

-- `for (const g of grants) effective = maxRole(effective, g.role)`
unfoldable pub max_grants : Option WorkspaceRole → List WorkspaceGrant → Option WorkspaceRole
unfolding max_role
max_grants effective [] = effective
max_grants effective (g ∷ gs) = max_grants (max_role effective (some g.role)) gs

unfoldable pub effective_role : Db → Workspace → User → ℕ → Option WorkspaceRole
unfolding max_role max_grants find_grants
effective_role db workspace user wid =
    let from_org = max_role none (org_role_of db workspace.organization_id user.id) in
    let from_member = max_role from_org (member_role (find_member db wid user.id)) in
    max_grants from_member (find_grants db wid user.id)

abbrev pub is_suspended : WorkspaceStatus → Bool
is_suspended active = false
is_suspended suspended = true

abbrev pub no_access : AppError
no_access = forbidden "You do not have access to this workspace"

-- What follows the platform admin's early return.
unfoldable pub member_access : Db → Workspace → User → ℕ → Result WorkspaceMembership
unfolding effective_role
member_access db workspace user wid = do
  role ← or_throw (effective_role db workspace user wid) no_access
  throw_if (is_suspended workspace.status) (forbidden "This workspace is suspended")
  ok (record { workspace_id = wid; role = role })

unfoldable pub resolve_membership : Db → Option User → ℕ → Result WorkspaceMembership
unfolding member_access
resolve_membership db req_user wid = do
  user ← require_user req_user
  workspace ← or_throw (find_workspace db wid) (not_found "Workspace not found")
  let member = member_access db workspace user wid
  if user.is_platform_admin then ok (record { workspace_id = wid; role = owner }) else member

unfoldable pub member_org_role : Db → User → ℕ → Result OrgRole
member_org_role db user oid = do
  _ ←
      or_throw (find (λ o. o.id == oid && not o.deleted) db.organizations)
        (not_found "Organization not found")
  member ←
      or_throw (find_org_member db oid user.id)
        (forbidden "You are not a member of this organization")
  ok member.role

unfoldable pub resolve_org_role : Db → Option User → ℕ → Result OrgRole
unfolding member_org_role
resolve_org_role db req_user oid = do
  user ← require_user req_user
  if user.is_platform_admin then ok OrgRole.owner else member_org_role db user oid

abbrev pub org_rank : OrgRole → ℕ
org_rank OrgRole.owner = 2
org_rank OrgRole.admin = 1
org_rank OrgRole.member = 0

unfoldable pub require_org_role : Db → Option User → ℕ → OrgRole → Result OrgRole
unfolding resolve_org_role
require_org_role db req_user oid min = do
  role ← resolve_org_role db req_user oid
  throw_if (ltb (org_rank role) (org_rank min)) (forbidden "Requires organization role")
  ok role

unfoldable pub assert_permission : WorkspaceMembership → Permission → Result (Unit {0})
assert_permission membership p =
    throw_if (not (role_has_permission membership.role p)) (forbidden "Missing permission")

unfoldable pub require_permission : Db → Option User → ℕ → Permission → Result WorkspaceMembership
unfolding resolve_membership assert_permission
require_permission db req_user wid p = do
  membership ← resolve_membership db req_user wid
  assert_permission membership p
  ok membership

unfoldable pub require_platform_admin : Option User → Result (Unit {0})
require_platform_admin req_user = do
  user ← require_user req_user
  throw_if (not user.is_platform_admin) (forbidden "Platform admin required")
