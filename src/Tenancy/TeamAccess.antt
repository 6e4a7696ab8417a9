-- ===== src/Tenancy/TeamAccess.antt =====
-- What the grants of teams do to access (apps/api/src/routes/organizations.ts with
-- apps/api/src/lib/rbac.ts).
use mathlib.Core.Path.{fun_ext}
use your_stack.Common.{
  ℕ, ◌≡◌, ◌≢◌, refl, sym, ◌∙◌, ap, Bool, true, false, not, ◌&&◌, Option, none, some, List, [], ◌∷◌,
  ◌==◌, filter, any, any-update, update, IsIn, IsIn-filter, ok, arith, Option-cases, Bool-cases,
  inl, inr, subst,
}
use your_stack.Rbac.{WorkspaceRole, Permission, role_has_permission}
use your_stack.Tenancy.Db.{Db, User, Workspace, active, WorkspaceGrant}
use your_stack.Tenancy.Access.{
  WorkspaceMembership, find_workspace, team_has, effective_role, find_grants, resolve_membership,
  member_access, require_permission, org_role_of, member_role, find_member,
}
use your_stack.Tenancy.EffectiveRole.{HasRole, by_team, by_org, by_membership}
use your_stack.Tenancy.Granting.{require_permission_iff}
use your_stack.Tenancy.Teams.{delete_team, is_grant, upsert_grant, grant_workspace, revoke_grant}

-- A row gives its team the role in the workspace.
abbrev Gives : ℕ → ℕ → WorkspaceRole → WorkspaceGrant → Type 0
Gives tid wid role g = (g.team_id ≡ tid) × (g.workspace_id ≡ wid) × (g.role ≡ role)

update-Gives :
    (tid wid : ℕ) (role : WorkspaceRole) (gs : List WorkspaceGrant)
    → any (is_grant tid wid) gs ≡ true
    → (g : WorkspaceGrant) × IsIn g (update (is_grant tid wid) (λ h. record h { role = role }) gs)
      × Gives tid wid role g
update-Gives tid wid role [] h = cc
update-Gives tid wid role (g ∷ gs) h = elim (Bool-cases (is_grant tid wid g)) [
  | inl e ↦ (record g { role = role }, inl (rw e refl), ground arith)
  | inr e ↦ let (k, m, a) = update-Gives tid wid role gs (ground arith) in (k, inr m, a)
]

upsert_grant-Gives :
    (tid wid : ℕ) (role : WorkspaceRole) (gs : List WorkspaceGrant)
    → (g : WorkspaceGrant) × IsIn g (upsert_grant tid wid role gs) × Gives tid wid role g
unfolding upsert_grant
upsert_grant-Gives tid wid role gs = elim (Bool-cases (any (is_grant tid wid) gs)) [
  | inl e ↦ rw e (update-Gives tid wid role gs e)
  | inr e ↦
      rw e (record { team_id = tid; workspace_id = wid; role = role }, inl refl, (refl, refl, refl))
]

grant_inv :
    (db db' : Db) (caller : User) (tid wid : ℕ) (role : WorkspaceRole)
    → grant_workspace db caller tid wid role ≡ ok db'
    → (db'.grants ≡ upsert_grant tid wid role db.grants)
      × (db'.workspaces ≡ db.workspaces)
      × (db'.teams ≡ db.teams)
      × (db'.team_members ≡ db.team_members)
unfolding grant_workspace
grant_inv db db' caller tid wid role e = ground arith

-- Once a grant is made, every member of the team has each permission of the granted role in the
-- workspace, if the workspace is active.
pub grant_workspace-permits :
    (db db' : Db) (caller user : User) (tid wid : ℕ) (role : WorkspaceRole) (w : Workspace)
    (p : Permission)
    → grant_workspace db caller tid wid role ≡ ok db'
    → team_has db user.id tid ≡ true
    → find_workspace db wid ≡ some w
    → w.status ≡ active
    → user.is_platform_admin ≡ false
    → role_has_permission role p ≡ true
    → (m : WorkspaceMembership) × (require_permission db' (some user) wid p ≡ ok m)
grant_workspace-permits db db' caller user tid wid role w p e has found act plain perm =
    let (grants, workspaces, teams, members) = grant_inv db db' caller tid wid role e in
    let (g, listed, (team, here, same)) = upsert_grant-Gives tid wid role db.grants in
    (require_permission_iff db' user wid p plain).1 (record {
      workspace = w;
      found = rw workspaces found;
      is_active = act;
      role = role;
      held = by_team g (rw grants listed) here (rw (team, teams, members) has) same;
      permits = perm;
    })

find_grants-congr :
    (db db' : Db) (wid uid : ℕ)
    → db'.grants ≡ db.grants
    → ((tid : ℕ) → team_has db' uid tid ≡ team_has db uid tid)
    → find_grants db' wid uid ≡ find_grants db wid uid
unfolding find_grants
find_grants-congr db db' wid uid grants same = rw grants (
    ap (λ (h : ℕ → Bool). filter (λ g. g.workspace_id == wid && h g.team_id) db.grants)
      (fun_ext same))

delete_inv :
    (db db' : Db) (caller : User) (tid : ℕ)
    → delete_team db caller tid ≡ ok db'
    → db'
      ≡ record db { teams = update (λ t. t.id == tid) (λ t. record t { deleted = true }) db.teams }
unfolding delete_team
delete_inv db db' caller tid e = ground arith

abbrev without_team : Db → ℕ → Db
without_team db tid = record db {
  teams = update (λ t. t.id == tid) (λ t. record t { deleted = true }) db.teams;
}

member_access-without_team :
    (db : Db) (tid : ℕ) (w : Workspace) (user : User) (wid : ℕ)
    → member_access (without_team db tid) w user wid ≡ member_access db w user wid
unfolding member_access effective_role
member_access-without_team db tid w user wid =
    let same =
      find_grants-congr db (without_team db tid) wid user.id refl
        (λ g. any-update _ _ _ db.teams (λ t. refl)) in
    rw same

-- Deleting a team takes no access away: every caller resolves in every workspace as before.
pub delete_team-resolve_membership :
    (db db' : Db) (caller : User) (tid : ℕ) (req_user : Option User) (wid : ℕ)
    → delete_team db caller tid ≡ ok db'
    → resolve_membership db' req_user wid ≡ resolve_membership db req_user wid
unfolding resolve_membership
delete_team-resolve_membership db db' caller tid none wid e = refl
delete_team-resolve_membership db db' caller tid (some user) wid e =
    elim (Option-cases (find_workspace db wid)) [
      | inl n ↦ rw (delete_inv db db' caller tid e, n)
      | inr (w, f) ↦
          rw (delete_inv db db' caller tid e, f, member_access-without_team db tid w user wid)
    ]

revoke_inv :
    (db db' : Db) (caller : User) (tid wid : ℕ)
    → revoke_grant db caller tid wid ≡ ok db'
    → db' ≡ record db { grants = filter (λ g. not (is_grant tid wid g)) db.grants }
unfolding revoke_grant
revoke_inv db db' caller tid wid e = ground arith

abbrev without_grant : Db → ℕ → ℕ → Db
without_grant db tid wid = record db { grants = filter (λ g. not (is_grant tid wid g)) db.grants }

without_grant-no_role :
    (db : Db) (user : User) (tid wid : ℕ) (w : Workspace) (r : WorkspaceRole)
    → org_role_of db w.organization_id user.id ≡ none
    → find_member db wid user.id ≡ none
    → ((g : WorkspaceGrant)
        → IsIn g db.grants
        → g.workspace_id ≡ wid
        → team_has db user.id g.team_id ≡ true
        → g.team_id ≡ tid)
    → ¬ HasRole (without_grant db tid wid) w user wid r
without_grant-no_role db user tid wid w r org direct only (by_org e) = cc (sym org ∙ e)
without_grant-no_role db user tid wid w r org direct only (by_membership e) =
    cc (sym (ap member_role direct) ∙ e)
without_grant-no_role db user tid wid w r org direct only (by_team g listed here has same) =
    let (old, kept) = (IsIn-filter (λ g. not (is_grant tid wid g)) g db.grants).0 listed in
    ground (arith, only g old here has)

-- After a grant is revoked, no caller has a role through it: one without a role of the organization,
-- without a membership and without another team that is granted the workspace is refused.
pub revoke_grant-refuses :
    (db db' : Db) (caller user : User) (tid wid : ℕ) (p : Permission) (m : WorkspaceMembership)
    (w : Workspace)
    → revoke_grant db caller tid wid ≡ ok db'
    → user.is_platform_admin ≡ false
    → find_workspace db wid ≡ some w
    → org_role_of db w.organization_id user.id ≡ none
    → find_member db wid user.id ≡ none
    → ((g : WorkspaceGrant)
        → IsIn g db.grants
        → g.workspace_id ≡ wid
        → team_has db user.id g.team_id ≡ true
        → g.team_id ≡ tid)
    → require_permission db' (some user) wid p ≢ ok m
revoke_grant-refuses db db' caller user tid wid p m w e plain found org direct only granted =
    let h = (require_permission_iff db' user wid p plain).0 (m, granted) in
    let same = revoke_inv db db' caller tid wid e in
    let found' : find_workspace db wid ≡ some h.workspace =
      subst (λ d. find_workspace d wid ≡ some h.workspace) same h.found in
    let held = subst (λ d. HasRole d h.workspace user wid h.role) same h.held in
    let here : h.workspace ≡ w = cc in
    without_grant-no_role db user tid wid w h.role org direct only
      (subst (λ v. HasRole (without_grant db tid wid) v user wid h.role) here held)
