-- ===== src/Tenancy/Granting.antt =====
-- When the access checks of apps/api/src/lib/rbac.ts let a caller through.
use your_stack.Common.{
  ℕ, ◌≤◌, ◌≡◌, refl, true, false, ◌↔◌, some, ok, arith, Option-cases, inl, inr, ◌∙◌,
}
use your_stack.Rbac.{WorkspaceRole, Permission, role_rank, role_at_least, role_has_permission}
use your_stack.Rbac.PermissionOrder.{role_at_least_iff}
use your_stack.Tenancy.Db.{Db, User, Workspace, active}
use your_stack.Tenancy.Access.{
  WorkspaceMembership, find_workspace, effective_role, member_access, resolve_membership,
  require_permission, assert_permission,
}
use your_stack.Tenancy.EffectiveRole.{HasRole, effective_role-IsGreatest}

-- `role` is the caller's greatest role in the workspace, which exists and is not suspended.
pub record HasAccess (db : Db) (user : User) (wid : ℕ) (role : WorkspaceRole) : Type 0 where
  pub workspace : Workspace
  pub found : find_workspace db wid ≡ some workspace
  pub is_active : workspace.status ≡ active
  pub held : HasRole db workspace user wid role
  pub greatest :
      (r : WorkspaceRole) → HasRole db workspace user wid r → role_rank r ≤ role_rank role

role_rank-injective : (a b : WorkspaceRole) → role_rank a ≡ role_rank b → a ≡ b
role_rank-injective a b h = ground arith

rank-at_least : (a b : WorkspaceRole) → role_rank b ≤ role_rank a → role_at_least a b ≡ true
unfolding role_at_least
rank-at_least a b h = ground arith

member_access_iff :
    (db : Db) (w : Workspace) (user : User) (wid : ℕ) (m : WorkspaceMembership)
    → (member_access db w user wid ≡ ok m) ↔ (
        (w.status ≡ active) × (effective_role db w user wid ≡ some m.role) × (m.workspace_id ≡ wid))
unfolding member_access
member_access_iff db w user wid m = ground arith

resolve_inv :
    (db : Db) (user : User) (wid : ℕ) (m : WorkspaceMembership)
    → user.is_platform_admin ≡ false
    → resolve_membership db (some user) wid ≡ ok m
    → (w : Workspace) × (find_workspace db wid ≡ some w) × (member_access db w user wid ≡ ok m)
unfolding resolve_membership
resolve_inv db user wid m plain e = elim (Option-cases (find_workspace db wid)) [
  | inl n ↦ absurd (ground arith)
  | inr (w, found) ↦ (w, found, ground arith)
]

resolve_found :
    (db : Db) (user : User) (wid : ℕ) (w : Workspace)
    → user.is_platform_admin ≡ false
    → find_workspace db wid ≡ some w
    → resolve_membership db (some user) wid ≡ member_access db w user wid
unfolding resolve_membership
resolve_found db user wid w plain found = rw (found, plain)

-- A caller who is no platform admin is let into a workspace, with a role, exactly when the workspace
-- exists and is active and the role is the greatest of those that the caller has in it through the
-- organization, the membership and the teams.
pub resolve_membership_iff :
    (db : Db) (user : User) (wid : ℕ) (m : WorkspaceMembership)
    → user.is_platform_admin ≡ false
    → (resolve_membership db (some user) wid ≡ ok m)
      ↔ ((m.workspace_id ≡ wid) × HasAccess db user wid m.role)
resolve_membership_iff db user wid m plain = (to, from)
  where
    to :
        resolve_membership db (some user) wid ≡ ok m
        → (m.workspace_id ≡ wid) × HasAccess db user wid m.role
    to e =
        let (w, found, e') = resolve_inv db user wid m plain e in
        let (act, eff, same) = (member_access_iff db w user wid m).0 e' in
        let g = effective_role-IsGreatest db w user wid in
        (
          same,
          record {
            workspace = w;
            found = found;
            is_active = act;
            held = g.among m.role eff;
            greatest = λ r h. let (k, eff', le) = g.bound r h in ground arith;
          },
        )

    from :
        (m.workspace_id ≡ wid) × HasAccess db user wid m.role
        → resolve_membership db (some user) wid ≡ ok m
    from (same, h) =
        let g = effective_role-IsGreatest db h.workspace user wid in
        let (k, eff, le) = g.bound m.role h.held in
        let ge = h.greatest k (g.among k eff) in
        let eq = role_rank-injective k m.role (omega arith) in
        resolve_found db user wid h.workspace plain h.found
        ∙ (member_access_iff db h.workspace user wid m).1 (h.is_active, rw (← eq) eff, same)

-- Some role of the caller in the workspace, which exists and is active, has the permission.
pub record IsPermitted (db : Db) (user : User) (wid : ℕ) (p : Permission) : Type 0 where
  pub workspace : Workspace
  pub found : find_workspace db wid ≡ some workspace
  pub is_active : workspace.status ≡ active
  pub role : WorkspaceRole
  pub held : HasRole db workspace user wid role
  pub permits : role_has_permission role p ≡ true

require_inv :
    (db : Db) (user : User) (wid : ℕ) (p : Permission) (m : WorkspaceMembership)
    → (require_permission db (some user) wid p ≡ ok m)
      ↔ ((resolve_membership db (some user) wid ≡ ok m) × (role_has_permission m.role p ≡ true))
unfolding require_permission assert_permission
require_inv db user wid p m = ground arith

-- A caller who is no platform admin passes the check for a permission exactly when the workspace
-- exists and is active and one of the caller's roles in it has the permission.
pub require_permission_iff :
    (db : Db) (user : User) (wid : ℕ) (p : Permission)
    → user.is_platform_admin ≡ false
    → ((m : WorkspaceMembership) × (require_permission db (some user) wid p ≡ ok m))
      ↔ IsPermitted db user wid p
require_permission_iff db user wid p plain = (to, from)
  where
    to :
        (m : WorkspaceMembership) × (require_permission db (some user) wid p ≡ ok m)
        → IsPermitted db user wid p
    to (m, e) =
        let (resolved, permits) = (require_inv db user wid p m).0 e in
        let (_, h) = (resolve_membership_iff db user wid m plain).0 resolved in
        record {
          workspace = h.workspace;
          found = h.found;
          is_active = h.is_active;
          role = m.role;
          held = h.held;
          permits = permits;
        }

    from :
        IsPermitted db user wid p
        → (m : WorkspaceMembership) × (require_permission db (some user) wid p ≡ ok m)
    from h =
        let g = effective_role-IsGreatest db h.workspace user wid in
        let (k, eff, le) = g.bound h.role h.held in
        let m : WorkspaceMembership = record { workspace_id = wid; role = k } in
        let resolved =
          resolve_found db user wid h.workspace plain h.found
          ∙ (member_access_iff db h.workspace user wid m).1 (h.is_active, eff, refl) in
        let more = (role_at_least_iff k h.role).0 (rank-at_least k h.role le) p h.permits in
        (m, (require_inv db user wid p m).1 (resolved, more))
