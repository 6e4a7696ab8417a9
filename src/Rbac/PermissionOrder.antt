-- ===== src/Rbac/PermissionOrder.antt =====
-- The roles are ordered by their permissions (packages/shared/src/rbac.ts).
use text.Mathlib.Text.{◌==◌ as str_eq}
use text.Mathlib.TextEquality.{eq_iff}
use your_stack.Common.{
  ℕ, true, List, [], ◌∷◌, ◌++◌, ◌||◌, ◌≡◌, refl, ap, ◌↔◌, arith, any, any-append, count, not, ◌&&◌,
  if◌then◌else◌,
}
use your_stack.Rbac.Roles.{WorkspaceRole, owner, admin, developer, viewer, role_at_least}
use your_stack.Rbac.Permissions.{
  Permission, workspace_view, workspace_delete, workspace_update, project_create, text_of, has,
  set_from, all_permissions, viewer_permissions, developer_permissions, admin_permissions,
  owner_permissions, role_permissions, role_has_permission, permissions_for_role,
}

-- Sets do not tell apart permissions with one text.
has-congr : (ps : List Permission) (p q : Permission) → text_of p ≡ text_of q → has ps p ≡ has ps q
unfolding has
has-congr ps p q e = ap (λ t. any (λ r. str_eq (text_of r) t) ps) e

has-cons :
    (ps : List Permission) (q p : Permission)
    → has (q ∷ ps) p ≡ (str_eq (text_of q) (text_of p) || has ps p)
unfolding has
has-cons ps q p = refl

-- A set built from an array has what the array has.
set_from-has :
    (seen ps : List Permission) (p : Permission)
    → (has seen p || has (set_from seen ps) p) ≡ (has seen p || has ps p)
unfolding set_from
set_from-has seen [] p = refl
set_from-has seen (q ∷ ps) p = ground (
  arith,
  eq_iff (text_of q) (text_of p),
  has-congr seen q p,
  has-cons ps q p,
  has-cons seen q p,
  has-cons (set_from (q ∷ seen) ps) q p,
  set_from-has seen ps p,
  set_from-has (q ∷ seen) ps p,
)

pub has-set_from : (ps : List Permission) (p : Permission) → has (set_from [] ps) p ≡ has ps p
unfolding has
has-set_from ps p = set_from-has [] ps p

has-append : (ps qs : List Permission) (p : Permission) → has (ps ++ qs) p ≡ (has ps p || has qs p)
unfolding has
has-append ps qs p = any-append _ ps qs

has-owner : (p : Permission) → has owner_permissions p ≡ true
unfolding has owner_permissions all_permissions
has-owner workspace_view = refl
has-owner _ = refl

developer-has :
    (p : Permission) → has viewer_permissions p ≡ true → has developer_permissions p ≡ true
unfolding developer_permissions
developer-has p h = rw has-append (rw h refl)

admin-has : (p : Permission) → has developer_permissions p ≡ true → has admin_permissions p ≡ true
unfolding admin_permissions
admin-has p h = rw has-append (rw h refl)

viewer-developer-admin :
    (a b : WorkspaceRole) (p : Permission)
    → role_at_least a b ≡ true
    → role_has_permission b p ≡ true
    → role_has_permission a p ≡ true
unfolding role_at_least role_has_permission role_permissions
viewer-developer-admin a b p h k = ground (
  arith,
  has-set_from viewer_permissions p,
  has-set_from developer_permissions p,
  has-set_from admin_permissions p,
  has-set_from owner_permissions p,
  developer-has p,
  admin-has p,
  has-owner p,
)

-- A permission that tells the role apart from those below it.
abbrev mark : WorkspaceRole → Permission
mark owner = workspace_delete
mark admin = workspace_update
mark developer = project_create
mark viewer = workspace_view

has-mark : (b : WorkspaceRole) → role_has_permission b (mark b) ≡ true
unfolding role_has_permission role_permissions set_from has owner_permissions admin_permissions
    developer_permissions viewer_permissions all_permissions
has-mark owner = refl
has-mark admin = refl
has-mark developer = refl
has-mark viewer = refl

mark-at_least :
    (a b : WorkspaceRole) → role_has_permission a (mark b) ≡ true → role_at_least a b ≡ true
unfolding role_has_permission role_permissions set_from has owner_permissions admin_permissions
    developer_permissions viewer_permissions all_permissions role_at_least
mark-at_least owner owner h = refl
mark-at_least admin owner h = cc
mark-at_least developer owner h = cc
mark-at_least viewer owner h = cc
mark-at_least owner admin h = refl
mark-at_least admin admin h = refl
mark-at_least developer admin h = cc
mark-at_least viewer admin h = cc
mark-at_least owner developer h = refl
mark-at_least admin developer h = refl
mark-at_least developer developer h = refl
mark-at_least viewer developer h = cc
mark-at_least owner viewer h = refl
mark-at_least admin viewer h = refl
mark-at_least developer viewer h = refl
mark-at_least viewer viewer h = refl

-- One role is at least as privileged as another, by rank, exactly when it has every permission that
-- the other has.
pub role_at_least_iff :
    (a b : WorkspaceRole)
    → (role_at_least a b ≡ true)
      ↔ ((p : Permission) → role_has_permission b p ≡ true → role_has_permission a p ≡ true)
role_at_least_iff a b =
    (λ h p. viewer-developer-admin a b p h, λ all. mark-at_least a b (all (mark b) (has-mark b)))

abbrev pub occurs : Permission → List Permission → ℕ
occurs p ps = count (λ q. str_eq (text_of q) (text_of p)) ps

set_from-occurs :
    (seen ps : List Permission) (p : Permission)
    → occurs p (set_from seen ps) ≡ (if not (has seen p) && has ps p then 1 else 0)
unfolding set_from
set_from-occurs seen [] p = unfold has in ground arith
set_from-occurs seen (q ∷ ps) p = ground (
  arith,
  eq_iff (text_of q) (text_of p),
  has-congr seen q p,
  has-cons ps q p,
  has-cons seen q p,
  set_from-occurs seen ps p,
  set_from-occurs (q ∷ seen) ps p,
)

occurs-set_from :
    (ps : List Permission) (p : Permission)
    → occurs p (set_from [] ps) ≡ (if has (set_from [] ps) p then 1 else 0)
unfolding has
occurs-set_from ps p = rw (set_from-occurs [] ps p, has-set_from ps p)

-- The list of a role's permissions holds each permission that the role has once, and no other.
pub permissions_for_role-occurs :
    (role : WorkspaceRole) (p : Permission)
    → occurs p (permissions_for_role role) ≡ (if role_has_permission role p then 1 else 0)
unfolding permissions_for_role role_has_permission role_permissions
permissions_for_role-occurs owner p = occurs-set_from owner_permissions p
permissions_for_role-occurs admin p = occurs-set_from admin_permissions p
permissions_for_role-occurs developer p = occurs-set_from developer_permissions p
permissions_for_role-occurs viewer p = occurs-set_from viewer_permissions p
