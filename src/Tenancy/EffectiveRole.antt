-- ===== src/Tenancy/EffectiveRole.antt =====
-- What resolveMembership (apps/api/src/lib/rbac.ts) grants: the greatest of the caller's roles.
use your_stack.Common.{
  ℕ, ◌≤◌, IsIn, IsIn-filter, ◌↔◌, ◌≡◌, refl, true, ◌&&◌, ◌⊎◌, inl, inr, Option, none, some, List,
  [], ◌∷◌, arith, ◌==◌,
}
use your_stack.Rbac.{WorkspaceRole, role_rank}
use your_stack.Tenancy.Db.{Db, User, Workspace, WorkspaceGrant}
use your_stack.Tenancy.Access.{
  max_role, find_member, team_has, find_grants, org_role_of, member_role, max_grants,
  effective_role,
}

-- The ways in which a user comes by a role in a workspace.
pub data HasRole (db : Db) (w : Workspace) (user : User) (wid : ℕ) (role : WorkspaceRole)
    : Type 0 where
  by_org : org_role_of db w.organization_id user.id ≡ some role → HasRole db w user wid role
  by_membership : member_role (find_member db wid user.id) ≡ some role → HasRole db w user wid role
  by_team :
      (g : WorkspaceGrant)
      → IsIn g db.grants
      → g.workspace_id ≡ wid
      → team_has db user.id g.team_id ≡ true
      → g.role ≡ role
      → HasRole db w user wid role

-- `o` is the greatest role that satisfies `P`, or `none` where there is none.
pub record IsGreatest {ℓ} (P : WorkspaceRole → Type ℓ) (o : Option WorkspaceRole) : Type ℓ where
  pub among : (r : WorkspaceRole) → o ≡ some r → P r
  pub bound :
      (r : WorkspaceRole) → P r → (m : WorkspaceRole) × (o ≡ some m) × (role_rank r ≤ role_rank m)

max_role-among :
    (a b : Option WorkspaceRole) (r : WorkspaceRole)
    → max_role a b ≡ some r
    → (a ≡ some r) ⊎ (b ≡ some r)
unfolding max_role
max_role-among none b r e = inr e
max_role-among (some a) none r e = inl e
max_role-among (some a) (some b) r e = ground arith

max_role-left :
    (a b : Option WorkspaceRole) (r : WorkspaceRole)
    → a ≡ some r
    → (m : WorkspaceRole) × (max_role a b ≡ some m) × (role_rank r ≤ role_rank m)
unfolding max_role
max_role-left none b r e = cc
max_role-left (some a) none r e = (a, refl, ground arith)
max_role-left (some a) (some b) r e = (_, refl, ground arith)

max_role-right :
    (a b : Option WorkspaceRole) (r : WorkspaceRole)
    → b ≡ some r
    → (m : WorkspaceRole) × (max_role a b ≡ some m) × (role_rank r ≤ role_rank m)
unfolding max_role
max_role-right none b r e = (r, e, ground arith)
max_role-right (some a) none r e = cc
max_role-right (some a) (some b) r e = (_, refl, ground arith)

max_grants-among :
    (acc : Option WorkspaceRole) (gs : List WorkspaceGrant) (r : WorkspaceRole)
    → max_grants acc gs ≡ some r
    → (acc ≡ some r) ⊎ ((g : WorkspaceGrant) × IsIn g gs × (g.role ≡ r))
unfolding max_grants
max_grants-among acc [] r e = inl e
max_grants-among acc (g ∷ gs) r e = elim (max_grants-among (max_role acc (some g.role)) gs r e) [
  | inl h ↦ elim (max_role-among acc (some g.role) r h) [
    | inl k ↦ inl k
    | inr k ↦ inr (g, inl refl, cc)
  ]
  | inr (g', m, k) ↦ inr (g', inr m, k)
]

abbrev AtLeast : WorkspaceRole → Option WorkspaceRole → Type 0
AtLeast r o = (m : WorkspaceRole) × (o ≡ some m) × (role_rank r ≤ role_rank m)

max_grants-acc :
    (gs : List WorkspaceGrant) (acc : Option WorkspaceRole) (r : WorkspaceRole)
    → AtLeast r acc
    → AtLeast r (max_grants acc gs)
unfolding max_grants
max_grants-acc [] acc r h = h
max_grants-acc (g ∷ gs) acc r (m, e, le) =
    let (m', e', le') = max_role-left acc (some g.role) m e in
    max_grants-acc gs (max_role acc (some g.role)) r (m', e', omega arith)

max_grants-grant :
    (g : WorkspaceGrant) (gs : List WorkspaceGrant) (acc : Option WorkspaceRole)
    → IsIn g gs
    → AtLeast g.role (max_grants acc gs)
unfolding max_grants
max_grants-grant g [] acc h = absurd h
max_grants-grant g (h ∷ gs) acc (inl e) =
    rw (← e)
      (max_grants-acc gs (max_role acc (some h.role)) h.role (max_role-right acc _ h.role refl))
max_grants-grant g (h ∷ gs) acc (inr m) = max_grants-grant g gs (max_role acc (some h.role)) m

module _ (db : Db) (w : Workspace) (user : User) (wid : ℕ) where
  from_org : Option WorkspaceRole
  from_org = max_role none (org_role_of db w.organization_id user.id)

  from_member : Option WorkspaceRole
  unfolding from_org
  from_member = max_role from_org (member_role (find_member db wid user.id))

  find_grants_iff :
      (g : WorkspaceGrant)
      → IsIn g (find_grants db wid user.id)
        ↔ (IsIn g db.grants × (g.workspace_id ≡ wid) × (team_has db user.id g.team_id ≡ true))
  unfolding find_grants
  find_grants_iff g = ground (
    arith,
    IsIn-filter (λ (h : WorkspaceGrant). h.workspace_id == wid && team_has db user.id h.team_id) g
        db.grants,
  )

  effective_role-among :
      (r : WorkspaceRole) → effective_role db w user wid ≡ some r → HasRole db w user wid r
  unfolding effective_role from_org from_member
  effective_role-among r e = elim (max_grants-among from_member (find_grants db wid user.id) r e) [
    | inr (g, m, k) ↦
        let (listed, here, has) = (find_grants_iff g).0 m in by_team g listed here has k
    | inl h ↦ elim (max_role-among from_org _ r h) [
      | inl k ↦ elim (max_role-among none _ r k) [ inl n ↦ cc | inr o ↦ by_org o ]
      | inr k ↦ by_membership k
    ]
  ]

  effective_role-bound :
      (r : WorkspaceRole) → HasRole db w user wid r → AtLeast r (effective_role db w user wid)
  unfolding effective_role from_org from_member
  effective_role-bound r (by_org o) =
      let (m, e, le) = max_role-right none _ r o in
      let (m', e', le') = max_role-left from_org (member_role (find_member db wid user.id)) m e in
      max_grants-acc (find_grants db wid user.id) from_member r (m', e', omega arith)
  effective_role-bound r (by_membership e) =
      max_grants-acc (find_grants db wid user.id) from_member r
        (max_role-right from_org (member_role (find_member db wid user.id)) r e)
  effective_role-bound r (by_team g listed here has k) = rw (← k) (
      max_grants-grant g (find_grants db wid user.id) from_member
        ((find_grants_iff g).1 (listed, here, has)))

  -- The effective role is the greatest of the roles that the caller has in the workspace.
  pub effective_role-IsGreatest : IsGreatest (HasRole db w user wid) (effective_role db w user wid)
  effective_role-IsGreatest = record { among = effective_role-among; bound = effective_role-bound }
