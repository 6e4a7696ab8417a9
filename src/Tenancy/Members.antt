-- ===== src/Tenancy/Members.antt =====
-- The member handlers of apps/api/src/routes/workspaces.ts. A handler returns the new tables; where it
-- throws, the tables stay as they were.
use text.Mathlib.Text.{◌==◌ as str_eq}
use your_stack.Common.{
  ℕ, suc, Bool, true, false, not, ◌&&◌, Option, none, some, List, [], ◌∷◌, String, leb, ◌==◌, find,
  filter, count, update, is_some, Result, ok, err, ◌>>=◌, ◌>>◌, throw_if, validation, conflict,
  not_found, bad_request,
}
use your_stack.Rbac.{WorkspaceRole, owner, Permission}
use your_stack.Tenancy.Db.{Db, User, WorkspaceMember, AuditAction}
use your_stack.Tenancy.Access.{find_member, or_throw, require_permission}

abbrev pub is_owner : WorkspaceRole → Bool
is_owner owner = true
is_owner _ = false

-- `audit({ … })`
abbrev pub audit : User → AuditAction → ℕ → Db → Db
audit actor action target db = record db {
  audit_log = record { actor_id = actor.id; action = action; target_id = target } ∷ db.audit_log;
}

-- `prisma.user.upsert({ where: { email }, update: {}, create: { email, … } })`
unfoldable pub upsert_user : String → Db → User × Db
upsert_user email db = elim (find (λ u. str_eq u.email email) db.users) [
  | some u ↦ (u, db)
  | none ↦
      let u : User = record { id = db.next_id; email = email; is_platform_admin = false } in
      (u, record db { users = u ∷ db.users; next_id = suc db.next_id })
]

-- POST /workspaces/:id/members
unfoldable pub invite_member : Db → User → ℕ → String → WorkspaceRole → Result Db
unfolding upsert_user
invite_member db caller id email role = do
  _ ← require_permission db (some caller) id Permission.member_invite
  -- `inviteMemberSchema` has every role but `owner`.
  throw_if (is_owner role) (validation "Request validation failed")
  let (user, db1) = upsert_user email db
  throw_if (is_some (find_member db1 id user.id)) (conflict "User is already a member")
  let member : WorkspaceMember = record {
    id = db1.next_id;
    workspace_id = id;
    user_id = user.id;
    role = role;
  }
  let db2 = record db1 {
    workspace_members = member ∷ db1.workspace_members;
    next_id = suc db1.next_id;
  }
  ok (audit caller AuditAction.member_invite user.id db2)

abbrev pub owners : ℕ → List WorkspaceMember → ℕ
owners id ms = count (λ m. m.workspace_id == id && is_owner m.role) ms

abbrev pub find_by_id : ℕ → ℕ → List WorkspaceMember → Option WorkspaceMember
find_by_id id member_id ms = find (λ m. m.id == member_id && m.workspace_id == id) ms

-- PATCH /workspaces/:id/members/:memberId
unfoldable pub update_member_role : Db → User → ℕ → ℕ → WorkspaceRole → Result Db
update_member_role db caller id member_id role = do
  _ ← require_permission db (some caller) id Permission.member_update_role
  member ← or_throw (find_by_id id member_id db.workspace_members) (not_found "Member not found")
  throw_if (is_owner member.role && not (is_owner role) && leb (owners id db.workspace_members) 1)
      (bad_request "A workspace must have at least one owner")
  let ms = update (λ m. m.id == member_id) (λ m. record m { role = role }) db.workspace_members
  ok (
      audit caller AuditAction.member_role_update member.user_id
        (record db { workspace_members = ms }))

-- DELETE /workspaces/:id/members/:memberId
unfoldable pub remove_member : Db → User → ℕ → ℕ → Result Db
remove_member db caller id member_id = do
  _ ← require_permission db (some caller) id Permission.member_remove
  member ← or_throw (find_by_id id member_id db.workspace_members) (not_found "Member not found")
  throw_if (is_owner member.role && leb (owners id db.workspace_members) 1)
      (bad_request "Cannot remove the last owner")
  let ms = filter (λ m. not (m.id == member_id)) db.workspace_members
  ok (audit caller AuditAction.member_remove member.user_id (record db { workspace_members = ms }))

-- A request to one of the three handlers.
pub data MemberRequest : Type 0 where
  invite : ℕ → String → WorkspaceRole → MemberRequest
  update_role : ℕ → ℕ → WorkspaceRole → MemberRequest
  remove : ℕ → ℕ → MemberRequest

unfoldable pub member_handler : Db → User → MemberRequest → Result Db
unfolding invite_member update_member_role remove_member
member_handler db caller (invite id email role) = invite_member db caller id email role
member_handler db caller (update_role id mid role) = update_member_role db caller id mid role
member_handler db caller (remove id mid) = remove_member db caller id mid

-- Requests one after the other; a request that is refused leaves the tables as they were.
unfoldable pub serve : Db → List (User × MemberRequest) → Db
serve db [] = db
serve db ((caller, request) ∷ rest) =
    serve (elim (member_handler db caller request) [ ok db' ↦ db' | err e ↦ db ]) rest
