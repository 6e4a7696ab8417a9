-- ===== src/Tenancy/LastOwner.antt =====
-- A workspace keeps an owner (the guards of apps/api/src/routes/workspaces.ts).
use your_stack.Common.{ℕ, ◌≤◌, ◌≡◌, List, [], ◌∷◌, ok, arith, Result-cases, inl, inr}
use your_stack.Tenancy.Db.{Db, User}
use your_stack.Tenancy.Members.{
  owners, MemberRequest, invite, update_role, remove, member_handler, serve,
}
use your_stack.Tenancy.OwnerCount.{
  HasUniqueIds, IsFresh, owners-set, owners-drop, find_by_id-workspace, All-ne_of_lt, IsFresh-mono,
  IsFresh-set, IsFresh-drop, HasUniqueIds-set, HasUniqueIds-drop, invite_inv, update_inv,
  remove_inv,
}

-- The ids of the members are distinct, the generator of ids is ahead of them, and the workspace has
-- an owner.
pub record HasOwner (wid : ℕ) (db : Db) : Type 0 where
  pub unique : HasUniqueIds db.workspace_members
  pub fresh : IsFresh db.next_id db.workspace_members
  pub owned : 1 ≤ owners wid db.workspace_members

-- One request, whoever makes it.
pub member_handler-HasOwner :
    (wid : ℕ) (db db' : Db) (caller : User) (request : MemberRequest)
    → member_handler db caller request ≡ ok db'
    → HasOwner wid db
    → HasOwner wid db'
unfolding member_handler
member_handler-HasOwner wid db db' caller (invite id email role) e h =
    let (m, ms, next, le) = invite_inv db db' caller id email role e in
    let ahead = IsFresh-mono db.next_id m.id db.workspace_members h.fresh le in
    record {
      unique = rw ms (All-ne_of_lt m.id db.workspace_members ahead, h.unique);
      fresh =
          rw (ms, next) (omega arith, IsFresh-mono m.id _ db.workspace_members ahead (omega arith));
      owned = rw ms (ground (arith, h.owned));
    }
member_handler-HasOwner wid db db' caller (update_role id mid role) e h =
    let (m, found, guard, ms, next) = update_inv db db' caller id mid role e in
    record {
      unique = rw ms (HasUniqueIds-set mid role _ h.unique);
      fresh = rw (ms, next) (IsFresh-set mid _ role _ h.fresh);
      owned = rw ms (
          ground (
            arith,
            h.owned,
            owners-set wid id mid role db.workspace_members m h.unique found,
            find_by_id-workspace id mid db.workspace_members m found,
          ));
    }
member_handler-HasOwner wid db db' caller (remove id mid) e h =
    let (m, found, guard, ms, next) = remove_inv db db' caller id mid e in
    record {
      unique = rw ms (HasUniqueIds-drop mid _ h.unique);
      fresh = rw (ms, next) (IsFresh-drop mid _ _ h.fresh);
      owned = rw ms (
          ground (
            arith,
            h.owned,
            owners-drop wid id mid db.workspace_members m h.unique found,
            find_by_id-workspace id mid db.workspace_members m found,
          ));
    }

-- Whatever requests are made, in whatever order and by whom, a workspace that has an owner has one
-- afterwards, and the ids of the members stay distinct.
pub serve-HasOwner :
    (wid : ℕ) (db : Db) (requests : List (User × MemberRequest))
    → HasOwner wid db
    → HasOwner wid (serve db requests)
unfolding serve
serve-HasOwner wid db [] h = h
serve-HasOwner wid db ((caller, request) ∷ rest) h =
    elim (Result-cases (member_handler db caller request)) [
      | inl (db', e) ↦
          rw e (serve-HasOwner wid db' rest (member_handler-HasOwner wid db db' caller request e h))
      | inr (x, e) ↦ rw e (serve-HasOwner wid db rest h)
    ]
