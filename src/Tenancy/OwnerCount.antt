-- ===== src/Tenancy/OwnerCount.antt =====
-- How the member handlers of apps/api/src/routes/workspaces.ts change the number of owners.
use your_stack.Common.{
  ℕ, suc, ◌+◌, ◌≤◌, ◌<◌, ◌≡◌, ◌≢◌, refl, subst, Bool, true, false, not, ◌&&◌, none, some, List, [],
  ◌∷◌, String, ◌==◌, if◌then◌else◌, filter, update, All, ok, arith, Option-cases, inl, inr, leb,
}
use your_stack.Rbac.{WorkspaceRole}
use your_stack.Tenancy.Db.{Db, User, WorkspaceMember}
use your_stack.Tenancy.Members.{
  is_owner, owners, find_by_id, upsert_user, invite_member, update_member_role, remove_member,
}

abbrev pub IsFresh : ℕ → List WorkspaceMember → Type 0
IsFresh n ms = All (λ m. m.id < n) ms

-- No two rows have one id.
abbrev pub HasUniqueIds : List WorkspaceMember → Type 0
HasUniqueIds [] = Unit
HasUniqueIds (m ∷ ms) = All (λ n. n.id ≢ m.id) ms × HasUniqueIds ms

abbrev pub set_role : ℕ → WorkspaceRole → List WorkspaceMember → List WorkspaceMember
set_role mid role ms = update (λ m. m.id == mid) (λ m. record m { role = role }) ms

abbrev pub drop_member : ℕ → List WorkspaceMember → List WorkspaceMember
drop_member mid ms = filter (λ m. not (m.id == mid)) ms

owners-set_other :
    (wid k mid : ℕ) (role : WorkspaceRole) (ms : List WorkspaceMember)
    → All (λ n. n.id ≢ k) ms
    → k ≡ mid
    → owners wid (set_role mid role ms) ≡ owners wid ms
owners-set_other wid k mid role [] h e = refl
owners-set_other wid k mid role (m ∷ ms) h e = ground (arith, owners-set_other wid k mid role ms)

owners-drop_other :
    (wid k mid : ℕ) (ms : List WorkspaceMember)
    → All (λ n. n.id ≢ k) ms
    → k ≡ mid
    → owners wid (drop_member mid ms) ≡ owners wid ms
owners-drop_other wid k mid [] h e = refl
owners-drop_other wid k mid (m ∷ ms) h e = ground (arith, owners-drop_other wid k mid ms)

find_by_id-other :
    (id k mid : ℕ) (ms : List WorkspaceMember)
    → All (λ n. n.id ≢ k) ms
    → k ≡ mid
    → find_by_id id mid ms ≡ none
find_by_id-other id k mid [] h e = refl
find_by_id-other id k mid (m ∷ ms) h e = ground (arith, find_by_id-other id k mid ms)

abbrev pub one : Bool → ℕ
one true = 1
one false = 0

pub find_by_id-workspace :
    (id mid : ℕ) (ms : List WorkspaceMember) (m : WorkspaceMember)
    → find_by_id id mid ms ≡ some m
    → m.workspace_id ≡ id
find_by_id-workspace id mid [] m f = cc
find_by_id-workspace id mid (n ∷ ms) m f = ground (arith, find_by_id-workspace id mid ms m)

-- An update of one row counts it anew, and a removal takes it out of the count.
pub owners-set :
    (wid id mid : ℕ) (role : WorkspaceRole) (ms : List WorkspaceMember) (m : WorkspaceMember)
    → HasUniqueIds ms
    → find_by_id id mid ms ≡ some m
    → owners wid (set_role mid role ms) + one (m.workspace_id == wid && is_owner m.role)
      ≡ owners wid ms + one (m.workspace_id == wid && is_owner role)
owners-set wid id mid role [] m u f = cc
owners-set wid id mid role (n ∷ ms) m u f = ground (
  arith,
  owners-set wid id mid role ms m,
  owners-set_other wid n.id mid role ms,
  find_by_id-other id n.id mid ms,
)

pub owners-drop :
    (wid id mid : ℕ) (ms : List WorkspaceMember) (m : WorkspaceMember)
    → HasUniqueIds ms
    → find_by_id id mid ms ≡ some m
    → owners wid (drop_member mid ms) + one (m.workspace_id == wid && is_owner m.role)
      ≡ owners wid ms
owners-drop wid id mid [] m u f = cc
owners-drop wid id mid (n ∷ ms) m u f = ground (
  arith,
  owners-drop wid id mid ms m,
  owners-drop_other wid n.id mid ms,
  find_by_id-other id n.id mid ms,
)

pub All-ne_of_lt : (n : ℕ) (ms : List WorkspaceMember) → IsFresh n ms → All (λ m. m.id ≢ n) ms
All-ne_of_lt n [] h = tt
All-ne_of_lt n (m ∷ ms) h = (omega arith, All-ne_of_lt n ms h.1)

pub IsFresh-mono : (n k : ℕ) (ms : List WorkspaceMember) → IsFresh n ms → n ≤ k → IsFresh k ms
IsFresh-mono n k [] h le = tt
IsFresh-mono n k (m ∷ ms) h le = (omega arith, IsFresh-mono n k ms h.1 le)

module _ (mid : ℕ) where
  pub IsFresh-set :
      (n : ℕ) (r : WorkspaceRole) (ms : List WorkspaceMember)
      → IsFresh n ms
      → IsFresh n (set_role mid r ms)
  IsFresh-set n r [] h = tt
  IsFresh-set n r (m ∷ ms) h = (ground arith, IsFresh-set n r ms h.1)

  pub IsFresh-drop :
      (n : ℕ) (ms : List WorkspaceMember) → IsFresh n ms → IsFresh n (drop_member mid ms)
  IsFresh-drop n [] h = tt
  IsFresh-drop n (m ∷ ms) h = ground (arith, IsFresh-drop n ms)

  ne-set :
      (k : ℕ) (r : WorkspaceRole) (ms : List WorkspaceMember)
      → All (λ n. n.id ≢ k) ms
      → All (λ n. n.id ≢ k) (set_role mid r ms)
  ne-set k r [] h = tt
  ne-set k r (m ∷ ms) h = (ground arith, ne-set k r ms h.1)

  ne-drop :
      (k : ℕ) (ms : List WorkspaceMember)
      → All (λ n. n.id ≢ k) ms
      → All (λ n. n.id ≢ k) (drop_member mid ms)
  ne-drop k [] h = tt
  ne-drop k (m ∷ ms) h = ground (arith, ne-drop k ms)

  pub HasUniqueIds-set :
      (r : WorkspaceRole) (ms : List WorkspaceMember)
      → HasUniqueIds ms
      → HasUniqueIds (set_role mid r ms)
  HasUniqueIds-set r [] h = tt
  HasUniqueIds-set r (m ∷ ms) h =
      let same : m.id ≡ (if m.id == mid then record m { role = r } else m).id = ground arith in
      (
        subst (λ k. All (λ n. n.id ≢ k) (set_role mid r ms)) same (ne-set m.id r ms h.0),
        HasUniqueIds-set r ms h.1,
      )

  pub HasUniqueIds-drop :
      (ms : List WorkspaceMember) → HasUniqueIds ms → HasUniqueIds (drop_member mid ms)
  HasUniqueIds-drop [] h = tt
  HasUniqueIds-drop (m ∷ ms) h = ground (arith, HasUniqueIds-drop ms, ne-drop m.id ms)

-- What the handlers do to the members when they succeed.
upsert_user-members :
    (email : String) (db : Db)
    → ((upsert_user email db).1.workspace_members ≡ db.workspace_members)
      × (db.next_id ≤ (upsert_user email db).1.next_id)
unfolding upsert_user
upsert_user-members email db = ground arith

pub invite_inv :
    (db db' : Db) (caller : User) (id : ℕ) (email : String) (role : WorkspaceRole)
    → invite_member db caller id email role ≡ ok db'
    → (m : WorkspaceMember) × (db'.workspace_members ≡ m ∷ db.workspace_members)
      × (db'.next_id ≡ suc m.id)
      × (db.next_id ≤ m.id)
unfolding invite_member
invite_inv db db' caller id email role e =
    let (same, le) = upsert_user-members email db in
    let u = upsert_user email db in
    (
      record { id = u.1.next_id; workspace_id = id; user_id = u.0.id; role = role },
      ground arith,
      ground arith,
      le,
    )

pub update_inv :
    (db db' : Db) (caller : User) (id mid : ℕ) (role : WorkspaceRole)
    → update_member_role db caller id mid role ≡ ok db'
    → (m : WorkspaceMember) × (find_by_id id mid db.workspace_members ≡ some m)
      × ((is_owner m.role && not (is_owner role) && leb (owners id db.workspace_members) 1) ≡ false)
      × (db'.workspace_members ≡ set_role mid role db.workspace_members)
      × (db'.next_id ≡ db.next_id)
unfolding update_member_role
update_inv db db' caller id mid role e =
    elim (Option-cases (find_by_id id mid db.workspace_members)) [
      | inl n ↦ absurd (ground arith)
      | inr (m, f) ↦ (m, f, ground arith, ground arith, ground arith)
    ]

pub remove_inv :
    (db db' : Db) (caller : User) (id mid : ℕ)
    → remove_member db caller id mid ≡ ok db'
    → (m : WorkspaceMember) × (find_by_id id mid db.workspace_members ≡ some m)
      × ((is_owner m.role && leb (owners id db.workspace_members) 1) ≡ false)
      × (db'.workspace_members ≡ drop_member mid db.workspace_members)
      × (db'.next_id ≡ db.next_id)
unfolding remove_member
remove_inv db db' caller id mid e = elim (Option-cases (find_by_id id mid db.workspace_members)) [
  | inl n ↦ absurd (ground arith)
  | inr (m, f) ↦ (m, f, ground arith, ground arith, ground arith)
]
