-- ===== src/Tenancy/OrgOwner.antt =====
-- An organization keeps an owner (the guard of DELETE /organizations/:id/members/:mid).
use your_stack.Common.{
  ℕ, ◌+◌, ◌≤◌, ◌≡◌, ◌≢◌, refl, false, not, ◌&&◌, none, some, List, [], ◌∷◌, ◌==◌, leb,
  if◌then◌else◌, filter, All, ok, arith, Option-cases, inl, inr,
}
use your_stack.Tenancy.Db.{Db, User, OrgMember}
use your_stack.Tenancy.Teams.{is_org_owner, find_org_row, org_owners, remove_org_member}

-- No two rows have one id.
abbrev pub HasDistinctIds : List OrgMember → Type 0
HasDistinctIds [] = Unit
HasDistinctIds (m ∷ ms) = All (λ n. n.id ≢ m.id) ms × HasDistinctIds ms

abbrev without : ℕ → List OrgMember → List OrgMember
without mid ms = filter (λ m. not (m.id == mid)) ms

org_owners-other :
    (oid k mid : ℕ) (ms : List OrgMember)
    → All (λ n. n.id ≢ k) ms
    → k ≡ mid
    → org_owners oid (without mid ms) ≡ org_owners oid ms
org_owners-other oid k mid [] h e = refl
org_owners-other oid k mid (m ∷ ms) h e = ground (arith, org_owners-other oid k mid ms)

find_org_row-other :
    (id k mid : ℕ) (ms : List OrgMember)
    → All (λ n. n.id ≢ k) ms
    → k ≡ mid
    → find_org_row id mid ms ≡ none
find_org_row-other id k mid [] h e = refl
find_org_row-other id k mid (m ∷ ms) h e = ground (arith, find_org_row-other id k mid ms)

-- A row that is no owner, or one of several, leaves an owner behind.
org_owners-without :
    (id mid : ℕ) (ms : List OrgMember) (m : OrgMember)
    → HasDistinctIds ms
    → find_org_row id mid ms ≡ some m
    → org_owners id ms ≤ org_owners id (without mid ms) + (if is_org_owner m.role then 1 else 0)
org_owners-without id mid [] m u f = ground arith
org_owners-without id mid (n ∷ ms) m u f = ground (
  arith,
  org_owners-other id n.id mid ms u.0,
  find_org_row-other id n.id mid ms u.0,
  org_owners-without id mid ms m u.1,
)

All-without :
    (k mid : ℕ) (ms : List OrgMember)
    → All (λ n. n.id ≢ k) ms
    → All (λ n. n.id ≢ k) (without mid ms)
All-without k mid [] h = tt
All-without k mid (m ∷ ms) h = ground (arith, All-without k mid ms)

HasDistinctIds-without :
    (mid : ℕ) (ms : List OrgMember) → HasDistinctIds ms → HasDistinctIds (without mid ms)
HasDistinctIds-without mid [] u = tt
HasDistinctIds-without mid (m ∷ ms) u =
    ground (arith, HasDistinctIds-without mid ms, All-without m.id mid ms)

remove_org_inv :
    (db db' : Db) (caller : User) (id mid : ℕ)
    → remove_org_member db caller id mid ≡ ok db'
    → (m : OrgMember) × (find_org_row id mid db.org_members ≡ some m)
      × ((is_org_owner m.role && leb (org_owners id db.org_members) 1) ≡ false)
      × (db'.org_members ≡ without mid db.org_members)
unfolding remove_org_member
remove_org_inv db db' caller id mid e = elim (Option-cases (find_org_row id mid db.org_members)) [
  | inl n ↦ absurd (ground (arith, e, n))
  | inr (m, f) ↦ (m, f, ground (arith, e, f), ground (arith, e, f))
]

-- An organization whose members' rows have distinct ids and that has an owner still does, and still
-- has, after a member is removed by a request that succeeds.
pub remove_org_member-owners :
    (db db' : Db) (caller : User) (id mid : ℕ)
    → remove_org_member db caller id mid ≡ ok db'
    → HasDistinctIds db.org_members
    → 1 ≤ org_owners id db.org_members
    → HasDistinctIds db'.org_members × (1 ≤ org_owners id db'.org_members)
remove_org_member-owners db db' caller id mid e u owned =
    let (m, f, guard, same) = remove_org_inv db db' caller id mid e in
    (
      rw same (HasDistinctIds-without mid db.org_members u),
      rw same (ground (arith, guard, owned, org_owners-without id mid db.org_members m u f)),
    )
