-- ===== src/Scaling/Reconcile.antt =====
-- How many runners of a pool are live after a job.
use your_stack.Common.{
  ℕ, zero, suc, ◌+◌, ◌-◌, ◌<◌, ◌≡◌, ◌≢◌, refl, ◌∙◌, ap, subst, Bool, true, false, Option, some,
  List, [], ◌∷◌, ◌++◌, ◌==◌, ==_self, find, filter, length, ltb, ltb→lt, inl, inr, All, IsIn,
  IsIn-filter, arith, Bool-cases,
}
use your_stack.Common.Text.{Text}
use your_stack.Nodes.{pick_online_node}
use your_stack.Scaling.Runners.{
  Runner, offline, RunnerPool, RunnerStore, is_live, desired_runners, slice, mark_offline,
  deregister_command, add_runners, add_runner, has_node, remove_runners, process_runner,
}

-- No two rows have one id.
abbrev pub IsUnique : List Runner → Type 0
IsUnique [] = Unit
IsUnique (r ∷ rs) = All (λ q. q.id ≢ r.id) rs × IsUnique rs

abbrev pub live_count : ℕ → List Runner → ℕ
live_count pool_id rs = length (filter (is_live pool_id) rs)

abbrev AllOthers : ℕ → List Runner → Type 0
AllOthers id = All (λ q. q.id ≢ id)

mark_offline-other : (id : ℕ) (rs : List Runner) → AllOthers id rs → mark_offline id rs ≡ rs
mark_offline-other id [] h = refl
mark_offline-other id (r ∷ rs) h = ground (arith, h.0, mark_offline-other id rs h.1)

mark_offline-AllOthers :
    (id other : ℕ) (rs : List Runner) → AllOthers other rs → AllOthers other (mark_offline id rs)
mark_offline-AllOthers id other [] h = tt
mark_offline-AllOthers id other (r ∷ rs) h = elim (Bool-cases (r.id == id)) [
  | inl e ↦ rw e (h.0, mark_offline-AllOthers id other rs h.1)
  | inr e ↦ rw e (h.0, mark_offline-AllOthers id other rs h.1)
]

mark_offline-IsUnique : (id : ℕ) (rs : List Runner) → IsUnique rs → IsUnique (mark_offline id rs)
mark_offline-IsUnique id [] h = tt
mark_offline-IsUnique id (r ∷ rs) h = elim (Bool-cases (r.id == id)) [
  | inl e ↦ rw e (mark_offline-AllOthers id r.id rs h.0, mark_offline-IsUnique id rs h.1)
  | inr e ↦ rw e (mark_offline-AllOthers id r.id rs h.0, mark_offline-IsUnique id rs h.1)
]

mark_offline-IsIn :
    (id : ℕ) (q : Runner) (rs : List Runner) → q.id ≢ id → IsIn q rs → IsIn q (mark_offline id rs)
mark_offline-IsIn id q [] ne h = h
mark_offline-IsIn id q (r ∷ rs) ne h =
    ground (arith, ne, h, ap (λ x. x.id) {x = r} {y = q}, mark_offline-IsIn id q rs ne)

AllOthers-IsIn : (id : ℕ) (q : Runner) (rs : List Runner) → AllOthers id rs → IsIn q rs → q.id ≢ id
AllOthers-IsIn id q [] h k = elim k [ ]
AllOthers-IsIn id q (r ∷ rs) h k = elim k [
  | inl e ↦ subst (λ x. x.id ≢ id) e h.0
  | inr i ↦ AllOthers-IsIn id q rs h.1 i
]

is_live-offline :
    (pool_id : ℕ) (r : Runner) → is_live pool_id (record r { status = offline }) ≡ false
is_live-offline pool_id r = ground arith

live_count-first :
    (pool_id : ℕ) (r : Runner) (rs : List Runner)
    → AllOthers r.id rs
    → is_live pool_id r ≡ true
    → suc (live_count pool_id (mark_offline r.id (r ∷ rs))) ≡ live_count pool_id (r ∷ rs)
live_count-first pool_id r rs u h =
    rw (==_self r.id, is_live-offline pool_id r, mark_offline-other r.id rs u, h) refl

live_count-mark_offline :
    (pool_id : ℕ) (q : Runner) (rs : List Runner)
    → IsUnique rs
    → IsIn q rs
    → is_live pool_id q ≡ true
    → suc (live_count pool_id (mark_offline q.id rs)) ≡ live_count pool_id rs
live_count-mark_offline pool_id q [] u i h = elim i [ ]
live_count-mark_offline pool_id q (r ∷ rs) u i h = elim i [
  | inl e ↦
      subst
        (λ x.
          is_live pool_id x ≡ true
          → suc (live_count pool_id (mark_offline x.id (r ∷ rs))) ≡ live_count pool_id (r ∷ rs))
        e (live_count-first pool_id r rs u.0) h
  | inr j ↦
      let ne = AllOthers-IsIn r.id q rs u.0 j in
      let e : (r.id == q.id) ≡ false = ground (arith, ne) in
      ground (arith, e, live_count-mark_offline pool_id q rs u.1 j h)
]

slice-AllOthers : (id n : ℕ) (rs : List Runner) → AllOthers id rs → AllOthers id (slice n rs)
unfolding slice
slice-AllOthers id zero rs h = h
slice-AllOthers id (suc n) [] h = tt
slice-AllOthers id (suc n) (r ∷ rs) h = slice-AllOthers id n rs h.1

slice-IsUnique : (n : ℕ) (rs : List Runner) → IsUnique rs → IsUnique (slice n rs)
unfolding slice
slice-IsUnique zero rs h = h
slice-IsUnique (suc n) [] h = tt
slice-IsUnique (suc n) (r ∷ rs) h = slice-IsUnique n rs h.1

slice-All : (P : Runner → Type 0) (n : ℕ) (rs : List Runner) → All P rs → All P (slice n rs)
unfolding slice
slice-All P zero rs h = h
slice-All P (suc n) [] h = tt
slice-All P (suc n) (r ∷ rs) h = slice-All P n rs h.1

length-slice : (n : ℕ) (rs : List Runner) → n < length rs → n + length (slice n rs) ≡ length rs
unfolding slice
length-slice zero rs h = omega arith
length-slice (suc n) [] h = omega (arith, h)
length-slice (suc n) (r ∷ rs) h = omega (arith, length-slice n rs (omega (arith, h)), h)

filter-AllOthers :
    (id : ℕ) (p : Runner → Bool) (rs : List Runner) → AllOthers id rs → AllOthers id (filter p rs)
filter-AllOthers id p [] h = tt
filter-AllOthers id p (r ∷ rs) h = elim (Bool-cases (p r)) [
  | inl e ↦ rw e (h.0, filter-AllOthers id p rs h.1)
  | inr e ↦ rw e (filter-AllOthers id p rs h.1)
]

filter-IsUnique : (p : Runner → Bool) (rs : List Runner) → IsUnique rs → IsUnique (filter p rs)
filter-IsUnique p [] h = tt
filter-IsUnique p (r ∷ rs) h = elim (Bool-cases (p r)) [
  | inl e ↦ rw e (filter-AllOthers r.id p rs h.0, filter-IsUnique p rs h.1)
  | inr e ↦ rw e (filter-IsUnique p rs h.1)
]

All-IsIn : (P : Runner → Type 0) (rs : List Runner) → ((r : Runner) → IsIn r rs → P r) → All P rs
All-IsIn P [] h = tt
All-IsIn P (r ∷ rs) h = (h r (inl refl), All-IsIn P rs (λ q i. h q (inr i)))

IsIn-All : (P : Runner → Type 0) (r : Runner) (rs : List Runner) → All P rs → IsIn r rs → P r
IsIn-All P r [] h i = elim i [ ]
IsIn-All P r (q ∷ rs) h i = elim i [ inl e ↦ subst P e h.0 | inr j ↦ IsIn-All P r rs h.1 j ]

module _ (text_of : ℕ → Text) (pool_id : ℕ) where
  -- A row of the table that is live and whose node exists.
  abbrev Removable : RunnerStore → Runner → Type 0
  Removable s r = IsIn r s.runners × (is_live pool_id r ≡ true) × (has_node s.nodes r ≡ true)

  still_Removable :
      (r : Runner) (s : RunnerStore) (rs : List Runner)
      → AllOthers r.id rs
      → All (Removable s) rs
      → All
          (Removable (record s {
            commands = deregister_command text_of r ++ s.commands;
            runners = mark_offline r.id s.runners;
          }))
          rs
  still_Removable r s [] u h = tt
  still_Removable r s (q ∷ rs) u h =
      ((mark_offline-IsIn r.id q s.runners u.0 h.0.0, h.0.1, h.0.2), still_Removable r s rs u.1 h.1)

  live_count-remove_runners :
      (rs : List Runner) (s : RunnerStore)
      → IsUnique s.runners
      → IsUnique rs
      → All (Removable s) rs
      → live_count pool_id (remove_runners text_of rs s).runners + length rs
        ≡ live_count pool_id s.runners
  unfolding remove_runners
  live_count-remove_runners [] s u v h = omega arith
  live_count-remove_runners (r ∷ rs) s u v h =
      let s1 : RunnerStore = record s {
        commands = deregister_command text_of r ++ s.commands;
        runners = mark_offline r.id s.runners;
      } in
      let one = live_count-mark_offline pool_id r s.runners u h.0.0 h.0.1 in
      let rest =
        live_count-remove_runners rs s1 (mark_offline-IsUnique r.id s.runners u) v.1
          (still_Removable r s rs v.0 h.1) in
      rw h.0.2 (omega (arith, one, rest))

  one_more :
      (pool : RunnerPool) (node_id : ℕ) (s : RunnerStore)
      → pool.id ≡ pool_id
      → live_count pool_id (add_runner text_of pool node_id s).runners
        ≡ suc (live_count pool_id s.runners)
  unfolding add_runner
  one_more pool node_id s e = rw (e, ==_self pool_id) refl

  live_count-add_runners :
      (n node_id : ℕ) (pool : RunnerPool) (s : RunnerStore)
      → pool.id ≡ pool_id
      → pick_online_node pool.workspace_id s.nodes ≡ some node_id
      → live_count pool_id (add_runners text_of n pool s).runners ≡ n + live_count pool_id s.runners
  unfolding add_runners add_runner
  live_count-add_runners zero node_id pool s e h = omega arith
  live_count-add_runners (suc n) node_id pool s e h =
      rw (h, add_runners)
        (live_count-add_runners n node_id pool (add_runner text_of pool node_id s) e h
          ∙ rw (one_more pool node_id s e) (omega arith))

-- After the job a pool has as many live runners as are wanted: the number asked for, or its minimum
-- without one, but at most its maximum. A node of the workspace is online, no two runners have one id,
-- and the node of each runner exists.
pub process_runner-reaches :
    (text_of : ℕ → Text) (pool_id : ℕ) (desired : Option ℕ) (s : RunnerStore) (pool : RunnerPool)
    (node_id : ℕ)
    → find (λ p. p.id == pool_id) s.pools ≡ some pool
    → pick_online_node pool.workspace_id s.nodes ≡ some node_id
    → IsUnique s.runners
    → All (λ r. has_node s.nodes r ≡ true) s.runners
    → live_count pool.id (process_runner text_of pool_id desired s).runners
      ≡ desired_runners desired pool
unfolding process_runner
process_runner-reaches text_of pool_id desired s pool node_id found online u nodes =
    let wanted = desired_runners desired pool in
    let live = filter (is_live pool.id) s.runners in
    let removable : All (Removable text_of pool.id s) live =
      All-IsIn (Removable text_of pool.id s) live (λ r i.
        let (stands, is) = (IsIn-filter (is_live pool.id) r s.runners).0 i in
        (stands, is, IsIn-All (λ q. has_node s.nodes q ≡ true) r s.runners nodes stands)) in
    rw (found, process_runner)
      (elim (Bool-cases (ltb (length live) wanted)) [
        | inl e ↦ rw e (
            live_count-add_runners text_of pool.id (wanted - length live) node_id pool s refl online
            ∙ ground (arith, e))
        | inr e ↦ elim (Bool-cases (ltb wanted (length live))) [
          | inl k ↦
              rw (e, k)
                (let counted =
                    live_count-remove_runners text_of pool.id (slice wanted live) s u
                      (slice-IsUnique wanted live (filter-IsUnique (is_live pool.id) s.runners u))
                      (slice-All (Removable text_of pool.id s) wanted live removable) in
                  omega (arith, counted, length-slice wanted live (ltb→lt wanted (length live) k)))
          | inr k ↦ rw (e, k) ground (arith, e, k)
        ]
      ])
