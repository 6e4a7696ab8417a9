-- ===== src/Nodes/Delivery.antt =====
-- What a poll for commands hands over (`claimCommands`).
use your_stack.Common.{
  ℕ, zero, suc, ◌≤◌, ◌≡◌, sym, ◌∙◌, subst, ap, ◌↔◌, Bool, true, false, List, [], ◌∷◌, ◌==◌, ◌&&◌,
  any, length, IsIn, IsIn-filter, All, arith, Bool-cases, inl, inr, ◌⊎◌, ==_iff,
}
use your_stack.Deploy.{NodeCommand}
use your_stack.Nodes.Claim.{
  is_queued, insert_command, sort_commands, take, queued_for, accept, accept_all, chosen_commands,
  claim_commands,
}

-- Every command is issued no earlier than the ones before it.
abbrev pub IsInOrder : List NodeCommand → Type 0
IsInOrder [] = Unit
IsInOrder (c ∷ cs) = All (λ d. c.issued_at ≤ d.issued_at) cs × IsInOrder cs

All-IsIn :
    (t : ℕ) (cs : List NodeCommand) (d : NodeCommand)
    → All (λ c. t ≤ c.issued_at) cs
    → IsIn d cs
    → t ≤ d.issued_at
All-IsIn t [] d h i = ground arith
All-IsIn t (c ∷ cs) d h (inl e) = subst (λ x. t ≤ x.issued_at) e h.0
All-IsIn t (c ∷ cs) d h (inr i) = All-IsIn t cs d h.1 i

All-weaken :
    (t u : ℕ) (cs : List NodeCommand)
    → t ≤ u
    → All (λ c. u ≤ c.issued_at) cs
    → All (λ c. t ≤ c.issued_at) cs
All-weaken t u [] le h = tt
All-weaken t u (c ∷ cs) le h = (omega (arith, h.0), All-weaken t u cs le h.1)

insert_command-bound :
    (t : ℕ) (c : NodeCommand) (ds : List NodeCommand)
    → t ≤ c.issued_at
    → All (λ d. t ≤ d.issued_at) ds
    → All (λ d. t ≤ d.issued_at) (insert_command c ds)
unfolding insert_command
insert_command-bound t c [] le h = (le, tt)
insert_command-bound t c (d ∷ ds) le h = ground (arith, insert_command-bound t c ds le)

insert_command-IsInOrder :
    (c : NodeCommand) (ds : List NodeCommand) → IsInOrder ds → IsInOrder (insert_command c ds)
unfolding insert_command
insert_command-IsInOrder c [] h = (tt, tt)
insert_command-IsInOrder c (d ∷ ds) h = ground (
  arith,
  insert_command-IsInOrder c ds,
  insert_command-bound d.issued_at c ds,
  All-weaken c.issued_at d.issued_at ds,
)

sort_commands-IsInOrder : (cs : List NodeCommand) → IsInOrder (sort_commands cs)
unfolding sort_commands
sort_commands-IsInOrder [] = tt
sort_commands-IsInOrder (c ∷ cs) =
    insert_command-IsInOrder c (sort_commands cs) (sort_commands-IsInOrder cs)

insert_command-IsIn :
    (a c : NodeCommand) (ds : List NodeCommand)
    → IsIn a (insert_command c ds) ↔ ((c ≡ a) ⊎ IsIn a ds)
unfolding insert_command
insert_command-IsIn a c [] = ground arith
insert_command-IsIn a c (d ∷ ds) = ground (arith, insert_command-IsIn a c ds)

sort_commands-IsIn :
    (a : NodeCommand) (cs : List NodeCommand) → IsIn a (sort_commands cs) ↔ IsIn a cs
unfolding sort_commands
sort_commands-IsIn a [] = ground arith
sort_commands-IsIn a (c ∷ cs) =
    ground (arith, insert_command-IsIn a c (sort_commands cs), sort_commands-IsIn a cs)

length-take : (n : ℕ) (cs : List NodeCommand) → length (take n cs) ≤ n
unfolding take
length-take zero cs = omega arith
length-take (suc n) [] = omega arith
length-take (suc n) (c ∷ cs) = omega (arith, length-take n cs)

take-IsIn : (n : ℕ) (a : NodeCommand) (cs : List NodeCommand) → IsIn a (take n cs) → IsIn a cs
unfolding take
take-IsIn zero a cs h = ground arith
take-IsIn (suc n) a [] h = h
take-IsIn (suc n) a (c ∷ cs) h = ground (arith, take-IsIn n a cs)

-- A command that is not taken comes after all that are.
take-rest :
    (n : ℕ) (d : NodeCommand) (cs : List NodeCommand)
    → IsInOrder cs
    → IsIn d cs
    → IsIn d (take n cs) ⊎ All (λ c. c.issued_at ≤ d.issued_at) (take n cs)
unfolding take
take-rest zero d cs h i = inr tt
take-rest (suc n) d [] h i = ground arith
take-rest (suc n) d (c ∷ cs) h (inl e) = inl (inl e)
take-rest (suc n) d (c ∷ cs) h (inr i) = elim (take-rest n d cs h.1 i) [
  | inl t ↦ inl (inr t)
  | inr l ↦ inr (All-IsIn c.issued_at cs d h.0 i, l)
]

any-IsIn : (d : NodeCommand) (cs : List NodeCommand) → IsIn d cs → any (λ c. c.id == d.id) cs ≡ true
any-IsIn d [] i = ground arith
any-IsIn d (c ∷ cs) i =
    ground (arith, any-IsIn d cs, ==_iff c.id d.id, ap (λ x. x.id) {x = c} {y = d})

-- A command of the queue is as it was unless it is among those accepted.
accept_all-IsIn :
    (now : ℕ) (chosen : List NodeCommand) (d : NodeCommand) (cs : List NodeCommand)
    → is_queued d.status ≡ true
    → IsIn d (accept_all now chosen cs) ↔ (IsIn d cs × (any (λ c. c.id == d.id) chosen ≡ false))
unfolding accept_all accept is_queued
accept_all-IsIn now chosen d [] q = ground arith
accept_all-IsIn now chosen d (c ∷ cs) q = ground (
  arith,
  accept_all-IsIn now chosen d cs q,
  Bool-cases (any (λ e. e.id == c.id) chosen),
  ap (λ x. any (λ e. e.id == x.id) chosen) {x = c} {y = d},
  ap (λ x. x.status) {x = c} {y = d},
  ap (λ x. x.status) {x = accept now c} {y = d},
)

-- What stays queued was not handed over, and comes after what was.
stays :
    (node now : ℕ) (cs : List NodeCommand) (d : NodeCommand)
    → IsIn d (accept_all now (chosen_commands node cs) cs)
      × ((d.node_id == node && is_queued d.status) ≡ true)
    → IsIn d (queued_for node cs)
      × (any (λ c. c.id == d.id) (chosen_commands node cs) ≡ false)
      × All (λ c. c.issued_at ≤ d.issued_at) (chosen_commands node cs)
unfolding chosen_commands queued_for
stays node now cs d (i, q) =
    let queue = queued_for node cs in
    let chosen = chosen_commands node cs in
    let kept = (accept_all-IsIn now chosen d cs (ground (arith, q))).0 i in
    let queued = (IsIn-filter (λ c. c.node_id == node && is_queued c.status) d cs).1 (kept.0, q) in
    (
      queued,
      kept.1,
      elim (take-rest 10 d (sort_commands queue) (sort_commands-IsInOrder queue)
          ((sort_commands-IsIn d queue).1 queued)) [
            | inl t ↦ absurd (cc (sym (any-IsIn d chosen t) ∙ kept.1))
            | inr l ↦ l
          ],
    )

leaves :
    (node now : ℕ) (cs : List NodeCommand) (d : NodeCommand)
    → IsIn d cs × ((d.node_id == node && is_queued d.status) ≡ true)
    → (any (λ c. c.id == d.id) (chosen_commands node cs) ≡ true)
      ⊎ IsIn d (queued_for node (accept_all now (chosen_commands node cs) cs))
unfolding queued_for
leaves node now cs d (i, q) =
    let chosen = chosen_commands node cs in
    elim (Bool-cases (any (λ c. c.id == d.id) chosen)) [
      | inl e ↦ inl e
      | inr e ↦ inr (
          (IsIn-filter (λ c. c.node_id == node && is_queued c.status) d
              (accept_all now chosen cs)).1
            ((accept_all-IsIn now chosen d cs (ground (arith, q))).1 (i, e), q))
    ]

take-All :
    (t n : ℕ) (cs : List NodeCommand)
    → All (λ c. t ≤ c.issued_at) cs
    → All (λ c. t ≤ c.issued_at) (take n cs)
unfolding take
take-All t zero cs h = tt
take-All t (suc n) [] h = tt
take-All t (suc n) (c ∷ cs) h = (h.0, take-All t n cs h.1)

take-IsInOrder : (n : ℕ) (cs : List NodeCommand) → IsInOrder cs → IsInOrder (take n cs)
unfolding take
take-IsInOrder zero cs h = tt
take-IsInOrder (suc n) [] h = tt
take-IsInOrder (suc n) (c ∷ cs) h = (take-All c.issued_at n cs h.0, take-IsInOrder n cs h.1)

-- A poll hands over at most ten commands in the order in which they were issued, each of them queued
-- for the node. A command that stays queued was queued before, is none of those handed over, and was issued no earlier than any of
-- them. A command that was queued is handed over or stays queued.
pub claim_commands-delivers :
    (node now : ℕ) (cs : List NodeCommand)
    → (length (claim_commands node now cs).0 ≤ 10)
      × IsInOrder (claim_commands node now cs).0
      × ((c : NodeCommand) → IsIn c (claim_commands node now cs).0 → IsIn c (queued_for node cs))
      × ((d : NodeCommand)
          → IsIn d (queued_for node (claim_commands node now cs).1)
          → IsIn d (queued_for node cs)
            × (any (λ c. c.id == d.id) (claim_commands node now cs).0 ≡ false)
            × All (λ c. c.issued_at ≤ d.issued_at) (claim_commands node now cs).0)
      × ((d : NodeCommand)
          → IsIn d (queued_for node cs)
          → (any (λ c. c.id == d.id) (claim_commands node now cs).0 ≡ true)
            ⊎ IsIn d (queued_for node (claim_commands node now cs).1))
unfolding claim_commands chosen_commands queued_for
claim_commands-delivers node now cs =
    let queue = queued_for node cs in
    let chosen = chosen_commands node cs in
    let p : NodeCommand → Bool = λ c. c.node_id == node && is_queued c.status in
    (
      length-take 10 (sort_commands queue),
      take-IsInOrder 10 (sort_commands queue) (sort_commands-IsInOrder queue),
      λ c i. (sort_commands-IsIn c queue).0 (take-IsIn 10 c (sort_commands queue) i),
      λ d i. stays node now cs d ((IsIn-filter p d (accept_all now chosen cs)).0 i),
      λ d i. leaves node now cs d ((IsIn-filter p d cs).0 i),
    )
