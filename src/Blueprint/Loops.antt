-- ===== src/Blueprint/Loops.antt =====
-- The loops of the apply handler: rows are only added, and a loop that ends without an error has done
-- what the plan says.
use your_stack.Common.{
  ℕ, ◌≡◌, refl, sym, ap, subst, ◌∙◌, true, none, some, List, [], ◌∷◌, ◌++◌, map, any, any-append,
  find, filter, All, Bool-cases, Option-cases, inl, inr, arith,
}
use mathlib.Core.List.{append_assoc, append-nil}
use your_stack.Common.Text.{Text}
use your_stack.Blueprint.Schema.{ResourceKind, BlueprintPlanItem, PlanAction}
use your_stack.Blueprint.Plan.{is_create, action_for, has_name, plan_section}
use your_stack.Blueprint.Store.{Run, Thrown}
use your_stack.Blueprint.Apply.{is_item, round, round_unless_thrown, each}
use your_stack.Blueprint.Contract.{HasRow, Grows, Steps, is_named}

pub Grows-refl : (r : Run) → Grows r r
Grows-refl r = (([], refl), refl)

pub Grows-trans : (a b c : Run) → Grows a b → Grows b c → Grows a c
Grows-trans a b c ((x, ab), p) ((y, bc), q) =
    ((y ++ x, bc ∙ (ap (λ t. y ++ t) ab ∙ sym (append_assoc y x a.store.rows))), q ∙ p)

pub HasRow-Grows :
    (kind : ResourceKind) (owner : ℕ) (name : Text) (r r' : Run)
    → Grows r r'
    → HasRow kind owner name r
    → HasRow kind owner name r'
HasRow-Grows kind owner name r r' ((new, e), p) h =
    rw (e, any-append (is_named kind owner name) new r.store.rows) (ground (arith, h))

-- The items of a plan that are to be created.
abbrev pub new_items : List BlueprintPlanItem → List BlueprintPlanItem
new_items plan = filter (λ p. is_create p.action) plan

new_items-cons :
    (i : BlueprintPlanItem) (plan : List BlueprintPlanItem)
    → new_items (i ∷ plan) ≡ new_items (i ∷ []) ++ new_items plan
new_items-cons i plan = elim (Bool-cases (is_create i.action)) [
  | inl t ↦ rw t refl
  | inr t ↦ rw t refl
]

module _ {A : Type 0} (plan : List BlueprintPlanItem) (kind : ResourceKind) (name_of : A → Text)
    (create : BlueprintPlanItem → A → Run → Run) (keep : A → Run → Run) where
  abbrev pub planned : List Text → A → BlueprintPlanItem
  planned have x = record { kind = kind; name = name_of x; action = action_for have (name_of x) }

  abbrev pub IsPlanned : List Text → A → Type 0
  IsPlanned have x = find (is_item kind (name_of x)) plan ≡ some (planned have x)

  round-Grows :
      (x : A) (run : Run)
      → ((item : BlueprintPlanItem) → Grows run (create item x run))
      → Grows run (keep x run)
      → Grows run (round plan kind name_of create keep x run)
  unfolding round
  round-Grows x run c k = elim (Option-cases (find (is_item kind (name_of x)) plan)) [
    | inl e ↦ rw (round, e) (Grows-refl run)
    | inr (item, e) ↦ elim (Bool-cases (is_create item.action)) [
      | inl t ↦ rw (round, e, t) (c item)
      | inr t ↦ rw (round, e, t) k
    ]
  ]

  round_unless_thrown-Grows :
      (x : A) (run : Run)
      → ((item : BlueprintPlanItem) → Grows run (create item x run))
      → Grows run (keep x run)
      → Grows run (round_unless_thrown plan kind name_of create keep x run)
  unfolding round_unless_thrown
  round_unless_thrown-Grows x run c k = elim (Option-cases run.thrown) [
    | inl e ↦ rw (round_unless_thrown, e) (round-Grows x run c k)
    | inr (t, e) ↦ rw (round_unless_thrown, e) (Grows-refl run)
  ]

  pub each-Grows :
      (xs : List A) (run : Run)
      → ((x : A) (r : Run) (item : BlueprintPlanItem) → Grows r (create item x r))
      → ((x : A) (r : Run) → Grows r (keep x r))
      → Grows run (each plan kind name_of create keep xs run)
  unfolding each
  each-Grows [] run c k = Grows-refl run
  each-Grows (x ∷ xs) run c k =
      let next = round_unless_thrown plan kind name_of create keep x run in
      Grows-trans run next (each plan kind name_of create keep xs next)
        (round_unless_thrown-Grows x run (c x run) (k x run)) (each-Grows xs next c k)

  -- Once something is thrown, the loop does nothing more.
  each-thrown :
      (xs : List A) (run : Run) (t : Thrown)
      → run.thrown ≡ some t
      → each plan kind name_of create keep xs run ≡ run
  unfolding each round_unless_thrown
  each-thrown [] run t e = refl
  each-thrown (x ∷ xs) run t e =
      let same : round_unless_thrown plan kind name_of create keep x run ≡ run = rw e refl in
      rw same (each-thrown xs run t e)

  unless_thrown :
      (x : A) (run : Run)
      → run.thrown ≡ none
      → round_unless_thrown plan kind name_of create keep x run
        ≡ round plan kind name_of create keep x run
  unfolding round_unless_thrown
  unless_thrown x run e =
      ap {B = Run} (λ o. elim o [ none ↦ round plan kind name_of create keep x run | some t ↦ run ])
        e

  pub not_thrown :
      (xs : List A) (run : Run)
      → (each plan kind name_of create keep xs run).thrown ≡ none
      → run.thrown ≡ none
  not_thrown xs run e = elim (Option-cases run.thrown) [
    | inl n ↦ n
    | inr (t, h) ↦ absurd (cc (each-thrown xs run t h, h, e))
  ]

module _ {A : Type 0} (plan : List BlueprintPlanItem) (kind : ResourceKind) (name_of : A → Text)
    (create : BlueprintPlanItem → A → Run → Run) (keep : A → Run → Run) (owner : ℕ)
    (have : List Text) (r₀ : Run) where
  -- What a round needs to know of its resource: how the plan has it, and what its creation does.
  abbrev pub Ready : A → Type 0
  Ready x =
      IsPlanned plan kind name_of create keep have x
      × ((item : BlueprintPlanItem) (run : Run)
          → Steps kind owner (name_of x) item run (create item x run))

  -- What a loop has done.
  abbrev pub Done : List A → Run → Run → Type 0
  Done xs run run' =
      All (λ x. HasRow kind owner (name_of x) run') xs
      × (run'.applied ≡ run.applied ++ new_items (plan_section kind (map name_of xs) have))

  -- A resource that is planned as there has a row from the start.
  abbrev pub IsPresent : Type 0
  IsPresent = (x : A) → has_name have (name_of x) ≡ true → HasRow kind owner (name_of x) r₀

  -- The other branch changes neither the tables nor what was applied.
  abbrev pub Keeps : Type 0
  Keeps =
      (x : A) (run : Run) → ((keep x run).store ≡ run.store) × ((keep x run).applied ≡ run.applied)

  round_Done :
      (x : A) (run : Run)
      → Ready x
      → IsPresent
      → Keeps
      → Grows r₀ run
      → (round plan kind name_of create keep x run).thrown ≡ none
      → HasRow kind owner (name_of x) (round plan kind name_of create keep x run)
        × ((round plan kind name_of create keep x run).applied
            ≡ run.applied ++ new_items (plan_section kind (name_of x ∷ []) have))
  unfolding round plan_section
  round_Done x run (p, s) present keeps g e = elim (Bool-cases (has_name have (name_of x))) [
    | inl t ↦
        let same : round plan kind name_of create keep x run ≡ keep x run = rw (round, p, t) refl in
        let row = HasRow-Grows kind owner (name_of x) r₀ run g (present x t) in
        rw (same, t)
          (
            subst (λ st. any (is_named kind owner (name_of x)) st.rows ≡ true) (sym (keeps x run).0)
                row,
            (keeps x run).1 ∙ sym (append-nil run.applied),
          )
    | inr t ↦
        let item : BlueprintPlanItem = record {
          kind = kind;
          name = name_of x;
          action = PlanAction.create;
        } in
        let same : round plan kind name_of create keep x run ≡ create item x run =
          rw (round, p, t) refl in
        let made = (s item run).1 (ap (λ r. r.thrown) (sym same) ∙ e) in rw (same, t) made
  ]

  -- Every creation only adds rows.
  abbrev pub Grow : Type 0
  Grow = (x : A) (run : Run) (item : BlueprintPlanItem) → Grows run (create item x run)

  pub Keeps-Grows : Keeps → (x : A) (run : Run) → Grows run (keep x run)
  Keeps-Grows keeps x run =
      (([], ap (λ s. s.rows) (keeps x run).0), ap (λ s. s.projects) (keeps x run).0)

  pub each-Done :
      (xs : List A) (run : Run)
      → All Ready xs
      → IsPresent
      → Keeps
      → Grow
      → Grows r₀ run
      → (each plan kind name_of create keep xs run).thrown ≡ none
      → Done xs run (each plan kind name_of create keep xs run)
  unfolding each plan_section
  each-Done [] run ready present keeps grow g e = (tt, sym (append-nil run.applied))
  each-Done (x ∷ xs) run ready present keeps grow g e =
      let next = round_unless_thrown plan kind name_of create keep x run in
      let final = each plan kind name_of create keep xs next in
      let grown =
        round_unless_thrown-Grows plan kind name_of create keep x run (grow x run)
          (Keeps-Grows keeps x run) in
      let ended : next.thrown ≡ none = not_thrown plan kind name_of create keep xs next e in
      let began : run.thrown ≡ none = not_thrown plan kind name_of create keep (x ∷ []) run ended in
      let same : next ≡ round plan kind name_of create keep x run =
        unless_thrown plan kind name_of create keep x run began in
      let one = round_Done x run ready.0 present keeps g (ap (λ r. r.thrown) (sym same) ∙ ended) in
      let rest = each-Done xs next ready.1 present keeps grow (Grows-trans r₀ run next g grown) e in
      let row : HasRow kind owner (name_of x) next =
        subst (HasRow kind owner (name_of x)) (sym same) one.0 in
      (
        (
          HasRow-Grows kind owner (name_of x) next final
              (each-Grows plan kind name_of create keep xs next grow (Keeps-Grows keeps)) row,
          rest.0,
        ),
        rest.1
            ∙ (ap (λ r. r.applied ++ new_items (plan_section kind (map name_of xs) have)) same
                ∙ (ap (λ a. a ++ new_items (plan_section kind (map name_of xs) have)) one.1
                    ∙ (append_assoc run.applied
                          (new_items (plan_section kind (name_of x ∷ []) have))
                          (new_items (plan_section kind (map name_of xs) have))
                        ∙ ap (λ n. run.applied ++ n)
                            (sym (
                              new_items-cons (planned plan kind name_of create keep have x)
                                (plan_section kind (map name_of xs) have)))))),
      )
