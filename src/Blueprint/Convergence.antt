-- ===== src/Blueprint/Convergence.antt =====
-- After an application that succeeds, the plan of the same blueprint creates nothing.
use your_stack.Common.{
  ℕ, ◌≡◌, refl, sym, ap, ◌∙◌, true, none, List, [], ◌∷◌, ◌++◌, All, Bool-cases, inl, inr,
}
use mathlib.Core.List.{append_assoc}
use your_stack.Common.Text.{Text}
use your_stack.Blueprint.Schema.{
  Blueprint, ResourceKind, app, database, bucket, function, cron, firewall, load_balancer,
  BlueprintPlanItem,
}
use your_stack.Blueprint.Names.{Platform}
use your_stack.Blueprint.Plan.{ExistingResources, plan_section, compute_blueprint_plan, is_create}
use your_stack.Blueprint.Store.{Run}
use your_stack.Blueprint.Apply.{
  apply_apps, apply_databases, apply_buckets, apply_functions, apply_cron, apply_firewalls,
  apply_load_balancers, apply_sections, no_keep,
}
use your_stack.Blueprint.Create.{
  create_database, create_bucket, create_function, create_cron, create_firewall,
  create_load_balancer,
}
use your_stack.Blueprint.Contract.{HasRow, Grows}
use your_stack.Blueprint.Loops.{new_items, Grows-refl, Grows-trans, HasRow-Grows, not_thrown}
use your_stack.Blueprint.Planned.{declared, existing_of}
use your_stack.Blueprint.Balancing.{has_target}
use your_stack.Blueprint.Sections.{
  owner_of, IsCurrent, apply_apps-IsApplied, apply_databases-IsApplied, apply_buckets-IsApplied,
  apply_functions-IsApplied, apply_cron-IsApplied, apply_firewalls-IsApplied,
  apply_load_balancers-IsApplied,
}
use your_stack.Blueprint.Additive.{
  apply_apps-Grows, apply_databases-Grows, apply_buckets-Grows, apply_functions-Grows,
  apply_cron-Grows, apply_firewalls-Grows, apply_load_balancers-Grows,
}

new_items-append :
    (xs ys : List BlueprintPlanItem) → new_items (xs ++ ys) ≡ new_items xs ++ new_items ys
new_items-append [] ys = refl
new_items-append (i ∷ xs) ys = elim (Bool-cases (is_create i.action)) [
  | inl t ↦ rw (t, new_items-append xs ys) refl
  | inr t ↦ rw (t, new_items-append xs ys) refl
]

All-HasRow :
    (kind : ResourceKind) (owner : ℕ) (names : List Text) (r r' : Run)
    → Grows r r'
    → All (λ n. HasRow kind owner n r) names
    → All (λ n. HasRow kind owner n r') names
All-HasRow kind owner [] r r' g h = tt
All-HasRow kind owner (n ∷ names) r r' g h =
    (HasRow-Grows kind owner n r r' g h.0, All-HasRow kind owner names r r' g h.1)

-- What is recorded by a loop and then by those after it.
then_applied :
    (a b c : Run) (p q : List BlueprintPlanItem)
    → b.applied ≡ a.applied ++ new_items p
    → c.applied ≡ b.applied ++ new_items q
    → c.applied ≡ a.applied ++ new_items (p ++ q)
then_applied a b c p q e f =
    f
    ∙ (ap (λ t. t ++ new_items q) e
        ∙ (append_assoc a.applied (new_items p) (new_items q)
            ∙ ap (λ t. a.applied ++ t) (sym (new_items-append p q))))

module _ (platform : Platform) (wid pid : ℕ) (bp : Blueprint) (existing : ExistingResources)
    (r₀ : Run) where
  abbrev plan : List BlueprintPlanItem
  plan = compute_blueprint_plan bp existing

  abbrev section : ResourceKind → List BlueprintPlanItem
  section kind = plan_section kind (declared kind bp) (existing_of kind existing)

  -- The runs after each of the loops.
  abbrev r1 : Run
  r1 = apply_apps platform wid pid bp plan r₀

  abbrev r2 : Run
  r2 = apply_databases platform wid pid bp plan r1

  abbrev r3 : Run
  r3 = apply_buckets platform wid pid bp plan r2

  abbrev r4 : Run
  r4 = apply_functions platform wid pid bp plan r3

  abbrev r5 : Run
  r5 = apply_cron platform wid pid bp plan r4

  abbrev r6 : Run
  r6 = apply_firewalls platform wid pid bp plan r5

  abbrev r7 : Run
  r7 = apply_load_balancers platform wid pid bp plan r6

  grown1 : Grows r₀ r1
  grown1 = apply_apps-Grows platform wid pid bp plan r₀

  grown2 : Grows r₀ r2
  grown2 = Grows-trans r₀ r1 r2 grown1 (apply_databases-Grows platform wid pid bp plan r1)

  grown3 : Grows r₀ r3
  grown3 = Grows-trans r₀ r2 r3 grown2 (apply_buckets-Grows platform wid pid bp plan r2)

  grown4 : Grows r₀ r4
  grown4 = Grows-trans r₀ r3 r4 grown3 (apply_functions-Grows platform wid pid bp plan r3)

  grown5 : Grows r₀ r5
  grown5 = Grows-trans r₀ r4 r5 grown4 (apply_cron-Grows platform wid pid bp plan r4)

  grown6 : Grows r₀ r6
  grown6 = Grows-trans r₀ r5 r6 grown5 (apply_firewalls-Grows platform wid pid bp plan r5)

  grown7 : Grows r₀ r7
  grown7 = Grows-trans r₀ r6 r7 grown6 (apply_load_balancers-Grows platform wid pid bp plan r6)

  kept6 : Grows r6 r7
  kept6 = apply_load_balancers-Grows platform wid pid bp plan r6

  kept5 : Grows r5 r7
  kept5 = Grows-trans r5 r6 r7 (apply_firewalls-Grows platform wid pid bp plan r5) kept6

  kept4 : Grows r4 r7
  kept4 = Grows-trans r4 r5 r7 (apply_cron-Grows platform wid pid bp plan r4) kept5

  kept3 : Grows r3 r7
  kept3 = Grows-trans r3 r4 r7 (apply_functions-Grows platform wid pid bp plan r3) kept4

  kept2 : Grows r2 r7
  kept2 = Grows-trans r2 r3 r7 (apply_buckets-Grows platform wid pid bp plan r2) kept3

  kept1 : Grows r1 r7
  kept1 = Grows-trans r1 r2 r7 (apply_databases-Grows platform wid pid bp plan r1) kept2

  abbrev pub AllApplied : Run → Type 0
  AllApplied run =
      ((kind : ResourceKind)
        → All (λ n. HasRow kind (owner_of platform wid pid bp existing r₀ kind) n run)
            (declared kind bp))
      × (run.applied ≡ r₀.applied ++ new_items (compute_blueprint_plan bp existing))

  pub apply_sections-AllApplied :
      IsCurrent platform wid pid bp existing r₀
      → All (λ lb. has_target lb.targets ≡ true) bp.load_balancers
      → (apply_sections platform wid pid bp (compute_blueprint_plan bp existing) r₀).thrown ≡ none
      → AllApplied (apply_sections platform wid pid bp (compute_blueprint_plan bp existing) r₀)
  unfolding apply_sections compute_blueprint_plan
  apply_sections-AllApplied current targets e7 =
      let e6 : r6.thrown ≡ none =
        not_thrown plan load_balancer (λ x. x.name)
          (create_load_balancer platform wid pid bp.region) no_keep bp.load_balancers r6 e7 in
      let e5 : r5.thrown ≡ none =
        not_thrown plan firewall (λ x. x.name) (create_firewall platform wid pid bp.region) no_keep
          bp.firewalls r5 e6 in
      let e4 : r4.thrown ≡ none =
        not_thrown plan cron (λ x. x.name) (create_cron platform wid pid bp.region) no_keep bp.cron
          r4 e5 in
      let e3 : r3.thrown ≡ none =
        not_thrown plan function (λ x. x.name) (create_function platform wid pid bp.region) no_keep
          bp.functions r3 e4 in
      let e2 : r2.thrown ≡ none =
        not_thrown plan bucket (λ x. x.name) (create_bucket platform wid pid bp.region) no_keep
          bp.buckets r2 e3 in
      let e1 : r1.thrown ≡ none =
        not_thrown plan database (λ x. x.name) (create_database platform wid pid bp.region) no_keep
          bp.databases r1 e2 in
      let a1 = apply_apps-IsApplied platform wid pid bp existing r₀ current r₀ (Grows-refl r₀) e1 in
      let a2 = apply_databases-IsApplied platform wid pid bp existing r₀ current r1 grown1 e2 in
      let a3 = apply_buckets-IsApplied platform wid pid bp existing r₀ current r2 grown2 e3 in
      let a4 = apply_functions-IsApplied platform wid pid bp existing r₀ current r3 grown3 e4 in
      let a5 = apply_cron-IsApplied platform wid pid bp existing r₀ current r4 grown4 e5 in
      let a6 = apply_firewalls-IsApplied platform wid pid bp existing r₀ current r5 grown5 e6 in
      let a7 =
        apply_load_balancers-IsApplied platform wid pid bp existing r₀ current r6 targets grown6
          e7 in
      (
        (λ kind.
            elim kind
              as (λ k.
                All (λ n. HasRow k (owner_of platform wid pid bp existing r₀ k) n r7)
                  (declared k bp)) [
                    | app ↦ All-HasRow app pid (declared app bp) r1 r7 kept1 a1.0
                    | database ↦ All-HasRow database pid (declared database bp) r2 r7 kept2 a2.0
                    | bucket ↦ All-HasRow bucket pid (declared bucket bp) r3 r7 kept3 a3.0
                    | function ↦ All-HasRow function pid (declared function bp) r4 r7 kept4 a4.0
                    | cron ↦ All-HasRow cron pid (declared cron bp) r5 r7 kept5 a5.0
                    | firewall ↦ All-HasRow firewall wid (declared firewall bp) r6 r7 kept6 a6.0
                    | load_balancer ↦ a7.0
                  ]),
        (then_applied r₀ r1 r7 (section app)
            (section database
              ++ (section bucket
                  ++ (section function
                      ++ (section cron ++ (section firewall ++ (section load_balancer))))))
            a1.1
            (then_applied r1 r2 r7 (section database)
              (section bucket
                ++ (section function
                    ++ (section cron ++ (section firewall ++ (section load_balancer)))))
              a2.1
              (then_applied r2 r3 r7 (section bucket)
                (section function
                  ++ (section cron ++ (section firewall ++ (section load_balancer))))
                a3.1
                (then_applied r3 r4 r7 (section function)
                  (section cron ++ (section firewall ++ (section load_balancer))) a4.1
                  (then_applied r4 r5 r7 (section cron)
                    (section firewall ++ (section load_balancer)) a5.1
                    (then_applied r5 r6 r7 (section firewall) (section load_balancer) a6.1
                      a7.1)))))),
      )
