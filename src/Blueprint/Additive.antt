-- ===== src/Blueprint/Additive.antt =====
-- An application of a blueprint only adds: what it leaves as it was.
use your_stack.Common.{
  ℕ, ◌≡◌, refl, ap, ◌∙◌, true, false, none, some, Bool-cases, inl, inr, List, ◌++◌, [], ◌==◌, ◌&&◌,
  any, if◌then◌else◌, ok, err, Option,
}
use your_stack.Rbac.{Permission}
use your_stack.Tenancy.{require_permission}
use your_stack.Tenancy.Db.{Db, User}
use your_stack.Blueprint.Schema.{
  Blueprint, BlueprintPlanItem, invalid, parsed, BlueprintParseResult, app, database, bucket,
  function, cron, firewall, load_balancer,
}
use your_stack.Common.Text.{eq_text}
use your_stack.Blueprint.Names.{Platform, slugify}
use your_stack.Blueprint.Store.{Run, Store, unique_violation, ResourceRow, Project}
use your_stack.Blueprint.Inserts.{keep_app}
use your_stack.Blueprint.Create.{
  create_app, create_database, create_bucket, create_function, create_cron, create_firewall,
  create_load_balancer,
}
use your_stack.Blueprint.Apply.{
  failed, no_keep, apply_apps, apply_databases, apply_buckets, apply_functions, apply_cron,
  apply_firewalls, apply_load_balancers, apply_sections, finish, start, apply_plan, apply_parsed,
  apply_blueprint, ApplyRequest, add_project, find_project, plan_for, on_parsed, on_permitted,
}
use your_stack.Blueprint.Contract.{
  Grows, create_app-Steps, create_database-Steps, create_bucket-Steps, create_function-Steps,
  create_cron-Steps, create_firewall-Steps,
}
use your_stack.Blueprint.Loops.{each-Grows, Grows-trans, Grows-refl}
use your_stack.Blueprint.Balancing.{create_load_balancer-Grows}
use your_stack.Blueprint.Sections.{keep_app-Keeps}

module _ (platform : Platform) (wid pid : ℕ) (bp : Blueprint) (plan : List BlueprintPlanItem) where
  pub apply_apps-Grows : (run : Run) → Grows run (apply_apps platform wid pid bp plan run)
  apply_apps-Grows run =
      each-Grows plan app (λ x. x.name) (create_app platform wid pid bp.region) (keep_app pid)
        bp.apps run (λ x r item. (create_app-Steps platform wid pid bp.region item x r).0)
        (λ x r. (
          ([], ap (λ s. s.rows) (keep_app-Keeps pid x r).0),
          ap (λ s. s.projects) (keep_app-Keeps pid x r).0,
        ))

  pub apply_databases-Grows : (run : Run) → Grows run (apply_databases platform wid pid bp plan run)
  apply_databases-Grows run =
      each-Grows plan database (λ x. x.name) (create_database platform wid pid bp.region) no_keep
        bp.databases run (λ x r item. (create_database-Steps platform wid pid bp.region item x r).0)
        (λ x r. Grows-refl r)

  pub apply_buckets-Grows : (run : Run) → Grows run (apply_buckets platform wid pid bp plan run)
  apply_buckets-Grows run =
      each-Grows plan bucket (λ x. x.name) (create_bucket platform wid pid bp.region) no_keep
        bp.buckets run (λ x r item. (create_bucket-Steps platform wid pid bp.region item x r).0)
        (λ x r. Grows-refl r)

  pub apply_functions-Grows : (run : Run) → Grows run (apply_functions platform wid pid bp plan run)
  apply_functions-Grows run =
      each-Grows plan function (λ x. x.name) (create_function platform wid pid bp.region) no_keep
        bp.functions run (λ x r item. (create_function-Steps platform wid pid bp.region item x r).0)
        (λ x r. Grows-refl r)

  pub apply_cron-Grows : (run : Run) → Grows run (apply_cron platform wid pid bp plan run)
  apply_cron-Grows run =
      each-Grows plan cron (λ x. x.name) (create_cron platform wid pid bp.region) no_keep bp.cron
        run (λ x r item. (create_cron-Steps platform wid pid bp.region item x r).0)
        (λ x r. Grows-refl r)

  pub apply_firewalls-Grows : (run : Run) → Grows run (apply_firewalls platform wid pid bp plan run)
  apply_firewalls-Grows run =
      each-Grows plan firewall (λ x. x.name) (create_firewall platform wid pid bp.region) no_keep
        bp.firewalls run (λ x r item. (create_firewall-Steps platform wid pid bp.region item x r).0)
        (λ x r. Grows-refl r)

  pub apply_load_balancers-Grows :
      (run : Run) → Grows run (apply_load_balancers platform wid pid bp plan run)
  apply_load_balancers-Grows run =
      each-Grows plan load_balancer (λ x. x.name) (create_load_balancer platform wid pid bp.region)
        no_keep bp.load_balancers run
        (λ x r item. create_load_balancer-Grows platform wid pid bp.region x r item)
        (λ x r. Grows-refl r)

  pub apply_sections-Grows : (run : Run) → Grows run (apply_sections platform wid pid bp plan run)
  unfolding apply_sections
  apply_sections-Grows run =
      let r1 = apply_apps platform wid pid bp plan run in
      let r2 = apply_databases platform wid pid bp plan r1 in
      let r3 = apply_buckets platform wid pid bp plan r2 in
      let r4 = apply_functions platform wid pid bp plan r3 in
      let r5 = apply_cron platform wid pid bp plan r4 in
      let r6 = apply_firewalls platform wid pid bp plan r5 in
      let r7 = apply_load_balancers platform wid pid bp plan r6 in
      Grows-trans run r1 r7 (apply_apps-Grows run) (
        Grows-trans r1 r2 r7 (apply_databases-Grows r1) (
          Grows-trans r2 r3 r7 (apply_buckets-Grows r2) (
            Grows-trans r3 r4 r7 (apply_functions-Grows r3) (
              Grows-trans r4 r5 r7 (apply_cron-Grows r4) (
                Grows-trans r5 r6 r7 (apply_firewalls-Grows r5) (apply_load_balancers-Grows r6))))))

  finish-rows : (run : Run) → (finish platform wid pid bp plan run).store.rows ≡ run.store.rows
  unfolding finish
  finish-rows run =
      elim run.thrown
        as (λ t.
          (finish platform wid pid bp plan (record run { thrown = t })).store.rows
          ≡ run.store.rows) [ none ↦ refl | some t ↦ refl ]

-- Rows are added in front of those that were there.
abbrev pub Adds : Store → Store → Type 0
Adds s s' = (new : List ResourceRow) × (s'.rows ≡ new ++ s.rows)

finish-Adds :
    (platform : Platform) (wid pid : ℕ) (bp : Blueprint) (plan : List BlueprintPlanItem) (s : Store)
    → Adds s
        (finish platform wid pid bp plan (apply_sections platform wid pid bp plan (start s))).store
finish-Adds platform wid pid bp plan s =
    let grown = apply_sections-Grows platform wid pid bp plan (start s) in
    (
      grown.0.0,
      finish-rows platform wid pid bp plan (apply_sections platform wid pid bp plan (start s))
          ∙ grown.0.1,
    )

apply_plan-Adds :
    (platform : Platform) (wid : ℕ) (bp : Blueprint) (plan : List BlueprintPlanItem)
    (project : Option Project) (s : Store)
    → Adds s (apply_plan platform wid bp plan project s).store
unfolding apply_plan
apply_plan-Adds platform wid bp plan (some p) s = finish-Adds platform wid p.id bp plan s
apply_plan-Adds platform wid bp plan none s =
    elim (any (λ p. p.workspace_id == wid && eq_text p.slug (slugify bp.project)) s.projects)
      as (λ b.
        Adds s
          (if b
            then record { store = s; outcome = failed unique_violation }
            else finish platform wid s.next_id bp plan (
                apply_sections platform wid s.next_id bp plan
                  (start (add_project wid bp s)))).store) [
                    | true ↦ ([], refl)
                    | false ↦ finish-Adds platform wid s.next_id bp plan (add_project wid bp s)
                  ]

apply_parsed-Adds :
    (platform : Platform) (req : ApplyRequest) (bp : Blueprint) (s : Store)
    → Adds s (apply_parsed platform req bp s).store
unfolding apply_parsed
apply_parsed-Adds platform req bp s = elim (Bool-cases req.dry_run) [
  | inl t ↦ rw (apply_parsed, t) ([], refl)
  | inr t ↦
      rw (apply_parsed, t)
        (apply_plan-Adds platform req.workspace_id bp (plan_for req.workspace_id bp s)
          (find_project req.workspace_id bp s) s)
]

on_parsed-Adds :
    (platform : Platform) (req : ApplyRequest) (blueprint : BlueprintParseResult) (s : Store)
    → Adds s (on_parsed platform req blueprint s).store
on_parsed-Adds platform req (invalid errors) s = ([], refl)
on_parsed-Adds platform req (parsed bp) s = apply_parsed-Adds platform req bp s

-- A request to apply a blueprint leaves every row of the seven tables of resources as it was and only
-- adds rows, whatever its outcome is.
pub apply_blueprint-Adds :
    (platform : Platform) (db : Db) (req_user : Option User) (req : ApplyRequest) (s : Store)
    → Adds s (apply_blueprint platform db req_user req s).store
unfolding apply_blueprint
apply_blueprint-Adds platform db req_user req s =
    elim (require_permission db req_user req.workspace_id Permission.blueprint_apply)
      as (λ r. Adds s (on_permitted r s (on_parsed platform req req.blueprint s)).store) [
        | err e ↦ ([], refl)
        | ok m ↦ on_parsed-Adds platform req req.blueprint s
      ]
