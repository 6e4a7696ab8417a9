-- ===== src/Blueprint/Replan.antt =====
-- The second plan of POST /blueprint/apply in apps/api/src/routes/blueprint.ts: what is gathered is what
-- the tables hold, and a declared resource that is there is not created.
use your_stack.Common.{ℕ, ◌≡◌, refl, sym, ◌∙◌, true, List, [], ◌∷◌, ◌++◌, any, All, All-append}
use your_stack.Common.Text.{Text}
use your_stack.Blueprint.Schema.{
  Blueprint, ResourceKind, app, database, bucket, function, cron, firewall, load_balancer,
  BlueprintPlanItem,
}
use your_stack.Blueprint.Names.{Platform}
use your_stack.Blueprint.Plan.{
  ExistingResources, empty_existing, plan_section, compute_blueprint_plan, is_update,
}
use your_stack.Blueprint.Store.{Run, Store, ResourceRow, live_names, gather_existing}
use your_stack.Blueprint.Apply.{start}
use your_stack.Blueprint.Contract.{HasRow, is_named}
use your_stack.Blueprint.Planned.{declared, has_name-live_names}
use your_stack.Blueprint.Sections.{owner_of, IsCurrent}

abbrev pub IsUpdate : BlueprintPlanItem → Type 0
IsUpdate p = is_update p.action ≡ true

section-IsUpdate :
    (kind : ResourceKind) (owner : ℕ) (names : List Text) (rows : List ResourceRow)
    → All (λ n. any (is_named kind owner n) rows ≡ true) names
    → All IsUpdate (plan_section kind names (live_names kind owner rows))
unfolding plan_section
section-IsUpdate kind owner [] rows h = tt
section-IsUpdate kind owner (n ∷ names) rows h = (
  rw (has_name-live_names kind owner n rows, h.0) refl,
  section-IsUpdate kind owner names rows h.1,
)

-- What holds of the section of each kind holds of a plan.
pub sections-All :
    (P : BlueprintPlanItem → Type 0) (section : ResourceKind → List BlueprintPlanItem)
    → ((kind : ResourceKind) → All P (section kind))
    → All P (
        section app
        ++ (section database
            ++ (section bucket
                ++ (section function
                    ++ (section cron ++ (section firewall ++ section load_balancer))))))
sections-All P section h =
    let last =
      All-append P (section firewall) (section load_balancer) (h firewall) (h load_balancer) in
    let jobs =
      All-append P (section cron) (section firewall ++ section load_balancer) (h cron) last in
    let code =
      All-append P (section function) (section cron ++ (section firewall ++ section load_balancer))
        (h function) jobs in
    let kept =
      All-append P (section bucket)
        (section function ++ (section cron ++ (section firewall ++ section load_balancer)))
        (h bucket) code in
    let stored =
      All-append P (section database)
        (section bucket
          ++ (section function ++ (section cron ++ (section firewall ++ section load_balancer))))
        (h database) kept in
    All-append P (section app)
      (section database
        ++ (section bucket
            ++ (section function ++ (section cron ++ (section firewall ++ section load_balancer)))))
      (h app) stored

module _ (platform : Platform) (wid : ℕ) (bp : Blueprint) where
  -- The names that are gathered of a project are those of its rows.
  pub gather-IsCurrent :
      (pid : ℕ) (s : Store)
      → IsCurrent platform wid pid bp (gather_existing wid pid s.rows) (start s)
  unfolding gather_existing
  gather-IsCurrent pid s app name h = sym (has_name-live_names app pid name s.rows) ∙ h
  gather-IsCurrent pid s database name h = sym (has_name-live_names database pid name s.rows) ∙ h
  gather-IsCurrent pid s bucket name h = sym (has_name-live_names bucket pid name s.rows) ∙ h
  gather-IsCurrent pid s function name h = sym (has_name-live_names function pid name s.rows) ∙ h
  gather-IsCurrent pid s cron name h = sym (has_name-live_names cron pid name s.rows) ∙ h
  gather-IsCurrent pid s firewall name h = sym (has_name-live_names firewall wid name s.rows) ∙ h
  gather-IsCurrent pid s load_balancer name h =
      sym (has_name-live_names load_balancer pid name s.rows) ∙ h

  -- Before the project is there, only the workspace's firewalls are.
  pub bare-IsCurrent :
      (pid : ℕ) (s t : Store)
      → t.rows ≡ s.rows
      → IsCurrent platform wid pid bp
          (record empty_existing { firewalls = live_names firewall wid s.rows })
          (start t)
  bare-IsCurrent pid s t e firewall name h =
      rw e (sym (has_name-live_names firewall wid name s.rows) ∙ h)
  bare-IsCurrent pid s t e app name h = absurd (cc h)
  bare-IsCurrent pid s t e database name h = absurd (cc h)
  bare-IsCurrent pid s t e bucket name h = absurd (cc h)
  bare-IsCurrent pid s t e function name h = absurd (cc h)
  bare-IsCurrent pid s t e cron name h = absurd (cc h)
  bare-IsCurrent pid s t e load_balancer name h = absurd (cc h)

  pub plan-IsUpdate :
      (pid : ℕ) (r₀ : Run) (existing : ExistingResources) (run : Run)
      → ((kind : ResourceKind)
          → All
              (λ n. HasRow kind (owner_of platform wid pid bp existing r₀ kind) n run)
              (declared kind bp))
      → All IsUpdate (compute_blueprint_plan bp (gather_existing wid pid run.store.rows))
  unfolding compute_blueprint_plan gather_existing
  plan-IsUpdate pid r₀ existing run h =
      let owner = owner_of platform wid pid bp existing r₀ in
      let rows = run.store.rows in
      sections-All IsUpdate
        (λ kind. plan_section kind (declared kind bp) (live_names kind (owner kind) rows))
        (λ kind. section-IsUpdate kind (owner kind) (declared kind bp) rows (h kind))
