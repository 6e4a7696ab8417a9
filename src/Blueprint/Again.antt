-- ===== src/Blueprint/Again.antt =====
-- A blueprint that was applied is planned again: nothing is left to create.
use your_stack.Common.{
  ℕ, ◌≡◌, refl, sym, ap, subst, ◌∙◌, Bool, true, false, ◌&&◌, Option, none, some, List, ◌==◌, any,
  find, All, if◌then◌else◌, Result-cases, inl, inr, arith, ==_self,
}
use your_stack.Common.Text.{eq_text, eq_text_self}
use your_stack.Rbac.{Permission}
use your_stack.Tenancy.Db.{Db, User}
use your_stack.Tenancy.{require_permission}
use your_stack.Blueprint.Schema.{Blueprint, parsed, firewall, BlueprintPlanItem}
use your_stack.Blueprint.Names.{Platform, slugify}
use your_stack.Blueprint.Plan.{ExistingResources, empty_existing, compute_blueprint_plan}
use your_stack.Blueprint.Store.{
  Run, Store, Project, Thrown, unique_violation, live_names, gather_existing,
}
use your_stack.Blueprint.Apply.{
  apply_sections, finish, start, existing_for, find_project, plan_for, is_project, add_project,
  apply_plan, apply_parsed, apply_blueprint, ApplyRequest, Response, failed, answered, Answer,
}
use your_stack.Blueprint.Loops.{new_items}
use your_stack.Blueprint.Balancing.{has_target}
use your_stack.Blueprint.Sections.{IsCurrent}
use your_stack.Blueprint.Additive.{apply_sections-Grows}
use your_stack.Blueprint.Convergence.{apply_sections-AllApplied}
use your_stack.Blueprint.Replan.{IsUpdate, gather-IsCurrent, bare-IsCurrent, plan-IsUpdate}

module _ (platform : Platform) (wid : ℕ) (bp : Blueprint) where
  finish-answered :
      (pid : ℕ) (plan : List BlueprintPlanItem) (run : Run) (answer : Answer)
      → (finish platform wid pid bp plan run).outcome ≡ answered answer
      → (run.thrown ≡ none)
        × ((answer ≡ record { plan = plan; applied = some run.applied })
            × (((finish platform wid pid bp plan run).store.rows ≡ run.store.rows)
                × ((finish platform wid pid bp plan run).store.projects ≡ run.store.projects)))
  unfolding finish
  finish-answered pid plan run answer e = ground (arith, e)

  -- What an answer to an application says, and what the next plan is.
  abbrev pub Converges : List BlueprintPlanItem → Answer → Store → Type 0
  Converges plan answer s' =
      (answer ≡ record { plan = plan; applied = some (new_items plan) })
      × All IsUpdate (plan_for wid bp s')

  -- The loops and the answer, with the plan against what exists.
  abbrev response : ℕ → ExistingResources → Store → Response
  response pid existing t =
      let plan = compute_blueprint_plan bp existing in
      finish platform wid pid bp plan (apply_sections platform wid pid bp plan (start t))

  response_Converges :
      (p : Project) (existing : ExistingResources) (t : Store) (answer : Answer)
      → find_project wid bp t ≡ some p
      → IsCurrent platform wid p.id bp existing (start t)
      → All (λ lb. has_target lb.targets ≡ true) bp.load_balancers
      → (response p.id existing t).outcome ≡ answered answer
      → Converges (compute_blueprint_plan bp existing) answer (response p.id existing t).store
  unfolding existing_for
  response_Converges p existing t answer f current targets e =
      let plan = compute_blueprint_plan bp existing in
      let run = apply_sections platform wid p.id bp plan (start t) in
      let final = (finish platform wid p.id bp plan run).store in
      let (thrown, (said, (rows, projects))) = finish-answered p.id plan run answer e in
      let all =
        apply_sections-AllApplied platform wid p.id bp existing (start t) current targets thrown in
      let kept = (apply_sections-Grows platform wid p.id bp plan (start t)).1 in
      let same : find_project wid bp final ≡ some p =
        ap (find (is_project wid (slugify bp.project))) (projects ∙ kept) ∙ f in
      (
        said ∙ ap (λ a. record { plan = plan; applied = some a }) all.1,
        rw same (
            subst (λ rs. All IsUpdate (compute_blueprint_plan bp (gather_existing wid p.id rs)))
              (sym rows) (plan-IsUpdate platform wid bp p.id (start t) existing run all.0)),
      )

  if_taken :
      (taken : Bool) (refused r : Response) (t : Thrown) (answer : Answer) (C : Store → Type 0)
      → refused.outcome ≡ failed t
      → (r.outcome ≡ answered answer → C r.store)
      → (if taken then refused else r).outcome ≡ answered answer
      → C (if taken then refused else r).store
  if_taken true refused r t answer C refusal h e = absurd (cc (refusal, e))
  if_taken false refused r t answer C refusal h e = h e

  -- The plan of a project that is there or not, and its application.
  abbrev plan_with : Option Project → Store → List BlueprintPlanItem
  plan_with project s = compute_blueprint_plan bp (existing_for wid project s)

  apply_plan-Converges :
      (project : Option Project) (s : Store) (answer : Answer)
      → find_project wid bp s ≡ project
      → All (λ lb. has_target lb.targets ≡ true) bp.load_balancers
      → (apply_plan platform wid bp (plan_with project s) project s).outcome ≡ answered answer
      → Converges
          (plan_with project s)
          answer
          (apply_plan platform wid bp (plan_with project s) project s).store
  unfolding apply_plan existing_for
  apply_plan-Converges (some p) s answer f targets e =
      response_Converges p (gather_existing wid p.id s.rows) s answer f
        (gather-IsCurrent platform wid bp p.id s) targets e
  apply_plan-Converges none s answer f targets e =
      let existing : ExistingResources = record empty_existing {
        firewalls = live_names firewall wid s.rows;
      } in
      let t = add_project wid bp s in
      let p : Project = record {
        id = s.next_id;
        workspace_id = wid;
        name = bp.project;
        slug = slugify bp.project;
        deleted = false;
      } in
      let new : find_project wid bp t ≡ some p =
        rw (==_self wid, eq_text_self (slugify bp.project)) refl in
      if_taken (any (λ q. q.workspace_id == wid && eq_text q.slug (slugify bp.project)) s.projects)
        (record { store = s; outcome = failed unique_violation }) (response s.next_id existing t)
        unique_violation answer (Converges (compute_blueprint_plan bp existing) answer) refl
        (response_Converges p existing t answer new
          (bare-IsCurrent platform wid bp s.next_id s t refl) targets)
        e

wet :
    (platform : Platform) (req : ApplyRequest) (bp : Blueprint) (s : Store)
    → req.dry_run ≡ false
    → apply_parsed platform req bp s
      ≡ apply_plan platform req.workspace_id bp
          (plan_for req.workspace_id bp s)
          (find_project req.workspace_id bp s)
          s
unfolding apply_parsed
wet platform req bp s d = rw d refl

permitted :
    (platform : Platform) (db : Db) (req_user : Option User) (req : ApplyRequest) (bp : Blueprint)
    (s : Store) (answer : Answer)
    → req.blueprint ≡ parsed bp
    → (apply_blueprint platform db req_user req s).outcome ≡ answered answer
    → (t : Store) (dry : Bool)
    → apply_blueprint platform db req_user (record req { dry_run = dry }) t
      ≡ apply_parsed platform (record req { dry_run = dry }) bp t
unfolding apply_blueprint
permitted platform db req_user req bp s answer b e t dry =
    elim (Result-cases
      (require_permission db req_user req.workspace_id Permission.blueprint_apply)) [
        | inl (m, h) ↦ rw (h, b) refl
        | inr (x, h) ↦ absurd (cc (h, e))
      ]

-- After a request to apply a blueprint was answered, if it is no dry run and every load balancer has a
-- target that is not blank, the answer lists as applied what the plan was to create, in its order, and a
-- dry run of the same request is answered with a plan that creates nothing and changes nothing.
pub apply_blueprint-again :
    (platform : Platform) (db : Db) (req_user : Option User) (req : ApplyRequest) (bp : Blueprint)
    (s s' : Store) (answer : Answer)
    → req.blueprint ≡ parsed bp
    → req.dry_run ≡ false
    → All (λ lb. has_target lb.targets ≡ true) bp.load_balancers
    → apply_blueprint platform db req_user req s ≡ record { store = s'; outcome = answered answer }
    → (answer.applied ≡ some (new_items answer.plan))
      × (apply_blueprint platform db req_user (record req { dry_run = true }) s' ≡ record {
        store = s';
        outcome = answered record { plan = plan_for req.workspace_id bp s'; applied = none };
      })
      × All IsUpdate (plan_for req.workspace_id bp s')
apply_blueprint-again platform db req_user req bp s s' answer b d targets e =
    let e' = ap (λ r. r.outcome) e in
    let go = permitted platform db req_user req bp s answer b e' in
    let same = sym (go s req.dry_run ∙ wet platform req bp s d) ∙ e in
    let (said, updates) =
      apply_plan-Converges platform req.workspace_id bp (find_project req.workspace_id bp s) s
        answer refl targets (ap (λ r. r.outcome) same) in
    (
      subst (λ a. a.applied ≡ some (new_items a.plan)) (sym said) refl,
      go s' true ∙ (unfold apply_parsed in refl),
      subst (λ r. All IsUpdate (plan_for req.workspace_id bp r.store)) same updates,
    )
