-- ===== src/Blueprint/Apply.antt =====
-- POST /blueprint/apply of apps/api/src/routes/blueprint.ts.
use your_stack.Common.{
  ℕ, suc, Bool, false, not, ◌&&◌, Option, none, some, List, [], ◌∷◌, ◌==◌, find, any, length,
  if◌then◌else◌, Result, ok, err, AppError,
}
use your_stack.Common.Text.{Text, eq_text}
use your_stack.Rbac.{Permission}
use your_stack.Tenancy.Db.{Db, User}
use your_stack.Tenancy.{require_permission}
use your_stack.Blueprint.Schema.{
  Blueprint, BlueprintParseResult, invalid, parsed, ResourceKind, app, database, bucket, function,
  cron, firewall, load_balancer, BlueprintPlanItem,
}
use your_stack.Blueprint.Names.{Platform, slugify}
use your_stack.Blueprint.Plan.{
  ExistingResources, empty_existing, compute_blueprint_plan, is_create, kind_rank,
}
use your_stack.Blueprint.Store.{
  Project, Store, Run, Thrown, app_error, unique_violation, type_error, live_names, gather_existing,
}
use your_stack.Blueprint.Inserts.{throw, keep_app}
use your_stack.Blueprint.Create.{
  create_app, create_database, create_bucket, create_function, create_cron, create_firewall,
  create_load_balancer,
}

-- `plan.find((p) => p.kind === kind && p.name === name)`
abbrev pub is_item : ResourceKind → Text → BlueprintPlanItem → Bool
is_item kind name p = kind_rank p.kind == kind_rank kind && eq_text p.name name

module _ {A : Type 0} (plan : List BlueprintPlanItem) (kind : ResourceKind) (name_of : A → Text)
    (create : BlueprintPlanItem → A → Run → Run) (keep : A → Run → Run) where
  -- One round: the item's `action` is read of what `find` returns.
  unfoldable pub round : A → Run → Run
  round x run = elim (find (is_item kind (name_of x)) plan) [
    | none ↦ throw type_error run
    | some item ↦ if is_create item.action then create item x run else keep x run
  ]

  -- What is thrown ends the handler.
  unfoldable pub round_unless_thrown : A → Run → Run
  unfolding round
  round_unless_thrown x run = elim run.thrown [ none ↦ round x run | some t ↦ run ]

  unfoldable pub each : List A → Run → Run
  unfolding round_unless_thrown
  each [] run = run
  each (x ∷ xs) run = each xs (round_unless_thrown x run)

abbrev pub no_keep : {A : Type 0} → A → Run → Run
no_keep x run = run

pub record ApplyRequest : Type 0 where
  pub workspace_id : ℕ
  pub blueprint : BlueprintParseResult
  pub dry_run : Bool

pub record Answer : Type 0 where
  pub plan : List BlueprintPlanItem
  pub applied : Option (List BlueprintPlanItem)

pub data Outcome : Type 0 where
  failed : Thrown → Outcome
  answered : Answer → Outcome

pub record Response : Type 0 where
  pub store : Store
  pub outcome : Outcome

abbrev pub start : Store → Run
start s = record { store = s; app_address_by_name = []; applied = []; thrown = none }

module _ (platform : Platform) (wid pid : ℕ) (bp : Blueprint) (plan : List BlueprintPlanItem) where
  -- The seven loops.
  abbrev pub apply_apps : Run → Run
  apply_apps =
      each plan app (λ a. a.name) (create_app platform wid pid bp.region) (keep_app pid) bp.apps

  abbrev pub apply_databases : Run → Run
  apply_databases =
      each plan database (λ d. d.name) (create_database platform wid pid bp.region) no_keep
        bp.databases

  abbrev pub apply_buckets : Run → Run
  apply_buckets =
      each plan bucket (λ b. b.name) (create_bucket platform wid pid bp.region) no_keep bp.buckets

  abbrev pub apply_functions : Run → Run
  apply_functions =
      each plan function (λ f. f.name) (create_function platform wid pid bp.region) no_keep
        bp.functions

  abbrev pub apply_cron : Run → Run
  apply_cron = each plan cron (λ c. c.name) (create_cron platform wid pid bp.region) no_keep bp.cron

  abbrev pub apply_firewalls : Run → Run
  apply_firewalls =
      each plan firewall (λ w. w.name) (create_firewall platform wid pid bp.region) no_keep
        bp.firewalls

  abbrev pub apply_load_balancers : Run → Run
  apply_load_balancers =
      each plan load_balancer (λ l. l.name) (create_load_balancer platform wid pid bp.region)
        no_keep bp.load_balancers

  unfoldable pub apply_sections : Run → Run
  unfolding each
  apply_sections run = apply_load_balancers (
      apply_firewalls
        (apply_cron (apply_functions (apply_buckets (apply_databases (apply_apps run))))))

  -- The audit entry and the answer, unless a loop threw.
  unfoldable pub finish : Run → Response
  finish run = elim run.thrown [
    | some t ↦ record { store = run.store; outcome = failed t }
    | none ↦ record {
      store = record run.store {
        audit_log =
            record {
              workspace_id = wid;
              target_id = pid;
              project = bp.project;
              created = length run.applied;
            }
            ∷ run.store.audit_log;
      };
      outcome = answered record { plan = plan; applied = some run.applied };
    }
  ]

abbrev pub is_project : ℕ → Text → Project → Bool
is_project wid slug p = p.workspace_id == wid && (eq_text p.slug slug && not p.deleted)

unfoldable pub existing_for : ℕ → Option Project → Store → ExistingResources
unfolding gather_existing
existing_for wid none s = record empty_existing { firewalls = live_names firewall wid s.rows }
existing_for wid (some p) s = gather_existing wid p.id s.rows

-- `prisma.project.create`
abbrev pub add_project : ℕ → Blueprint → Store → Store
add_project wid bp s = record s {
  projects =
      record {
        id = s.next_id;
        workspace_id = wid;
        name = bp.project;
        slug = slugify bp.project;
        deleted = false;
      }
      ∷ s.projects;
  next_id = suc s.next_id;
}

-- What follows the dry run's return.
unfoldable pub apply_plan :
    Platform → ℕ → Blueprint → List BlueprintPlanItem → Option Project → Store → Response
unfolding apply_sections finish
apply_plan platform wid bp plan (some p) s =
    finish platform wid p.id bp plan (apply_sections platform wid p.id bp plan (start s))
apply_plan platform wid bp plan none s =
    let applied =
      finish platform wid s.next_id bp plan
        (apply_sections platform wid s.next_id bp plan (start (add_project wid bp s))) in
    if any (λ p. p.workspace_id == wid && eq_text p.slug (slugify bp.project)) s.projects
    then record { store = s; outcome = failed unique_violation }
    else applied

abbrev pub find_project : ℕ → Blueprint → Store → Option Project
find_project wid bp s = find (is_project wid (slugify bp.project)) s.projects

abbrev pub plan_for : ℕ → Blueprint → Store → List BlueprintPlanItem
plan_for wid bp s = compute_blueprint_plan bp (existing_for wid (find_project wid bp s) s)

unfoldable pub apply_parsed : Platform → ApplyRequest → Blueprint → Store → Response
unfolding apply_plan
apply_parsed platform req bp s =
    let plan = plan_for req.workspace_id bp s in
    let applied =
      apply_plan platform req.workspace_id bp plan (find_project req.workspace_id bp s) s in
    if req.dry_run
    then record { store = s; outcome = answered record { plan = plan; applied = none } }
    else applied

abbrev pub on_permitted {ℓ} : {A : Type ℓ} → Result A → Store → Response → Response
on_permitted (err e) s r = record { store = s; outcome = failed (app_error e) }
on_permitted (ok a) s r = r

abbrev pub on_parsed : Platform → ApplyRequest → BlueprintParseResult → Store → Response
on_parsed platform req (invalid errors) s = record {
  store = s;
  outcome = failed (app_error (AppError.bad_request "Invalid blueprint"));
}
on_parsed platform req (parsed bp) s = apply_parsed platform req bp s

-- The handler.
unfoldable pub apply_blueprint : Platform → Db → Option User → ApplyRequest → Store → Response
apply_blueprint platform db req_user req s =
    on_permitted (require_permission db req_user req.workspace_id Permission.blueprint_apply) s
      (on_parsed platform req req.blueprint s)
