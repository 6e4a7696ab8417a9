-- ===== src/Blueprint/Contract.antt =====
-- What the body of each loop of the apply handler keeps and adds.
use your_stack.Common.{
  ℕ, ◌≡◌, refl, Bool, true, false, ◌&&◌, Option, none, List, [], ◌∷◌, ◌++◌, any, ==_self, inl, inr,
  arith, Result-cases,
}
use your_stack.Common.Text.{Text, eq_text, eq_text_self}
use your_stack.Nodes.{NodeRow, pick_node}
use your_stack.Secrets.{non_empty}
use your_stack.Blueprint.Schema.{
  ResourceKind, app, database, bucket, function, cron, firewall, load_balancer, BlueprintPlanItem,
  BlueprintApp, BlueprintDatabase, BlueprintBucket, BlueprintFunction, BlueprintCron,
  BlueprintFirewall, BlueprintLoadBalancer,
}
use your_stack.Blueprint.Names.{Platform, ResolvedTarget}
use your_stack.Blueprint.Plan.{kind_rank}
use your_stack.Blueprint.Store.{
  ResourceColumns, ResourceRow, Run, Thrown, app_error, unique_violation, invalid_data, kind_of,
  is_live, BlueprintJob, provision_database, provision_bucket, deploy_function, provision_lb,
}
use your_stack.Blueprint.Inserts.{
  throw, add_row, add_with_job, throw_if_clash, throw_unless_fits, fits_int, first_some, clashes,
  has_slug,
}
use your_stack.Blueprint.Create.{
  add_app, database_fits, database_row, bucket_row, function_row, has_bucket, has_function,
  cron_row, firewall_row, load_balancer_row, on_picked, create_app, create_database, create_bucket,
  create_function, create_cron, create_firewall, balance, app_row,
}
use your_stack.Blueprint.Names.{slugify, to_mb}

-- A live row of a kind has the name.
abbrev pub is_named : ResourceKind → ℕ → Text → ResourceRow → Bool
is_named kind owner name r = is_live kind owner r && eq_text name r.name

abbrev pub HasRow : ResourceKind → ℕ → Text → Run → Type 0
HasRow kind owner name run = any (is_named kind owner name) run.store.rows ≡ true

-- Rows are only added, in front.
abbrev pub Grows : Run → Run → Type 0
Grows run run' =
    ((new : List ResourceRow) × (run'.store.rows ≡ new ++ run.store.rows))
    × (run'.store.projects ≡ run.store.projects)

abbrev pub Made : ResourceKind → ℕ → Text → BlueprintPlanItem → Run → Run → Type 0
Made kind owner name item run run' =
    HasRow kind owner name run' × (run'.applied ≡ run.applied ++ (item ∷ []))

-- What a step keeps, and that it does its work unless it throws.
abbrev pub Steps : ResourceKind → ℕ → Text → BlueprintPlanItem → Run → Run → Type 0
Steps kind owner name item run run' =
    Grows run run' × (run'.thrown ≡ none → Made kind owner name item run run')

pub throws :
    (kind : ResourceKind) (owner : ℕ) (name : Text) (item : BlueprintPlanItem) (t : Thrown)
    (run : Run)
    → Steps kind owner name item run (throw t run)
throws kind owner name item t run = ((([], refl), refl), λ e. absurd (cc e))

-- The row that is added is found by its name.
found :
    (owner : ℕ) (name : Text) (columns : ResourceColumns) (id : ℕ) (rows : List ResourceRow)
    → any (is_named (kind_of columns) owner name) (
        record { id = id; owner_id = owner; name = name; columns = columns; deleted = false }
        ∷ rows)
      ≡ true
found owner name columns id rows =
    ground (arith, ==_self (kind_rank (kind_of columns)), ==_self owner, eq_text_self name)

new_row : ℕ → Text → ResourceColumns → Run → ResourceRow
new_row owner name columns run = record {
  id = run.store.next_id;
  owner_id = owner;
  name = name;
  columns = columns;
  deleted = false;
}

add_row-Steps :
    (owner : ℕ) (name : Text) (columns : ResourceColumns) (item : BlueprintPlanItem) (run : Run)
    → Steps (kind_of columns) owner name item run (add_row owner name columns item run)
unfolding new_row
add_row-Steps owner name columns item run = (
  ((new_row owner name columns run ∷ [], refl), refl),
  λ e. (found owner name columns run.store.next_id run.store.rows, refl),
)

add_with_job-Steps :
    (job : ℕ → BlueprintJob) (owner : ℕ) (name : Text) (columns : ResourceColumns)
    (item : BlueprintPlanItem) (run : Run)
    → Steps (kind_of columns) owner name item run (add_with_job job owner name columns item run)
unfolding new_row
add_with_job-Steps job owner name columns item run = (
  ((new_row owner name columns run ∷ [], refl), refl),
  λ e. (found owner name columns run.store.next_id run.store.rows, refl),
)

throw_if_clash-Steps :
    (kind : ResourceKind) (owner : ℕ) (name : Text) (item : BlueprintPlanItem) (clash : Bool)
    (run added : Run)
    → Steps kind owner name item run added
    → Steps kind owner name item run (throw_if_clash clash run added)
throw_if_clash-Steps kind owner name item true run added h =
    throws kind owner name item unique_violation run
throw_if_clash-Steps kind owner name item false run added h = h

throw_unless_fits-Steps :
    (kind : ResourceKind) (owner : ℕ) (name : Text) (item : BlueprintPlanItem) (fits : Bool)
    (run added : Run)
    → Steps kind owner name item run added
    → Steps kind owner name item run (throw_unless_fits fits run added)
throw_unless_fits-Steps kind owner name item true run added h = h
throw_unless_fits-Steps kind owner name item false run added h =
    throws kind owner name item invalid_data run

module _ (platform : Platform) (wid pid : ℕ) (bp_region : Option Text) where
  on_picked-Steps :
      (kind : ResourceKind) (owner : ℕ) (name : Text) (item : BlueprintPlanItem)
      (region : Option Text) (body : NodeRow → Run → Run) (run : Run)
      → ((node : NodeRow) → Steps kind owner name item run (body node run))
      → Steps kind owner name item run (on_picked platform wid pid bp_region region body run)
  unfolding on_picked
  on_picked-Steps kind owner name item region body run h =
      elim (Result-cases (pick_node wid none (non_empty region) run.store.nodes)) [
        | inl (node, e) ↦ rw (on_picked, e) (h node)
        | inr (t, e) ↦ rw (on_picked, e) (throws kind owner name item (app_error t) run)
      ]

  pub create_app-Steps :
      (item : BlueprintPlanItem) (a : BlueprintApp) (run : Run)
      → Steps app pid a.name item run (create_app platform wid pid bp_region item a run)
  unfolding create_app new_row
  create_app-Steps item a run =
      let row = app_row platform wid pid bp_region a in
      let clash = clashes app pid (λ r. has_slug (slugify a.name) r.columns) run.store in
      let added = add_app platform wid pid bp_region item a run in
      throw_unless_fits-Steps app pid a.name item (fits_int (to_mb platform a.resources.memory 512))
        run (throw_if_clash clash run added)
        (throw_if_clash-Steps app pid a.name item clash run added (
          ((new_row pid a.name row run ∷ [], refl), refl),
          λ e. (found pid a.name row run.store.next_id run.store.rows, refl),
        ))

  pub create_cron-Steps :
      (item : BlueprintPlanItem) (c : BlueprintCron) (run : Run)
      → Steps cron pid c.name item run (create_cron platform wid pid bp_region item c run)
  unfolding create_cron
  create_cron-Steps item c run =
      add_row-Steps pid c.name (cron_row platform wid pid bp_region c) item run

  pub create_firewall-Steps :
      (item : BlueprintPlanItem) (fw : BlueprintFirewall) (run : Run)
      → Steps firewall wid fw.name item run (create_firewall platform wid pid bp_region item fw run)
  unfolding create_firewall
  create_firewall-Steps item fw run =
      add_row-Steps wid fw.name (firewall_row platform wid pid bp_region fw) item run

  pub create_database-Steps :
      (item : BlueprintPlanItem) (d : BlueprintDatabase) (run : Run)
      → Steps database pid d.name item run (create_database platform wid pid bp_region item d run)
  create_database-Steps item d run =
      let row = database_row platform wid pid bp_region d in
      let fits = database_fits platform wid pid bp_region d in
      let added = λ (node : NodeRow) (run : Run).
        add_with_job provision_database pid d.name (row node run) item run in
      unfold create_database in
      on_picked-Steps database pid d.name item (first_some d.region bp_region)
        (λ node run. throw_unless_fits fits run (added node run)) run
        (λ node.
          throw_unless_fits-Steps database pid d.name item fits run (added node run)
            (add_with_job-Steps provision_database pid d.name (row node run) item run))

  pub create_bucket-Steps :
      (item : BlueprintPlanItem) (b : BlueprintBucket) (run : Run)
      → Steps bucket pid b.name item run (create_bucket platform wid pid bp_region item b run)
  create_bucket-Steps item b run =
      let row = bucket_row platform wid pid bp_region b in
      let fits = fits_int (to_mb platform b.quota 51_200) in
      let clash = has_bucket platform wid pid bp_region b in
      let added = λ (node : NodeRow) (run : Run).
        add_with_job provision_bucket pid b.name (row node run) item run in
      unfold create_bucket in
      on_picked-Steps bucket pid b.name item (first_some b.region bp_region)
        (λ node run. throw_unless_fits fits run (throw_if_clash (clash run) run (added node run)))
        run
        (λ node.
          throw_unless_fits-Steps bucket pid b.name item fits run
            (throw_if_clash (clash run) run (added node run))
            (throw_if_clash-Steps bucket pid b.name item (clash run) run (added node run)
              (add_with_job-Steps provision_bucket pid b.name (row node run) item run)))

  pub create_function-Steps :
      (item : BlueprintPlanItem) (f : BlueprintFunction) (run : Run)
      → Steps function pid f.name item run (create_function platform wid pid bp_region item f run)
  create_function-Steps item f run =
      let row = function_row platform wid pid bp_region f in
      let fits = fits_int (to_mb platform f.memory 256) in
      let clash = has_function platform wid pid bp_region f in
      let added = λ (node : NodeRow) (run : Run).
        add_with_job deploy_function pid f.name (row node) item run in
      unfold create_function in
      on_picked-Steps function pid f.name item bp_region
        (λ node run. throw_unless_fits fits run (throw_if_clash (clash run) run (added node run)))
        run
        (λ node.
          throw_unless_fits-Steps function pid f.name item fits run
            (throw_if_clash (clash run) run (added node run))
            (throw_if_clash-Steps function pid f.name item (clash run) run (added node run)
              (add_with_job-Steps deploy_function pid f.name (row node) item run)))

  pub balance-Steps :
      (item : BlueprintPlanItem) (lb : BlueprintLoadBalancer) (t : ResolvedTarget)
      (ts : List ResolvedTarget) (run : Run)
      → Steps load_balancer pid lb.name item run
          (balance platform wid pid bp_region item lb (t ∷ ts) run)
  balance-Steps item lb t ts run =
      let row = load_balancer_row platform wid pid bp_region lb (t ∷ ts) in
      unfold balance in
      on_picked-Steps load_balancer pid lb.name item bp_region
        (λ node run. add_with_job provision_lb pid lb.name (row node) item run) run
        (λ node. add_with_job-Steps provision_lb pid lb.name (row node) item run)
