-- ===== src/Blueprint/Exported.antt =====
-- The names that exportBlueprint of apps/api/src/routes/blueprint.ts declares, and the actions that the
-- plan has for them.
use your_stack.Common.{
  ℕ, ◌≡◌, refl, ◌∙◌, ◌||◌, if◌then◌else◌, Bool, true, false, Option, some, List, [], ◌∷◌, map, any,
  filter, All, Bool-cases, Option-cases, inl, inr, arith,
}
use your_stack.Common.Text.{Text, eq_text_self}
use your_stack.Blueprint.Schema.{
  ResourceKind, app, database, bucket, function, cron, firewall, load_balancer, BlueprintPlanItem,
  update, create, BlueprintApp, BlueprintDatabase, BlueprintBucket, BlueprintFunction,
  BlueprintCron, BlueprintFirewall, BlueprintLoadBalancer,
}
use your_stack.Blueprint.Plan.{compute_blueprint_plan, plan_section, has_name, empty_existing}
use your_stack.Blueprint.Store.{ResourceRow, is_live, live_names, gather_existing}
use your_stack.Blueprint.Contract.{is_named}
use your_stack.Blueprint.Planned.{declared, has_name-live_names}
use your_stack.Blueprint.Replan.{sections-All}
use your_stack.Blueprint.Export.{
  app_of, database_of, bucket_of, function_of, cron_of, firewall_of, load_balancer_of, export_rows,
  export_blueprint,
}

-- Every live row has a live row of its name.
live_names-IsNamed :
    (kind : ResourceKind) (owner : ℕ) (rows all : List ResourceRow)
    → ((r : ResourceRow)
        → any (λ q. is_named kind owner r.name q) rows ≡ true
        → any (is_named kind owner r.name) all ≡ true)
    → All (λ n. any (is_named kind owner n) all ≡ true) (live_names kind owner rows)
live_names-IsNamed kind owner [] all h = tt
live_names-IsNamed kind owner (r ∷ rows) all h = elim (Bool-cases (is_live kind owner r)) [
  | inl t ↦ rw t (
    h r (rw (t, eq_text_self r.name) refl),
    live_names-IsNamed kind owner rows all (λ q e. h q (ground (arith, e))),
  )
  | inr t ↦ rw t (live_names-IsNamed kind owner rows all (λ q e. h q (ground (arith, e))))
]

-- The names of what is exported of a kind, where each live row of the kind is exported under its name.
export_rows-names :
    {A : Type 0} (kind : ResourceKind) (owner : ℕ) (of_row : ResourceRow → Option A)
    (name_of : A → Text) (rows : List ResourceRow)
    → ((r : ResourceRow)
        → is_live kind owner r ≡ true
        → (x : A) × (of_row r ≡ some x) × (name_of x ≡ r.name))
    → map name_of (export_rows of_row (filter (is_live kind owner) rows))
      ≡ live_names kind owner rows
unfolding export_rows
export_rows-names kind owner of_row name_of [] h = refl
export_rows-names kind owner of_row name_of (r ∷ rows) h =
    elim (Bool-cases (is_live kind owner r)) [
      | inl t ↦
          let (x, e, same) = h r t in
          rw (t, e, same, export_rows-names kind owner of_row name_of rows h) refl
      | inr t ↦ rw (t, export_rows-names kind owner of_row name_of rows h) refl
    ]

app_of-live :
    (owner : ℕ) (r : ResourceRow)
    → is_live app owner r ≡ true
    → (x : BlueprintApp) × (app_of r ≡ some x) × (x.name ≡ r.name)
unfolding app_of
app_of-live owner r e = elim (Option-cases (app_of r)) [
  | inl h ↦ absurd (ground (arith, e, h))
  | inr (x, h) ↦ (x, h, ground (arith, e, h))
]

database_of-live :
    (owner : ℕ) (r : ResourceRow)
    → is_live database owner r ≡ true
    → (x : BlueprintDatabase) × (database_of r ≡ some x) × (x.name ≡ r.name)
unfolding database_of
database_of-live owner r e = elim (Option-cases (database_of r)) [
  | inl h ↦ absurd (ground (arith, e, h))
  | inr (x, h) ↦ (x, h, ground (arith, e, h))
]

bucket_of-live :
    (owner : ℕ) (r : ResourceRow)
    → is_live bucket owner r ≡ true
    → (x : BlueprintBucket) × (bucket_of r ≡ some x) × (x.name ≡ r.name)
unfolding bucket_of
bucket_of-live owner r e = elim (Option-cases (bucket_of r)) [
  | inl h ↦ absurd (ground (arith, e, h))
  | inr (x, h) ↦ (x, h, ground (arith, e, h))
]

function_of-live :
    (owner : ℕ) (r : ResourceRow)
    → is_live function owner r ≡ true
    → (x : BlueprintFunction) × (function_of r ≡ some x) × (x.name ≡ r.name)
unfolding function_of
function_of-live owner r e = elim (Option-cases (function_of r)) [
  | inl h ↦ absurd (ground (arith, e, h))
  | inr (x, h) ↦ (x, h, ground (arith, e, h))
]

cron_of-live :
    (owner : ℕ) (r : ResourceRow)
    → is_live cron owner r ≡ true
    → (x : BlueprintCron) × (cron_of r ≡ some x) × (x.name ≡ r.name)
unfolding cron_of
cron_of-live owner r e = elim (Option-cases (cron_of r)) [
  | inl h ↦ absurd (ground (arith, e, h))
  | inr (x, h) ↦ (x, h, ground (arith, e, h))
]

firewall_of-live :
    (owner : ℕ) (r : ResourceRow)
    → is_live firewall owner r ≡ true
    → (x : BlueprintFirewall) × (firewall_of r ≡ some x) × (x.name ≡ r.name)
unfolding firewall_of
firewall_of-live owner r e = elim (Option-cases (firewall_of r)) [
  | inl h ↦ absurd (ground (arith, e, h))
  | inr (x, h) ↦ (x, h, ground (arith, e, h))
]

load_balancer_of-live :
    (owner : ℕ) (r : ResourceRow)
    → is_live load_balancer owner r ≡ true
    → (x : BlueprintLoadBalancer) × (load_balancer_of r ≡ some x) × (x.name ≡ r.name)
unfolding load_balancer_of
load_balancer_of-live owner r e = elim (Option-cases (load_balancer_of r)) [
  | inl h ↦ absurd (ground (arith, e, h))
  | inr (x, h) ↦ (x, h, ground (arith, e, h))
]

live_names-has_name :
    (kind : ResourceKind) (owner : ℕ) (rows : List ResourceRow)
    → All (λ n. has_name (live_names kind owner rows) n ≡ true) (live_names kind owner rows)
live_names-has_name kind owner rows =
    has_all (live_names kind owner rows) (live_names-IsNamed kind owner rows rows (λ r e. e))
  where
    has_all :
        (names : List Text)
        → All (λ n. any (is_named kind owner n) rows ≡ true) names
        → All (λ n. has_name (live_names kind owner rows) n ≡ true) names
    has_all [] h = tt
    has_all (n ∷ names) h = (has_name-live_names kind owner n rows ∙ h.0, has_all names h.1)

has_none : (names : List Text) → All (λ n. has_name [] n ≡ false) names
has_none [] = tt
has_none (n ∷ names) = (refl, has_none names)

abbrev pub is_firewall : ResourceKind → Bool
is_firewall firewall = true
is_firewall _ = false

-- A resource is updated where the blueprint's project is its own, and so is a firewall, which belongs to
-- the workspace; all else is created.
abbrev pub IsExpected : Bool → BlueprintPlanItem → Type 0
IsExpected own item = item.action ≡ (if own || is_firewall item.kind then update else create)

section-IsExpected :
    (own : Bool) (kind : ResourceKind) (names have : List Text)
    → All (λ n. has_name have n ≡ (own || is_firewall kind)) names
    → All (IsExpected own) (plan_section kind names have)
unfolding plan_section
section-IsExpected own kind [] have h = tt
section-IsExpected own kind (n ∷ names) have h =
    (rw (h.0) refl, section-IsExpected own kind names have h.1)

module _ (wid pid : ℕ) (name : Text) (rows : List ResourceRow) where
  abbrev pub owner : ResourceKind → ℕ
  owner firewall = wid
  owner _ = pid

  pub declared-export_blueprint :
      (kind : ResourceKind)
      → declared kind (export_blueprint wid pid name rows) ≡ live_names kind (owner kind) rows
  unfolding export_blueprint
  declared-export_blueprint app =
      export_rows-names app pid app_of (λ x. x.name) rows (app_of-live pid)
  declared-export_blueprint database =
      export_rows-names database pid database_of (λ x. x.name) rows (database_of-live pid)
  declared-export_blueprint bucket =
      export_rows-names bucket pid bucket_of (λ x. x.name) rows (bucket_of-live pid)
  declared-export_blueprint function =
      export_rows-names function pid function_of (λ x. x.name) rows (function_of-live pid)
  declared-export_blueprint cron =
      export_rows-names cron pid cron_of (λ x. x.name) rows (cron_of-live pid)
  declared-export_blueprint firewall =
      export_rows-names firewall wid firewall_of (λ x. x.name) rows (firewall_of-live wid)
  declared-export_blueprint load_balancer =
      export_rows-names load_balancer pid load_balancer_of (λ x. x.name) rows
        (load_balancer_of-live pid)

  -- What the plan compares with: the resources of the project itself, or, where the blueprint's project is
  -- not there, the firewalls alone.
  have : Bool → ResourceKind → List Text
  have true kind = live_names kind (owner kind) rows
  have false firewall = live_names firewall wid rows
  have false _ = []

  has_name-have :
      (own : Bool) (kind : ResourceKind)
      → All
          (λ n. has_name (have own kind) n ≡ (own || is_firewall kind))
          (live_names kind (owner kind) rows)
  unfolding have
  has_name-have true kind = live_names-has_name kind (owner kind) rows
  has_name-have false firewall = live_names-has_name firewall wid rows
  has_name-have false app = has_none (live_names app pid rows)
  has_name-have false database = has_none (live_names database pid rows)
  has_name-have false bucket = has_none (live_names bucket pid rows)
  has_name-have false function = has_none (live_names function pid rows)
  has_name-have false cron = has_none (live_names cron pid rows)
  has_name-have false load_balancer = has_none (live_names load_balancer pid rows)

  planned :
      (own : Bool) (kind : ResourceKind)
      → All
          (IsExpected own)
          (plan_section kind (declared kind (export_blueprint wid pid name rows)) (have own kind))
  planned own kind = rw (declared-export_blueprint kind) (
      section-IsExpected own kind (live_names kind (owner kind) rows) (have own kind)
        (has_name-have own kind))

  -- The plan of an export against the project itself, and against a project that is not there.
  pub export_blueprint-own :
      All
        (IsExpected true)
        (compute_blueprint_plan (export_blueprint wid pid name rows) (gather_existing wid pid rows))
  unfolding have compute_blueprint_plan gather_existing export_blueprint
  export_blueprint-own =
      sections-All (IsExpected true)
        (λ kind.
          plan_section kind (declared kind (export_blueprint wid pid name rows)) (have true kind))
        (planned true)

  pub export_blueprint-new : All (IsExpected false) (
      compute_blueprint_plan
        (export_blueprint wid pid name rows)
        (record empty_existing { firewalls = live_names firewall wid rows }))
  unfolding have compute_blueprint_plan export_blueprint
  export_blueprint-new =
      sections-All (IsExpected false)
        (λ kind.
          plan_section kind (declared kind (export_blueprint wid pid name rows)) (have false kind))
        (planned false)
