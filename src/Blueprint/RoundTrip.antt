-- ===== src/Blueprint/RoundTrip.antt =====
-- From GET /projects/:pid/blueprint to POST /blueprint/apply of apps/api/src/routes/blueprint.ts: what
-- is exported is planned again.
use your_stack.Common.{
  ℕ, ◌≡◌, refl, sym, ap, subst, ◌∙◌, Bool, true, false, not, ◌&&◌, Option, none, some, ◌==◌,
  if◌then◌else◌, find, All, Result-cases, inl, inr, arith, Result, ok, err, find-passes,
}
use your_stack.Rbac.{Permission}
use your_stack.Tenancy.Db.{Db, User}
use your_stack.Tenancy.{require_permission, WorkspaceMembership}
use your_stack.Blueprint.Schema.{Blueprint, ResourceKind, parsed}
use your_stack.Blueprint.Names.{Platform}
use your_stack.Blueprint.Store.{Store, Project, live_names}
use your_stack.Blueprint.Apply.{
  answered, existing_for, find_project, plan_for, apply_parsed, apply_blueprint,
}
use your_stack.Blueprint.Planned.{declared}
use your_stack.Blueprint.Export.{export_blueprint, get_blueprint}
use your_stack.Blueprint.Exported.{
  owner, IsExpected, declared-export_blueprint, export_blueprint-own, export_blueprint-new,
}

value_or : Blueprint → Result Blueprint → Blueprint
value_or a (ok b) = b
value_or a (err e) = a

ok_injective : (a b : Blueprint) → ok a ≡ ok b → a ≡ b
unfolding value_or
ok_injective a b e = ap (value_or a) e

get_blueprint-export :
    (db : Db) (req_user : Option User) (pid : ℕ) (s : Store) (p : Project) (bp : Blueprint)
    → find (λ q. q.id == pid && not q.deleted) s.projects ≡ some p
    → get_blueprint db req_user pid s ≡ ok bp
    → export_blueprint p.workspace_id pid p.name s.rows ≡ bp
unfolding get_blueprint
get_blueprint-export db req_user pid s p bp f e =
    elim (Result-cases (require_permission db req_user p.workspace_id Permission.project_view)) [
      | inl (m, h) ↦
          let given : get_blueprint db req_user pid s
              ≡ ok (export_blueprint p.workspace_id pid p.name s.rows) =
            rw (get_blueprint, f, h) refl in
          ok_injective (export_blueprint p.workspace_id pid p.name s.rows) bp (sym given ∙ e)
      | inr (t, h) ↦
          let given : get_blueprint db req_user pid s ≡ err t = rw (get_blueprint, f, h) refl in
          absurd (cc (given, e))
    ]

-- What a dry run answers of a blueprint, for a user who may apply it.
dry_run :
    (platform : Platform) (db : Db) (req_user : Option User) (wid : ℕ) (bp : Blueprint) (s : Store)
    (m : WorkspaceMembership)
    → require_permission db req_user wid Permission.blueprint_apply ≡ ok m
    → apply_blueprint platform db req_user
        (record { workspace_id = wid; blueprint = parsed bp; dry_run = true })
        s
      ≡ record { store = s; outcome = answered record { plan = plan_for wid bp s; applied = none } }
unfolding apply_blueprint apply_parsed
dry_run platform db req_user wid bp s m allowed = rw allowed refl

abbrev pub named_by : Bool → Project → Option Project
named_by own p = if own then some p else none

-- The plan of the export, where its project is found by the slug of its name or nothing is.
exported-plan :
    (own : Bool) (pid : ℕ) (s : Store) (p : Project)
    → p.id ≡ pid
    → find_project p.workspace_id (export_blueprint p.workspace_id pid p.name s.rows) s
      ≡ named_by own p
    → All
        (IsExpected own)
        (plan_for p.workspace_id (export_blueprint p.workspace_id pid p.name s.rows) s)
unfolding existing_for
exported-plan true pid s p id f = rw (f, id) (export_blueprint-own p.workspace_id pid p.name s.rows)
exported-plan false pid s p id f = rw f (export_blueprint-new p.workspace_id pid p.name s.rows)

-- The blueprint that is exported of a project declares the names of its live resources, in their order,
-- and the live firewalls of its workspace. For a user who may apply blueprints there, a dry run of it
-- changes nothing and answers with its plan. If the slug of the project's name finds the project itself,
-- the plan updates every resource; if it finds none, as for a project with a slug of its own, the plan
-- updates the firewalls and creates every other resource again.
pub apply_blueprint-get_blueprint :
    (platform : Platform) (db : Db) (req_user : Option User) (pid : ℕ) (s : Store) (p : Project)
    (bp : Blueprint) (m : WorkspaceMembership) (own : Bool)
    → find (λ q. q.id == pid && not q.deleted) s.projects ≡ some p
    → get_blueprint db req_user pid s ≡ ok bp
    → find_project p.workspace_id bp s ≡ named_by own p
    → require_permission db req_user p.workspace_id Permission.blueprint_apply ≡ ok m
    → ((kind : ResourceKind)
        → declared kind bp ≡ live_names kind (owner p.workspace_id pid p.name s.rows kind) s.rows)
      × (apply_blueprint platform db req_user
            (record { workspace_id = p.workspace_id; blueprint = parsed bp; dry_run = true })
            s
          ≡ record {
            store = s;
            outcome = answered record { plan = plan_for p.workspace_id bp s; applied = none };
          })
      × All (IsExpected own) (plan_for p.workspace_id bp s)
apply_blueprint-get_blueprint platform db req_user pid s p bp m own f e named allowed =
    let same = get_blueprint-export db req_user pid s p bp f e in
    let id : p.id ≡ pid =
      ground (arith, find-passes (λ q. q.id == pid && not q.deleted) s.projects p f) in
    (
      subst
          (λ b.
            (kind : ResourceKind)
            → declared kind b
              ≡ live_names kind (owner p.workspace_id pid p.name s.rows kind) s.rows)
          same (declared-export_blueprint p.workspace_id pid p.name s.rows),
      dry_run platform db req_user p.workspace_id bp s m allowed,
      subst (λ b. All (IsExpected own) (plan_for p.workspace_id b s)) same
          (exported-plan own pid s p id (ap (λ b. find_project p.workspace_id b s) same ∙ named)),
    )
