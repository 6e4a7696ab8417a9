-- ===== src/Tests/Blueprints.antt =====
-- A blueprint with an app from a container image, a database, a cron job, a firewall and a load balancer
-- in front of the app, applied to an empty workspace.
use your_stack.Common.{ℕ, ◌+◌, ◌-◌, ◌*◌, ◌≡◌, refl, true, false, none, some, [], ◌∷◌, All}
use your_stack.Common.Text.{Text, codes, decimal, eq_text, is_space, trim, trim_start, has_prefix}
use your_stack.Rbac.{
  WorkspaceRole, role_has_permission, has, role_permissions, set_from, owner_permissions,
  all_permissions,
}
use your_stack.Tenancy.{require_permission}
use your_stack.Network.{deny, is_blank}
use your_stack.Nodes.{pick_node}
use your_stack.Resources.{DatabaseEngine}
use your_stack.Secrets.{resolve_source, is_http, image, demo_fallback_image}
use your_stack.Blueprint.Schema.{
  Blueprint, BlueprintApp, BlueprintPlanItem, ResourceKind, app, parsed, create, whole,
}
use your_stack.Blueprint.Names.{Platform, slugify, resolve_lb_targets, to_mb}
use your_stack.Blueprint.Plan.{compute_blueprint_plan}
use your_stack.Blueprint.Store.{Project, Store, ResourceRow, AppColumns, app_columns, live_names}
use your_stack.Blueprint.Inserts.{app_addresses}
use your_stack.Blueprint.Create.{
  create_app, create_database, create_cron, create_firewall, create_load_balancer,
}
use your_stack.Blueprint.Apply.{
  ApplyRequest, Response, Answer, Outcome, answered, failed, apply_blueprint, apply_parsed,
  existing_for, plan_for, start,
}
use your_stack.Blueprint.Loops.{new_items}
use your_stack.Blueprint.Planned.{declared}
use your_stack.Blueprint.Replan.{IsUpdate}
use your_stack.Blueprint.Again.{apply_blueprint-again}
use your_stack.Blueprint.Additive.{Adds, apply_blueprint-Adds}
use your_stack.Blueprint.Export.{export_blueprint, get_blueprint}
use your_stack.Blueprint.Exported.{owner, IsExpected}
use your_stack.Blueprint.RoundTrip.{apply_blueprint-get_blueprint}
use your_stack.Blueprint.Sources.{create_app-resolve_source}
use your_stack.Tests.Access.{alice, tables}
use your_stack.Tests.Fleet.{fleet}

-- The number that digits write, times the factor.
abbrev number_from : ℕ → Text → ℕ
number_from n [] = n
number_from n (c ∷ s) = number_from (10 * n + (c - 48)) s

abbrev platform : Platform
platform = record {
  id_text = decimal;
  round_number = λ text scale. whole (number_from 0 text * scale);
}

abbrev web : BlueprintApp
web = record {
  name = codes "Web";
  source = some (codes "nginx:1.27");
  image = none;
  branch = none;
  framework = none;
  build = none;
  start = none;
  port = none;
  env = [];
  resources = record { cpu = none; memory = none };
  region = none;
  domains = [];
  scaling = none;
}

abbrev shop : Blueprint
shop = record {
  project = codes "Shop";
  region = none;
  apps = web ∷ [];
  databases =
      record {
        name = codes "db";
        engine = DatabaseEngine.postgres;
        version = none;
        storage = none;
        resources = record { cpu = none; memory = none };
        region = none;
      }
      ∷ [];
  buckets = [];
  functions = [];
  cron =
      record {
        name = codes "tick";
        schedule = codes "* * * * *";
        image = codes "busybox";
        command = none;
      }
      ∷ [];
  firewalls = record { name = codes "wall"; nodes = none; default_inbound = deny; rules = [] } ∷ [];
  load_balancers =
      record {
        name = codes "lb";
        port = 80;
        algorithm = none;
        targets = codes "Web" ∷ [];
        domain = none;
        auto_https = none;
      }
      ∷ [];
}

abbrev shelf : Store
shelf = record {
  projects = [];
  rows = [];
  environments = [];
  nodes = fleet;
  public_ip = λ id. none;
  jobs = [];
  audit_log = [];
  next_id = 5000;
}

abbrev request : ApplyRequest
request = record { workspace_id = 10; blueprint = parsed shop; dry_run = false }

abbrev response : Response
response = apply_blueprint platform tables (some alice) request shelf

abbrev answer_of : Outcome → Answer
answer_of (failed t) = record { plan = []; applied = none }
answer_of (answered a) = a

abbrev answer : Answer
answer = answer_of response.outcome

apply_blueprint-again_example :
    (answer.applied ≡ some (new_items answer.plan))
    × (apply_blueprint platform tables
          (some alice)
          (record request { dry_run = true })
          response.store
        ≡ record {
          store = response.store;
          outcome = answered record { plan = plan_for 10 shop response.store; applied = none };
        })
    × All IsUpdate (plan_for 10 shop response.store)
unfolding apply_blueprint role_has_permission has role_permissions set_from owner_permissions
    all_permissions require_permission pick_node eq_text is_space trim trim_start is_blank
    apply_parsed compute_blueprint_plan existing_for create_app create_database create_cron
    create_firewall create_load_balancer resolve_lb_targets app_addresses to_mb
apply_blueprint-again_example =
    apply_blueprint-again platform tables (some alice) request shop shelf response.store answer refl
      refl (refl, tt) refl

apply_blueprint-Adds_example : Adds shelf response.store
apply_blueprint-Adds_example = apply_blueprint-Adds platform tables (some alice) request shelf

abbrev shop_project : Project
shop_project = record {
  id = 5000;
  workspace_id = 10;
  name = codes "Shop";
  slug = codes "shop";
  deleted = false;
}

abbrev exported : Blueprint
exported = export_blueprint 10 5000 (codes "Shop") response.store.rows

apply_blueprint-get_blueprint_example :
    ((kind : ResourceKind)
      → declared kind exported
        ≡ live_names kind
            (owner 10 5000 (codes "Shop") response.store.rows kind)
            response.store.rows)
    × (apply_blueprint platform tables
          (some alice)
          (record { workspace_id = 10; blueprint = parsed exported; dry_run = true })
          response.store
        ≡ record {
          store = response.store;
          outcome = answered record { plan = plan_for 10 exported response.store; applied = none };
        })
    × All (IsExpected true) (plan_for 10 exported response.store)
unfolding get_blueprint slugify apply_blueprint role_has_permission has role_permissions set_from
    owner_permissions all_permissions require_permission pick_node eq_text is_space trim trim_start
    is_blank apply_parsed compute_blueprint_plan existing_for create_app create_database create_cron
    create_firewall create_load_balancer resolve_lb_targets app_addresses to_mb
apply_blueprint-get_blueprint_example =
    apply_blueprint-get_blueprint platform tables (some alice) 5000 response.store shop_project
      exported (record { workspace_id = 10; role = WorkspaceRole.owner }) true refl refl refl refl

abbrev item : BlueprintPlanItem
item = record { kind = app; name = codes "Web"; action = create }

create_app-resolve_source_example :
    (row : ResourceRow) × (c : AppColumns) × ((create_app platform 10 5000 none item web
        (start shelf)).store.rows
      ≡ row ∷ [])
    × (row.columns ≡ app_columns c)
    × (resolve_source (λ t. some t) c.source none (codes "main") ≡ image demo_fallback_image)
unfolding has_prefix create_app is_http to_mb
create_app-resolve_source_example =
    create_app-resolve_source platform 10 5000 none item web (start shelf) (λ t. some t)
      (codes "main") refl
