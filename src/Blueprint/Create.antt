-- ===== src/Blueprint/Create.antt =====
-- The bodies of the loops of POST /blueprint/apply in apps/api/src/routes/blueprint.ts: what each
-- declared resource that is new adds to the tables.
use your_stack.Common.{
  ◌&&◌, ℕ, Bool, false, Option, none, some, List, [], ◌∷◌, ◌++◌, or_else, ok, err,
}
use your_stack.Common.Text.{Text, codes, eq_text}
use your_stack.Cron.{CronJobStatus}
use your_stack.Network.{FirewallStatus, LbStatus}
use your_stack.Nodes.{NodeRow, pick_node, allocate_port}
use your_stack.Resources.{DatabaseStatus, BucketStatus, FunctionStatus}
use your_stack.Secrets.{if_http, non_empty}
use your_stack.Blueprint.Schema.{
  app, bucket, function, BlueprintPlanItem, BlueprintApp, BlueprintDatabase, BlueprintBucket,
  BlueprintFunction, BlueprintCron, BlueprintFirewall, BlueprintLoadBalancer, LbAlgorithm,
}
use your_stack.Blueprint.Names.{Platform, ResolvedTarget, slugify, to_mb, resolve_lb_targets}
use your_stack.Blueprint.Store.{
  ResourceColumns, Run, app_error, AppColumns, FirewallColumns, app_columns, database_columns,
  bucket_columns, function_columns, cron_columns, firewall_columns, load_balancer_columns,
  provision_database, provision_bucket, deploy_function, provision_lb,
}
use your_stack.Blueprint.Inserts.{
  throw, first_some, created, clashes, add_row, add_with_job, throw_if_clash, throw_unless_fits,
  fits_int, has_slug, insert_app, remember, endpoint_of, policy_text, rule_rows, app_addresses,
  explicit_of,
}

module _ (platform : Platform) (wid pid : ℕ) (bp_region : Option Text) where
  -- `pickNode` with what follows it. The row is there, so `findUniqueOrThrow` does not throw.
  unfoldable pub on_picked : Option Text → (NodeRow → Run → Run) → Run → Run
  on_picked region body run = elim (pick_node wid none (non_empty region) run.store.nodes) [
    | err e ↦ throw (app_error e) run
    | ok node ↦ body node run
  ]

  abbrev pub app_data : BlueprintApp → AppColumns
  app_data a = record {
    slug = slugify a.name;
    source = record {
      framework = a.framework;
      repo_url = if_http a.source;
      branch = or_else a.branch (codes "main");
      install_command = none;
      build_command = a.build;
      start_command = a.start;
    };
    port = or_else a.port 3000;
    cpu = or_else a.resources.cpu (codes "0.5");
    memory_mb = to_mb platform a.resources.memory 512;
    healthcheck_path = codes "/";
    domains = [];
  }

  abbrev pub app_row : BlueprintApp → ResourceColumns
  app_row a = app_columns (app_data a)

  abbrev pub add_app : BlueprintPlanItem → BlueprintApp → Run → Run
  add_app item a run = created item (
      remember a.name record { app_id = run.store.next_id; port = or_else a.port 3000 }
        (record run { store = insert_app pid a.name (app_row a) run.store }))

  unfoldable pub create_app : BlueprintPlanItem → BlueprintApp → Run → Run
  create_app item a run = throw_unless_fits (fits_int (to_mb platform a.resources.memory 512)) run (
      throw_if_clash (clashes app pid (λ r. has_slug (slugify a.name) r.columns) run.store) run
        (add_app item a run))

  abbrev pub database_row : BlueprintDatabase → NodeRow → Run → ResourceColumns
  database_row d node run = database_columns record {
    node_id = some node.id;
    engine = d.engine;
    version = or_else d.version (codes "16");
    status = DatabaseStatus.provisioning;
    region = first_some node.region (first_some d.region bp_region);
    host = run.store.public_ip node.id;
    port = some (
        allocate_port (codes "db-" ++ (platform.id_text pid ++ (codes "-" ++ d.name))) 20_000
          20_000);
    storage_mb = to_mb platform d.storage 10_240;
    cpu = or_else d.resources.cpu (codes "1");
    memory_mb = to_mb platform d.resources.memory 1024;
  }

  abbrev pub database_fits : BlueprintDatabase → Bool
  database_fits d =
      fits_int (to_mb platform d.storage 10_240)
      && fits_int (to_mb platform d.resources.memory 1024)

  unfoldable pub create_database : BlueprintPlanItem → BlueprintDatabase → Run → Run
  unfolding on_picked
  create_database item d run =
      on_picked (first_some d.region bp_region)
        (λ node run.
          throw_unless_fits (database_fits d) run
            (add_with_job provision_database pid d.name (database_row d node run) item run))
        run

  abbrev pub bucket_row : BlueprintBucket → NodeRow → Run → ResourceColumns
  bucket_row b node run = bucket_columns record {
    node_id = some node.id;
    status = BucketStatus.provisioning;
    region = first_some node.region (first_some b.region bp_region);
    endpoint = endpoint_of (non_empty (run.store.public_ip node.id)) (
        allocate_port (codes "obj-" ++ (platform.id_text pid ++ (codes "-" ++ b.name))) 20_000
          20_000);
    is_public = or_else b.is_public false;
    quota_mb = to_mb platform b.quota 51_200;
  }

  abbrev pub has_bucket : BlueprintBucket → Run → Bool
  has_bucket b run = clashes bucket pid (λ r. eq_text r.name b.name) run.store

  unfoldable pub create_bucket : BlueprintPlanItem → BlueprintBucket → Run → Run
  unfolding on_picked
  create_bucket item b run =
      on_picked (first_some b.region bp_region)
        (λ node run. throw_unless_fits (fits_int (to_mb platform b.quota 51_200)) run (
          throw_if_clash (has_bucket b run) run
            (add_with_job provision_bucket pid b.name (bucket_row b node run) item run)))
        run

  abbrev pub function_row : BlueprintFunction → NodeRow → ResourceColumns
  function_row f node = function_columns record {
    node_id = some node.id;
    runtime = f.runtime;
    status = FunctionStatus.deploying;
    handler = or_else f.handler (codes "index.handler");
    region = first_some node.region bp_region;
    memory_mb = to_mb platform f.memory 256;
    repo_url = if_http f.source;
  }

  abbrev pub has_function : BlueprintFunction → Run → Bool
  has_function f run = clashes function pid (λ r. eq_text r.name f.name) run.store

  unfoldable pub create_function : BlueprintPlanItem → BlueprintFunction → Run → Run
  unfolding on_picked
  create_function item f run =
      on_picked bp_region
        (λ node run. throw_unless_fits (fits_int (to_mb platform f.memory 256)) run (
          throw_if_clash (has_function f run) run
            (add_with_job deploy_function pid f.name (function_row f node) item run)))
        run

  abbrev pub cron_row : BlueprintCron → ResourceColumns
  cron_row c = cron_columns record {
    node_id = none;
    schedule = c.schedule;
    image = c.image;
    command = c.command;
    status = CronJobStatus.active;
    region = bp_region;
  }

  unfoldable pub create_cron : BlueprintPlanItem → BlueprintCron → Run → Run
  create_cron item c run = add_row pid c.name (cron_row c) item run

  abbrev pub firewall_data : BlueprintFirewall → FirewallColumns
  firewall_data fw = record {
    status = FirewallStatus.draft;
    default_inbound = policy_text fw.default_inbound;
    default_outbound = "allow";
    node_ids = or_else fw.nodes [];
    rules = rule_rows 0 fw.rules;
  }

  abbrev pub firewall_row : BlueprintFirewall → ResourceColumns
  firewall_row fw = firewall_columns (firewall_data fw)

  unfoldable pub create_firewall : BlueprintPlanItem → BlueprintFirewall → Run → Run
  create_firewall item fw run = add_row wid fw.name (firewall_row fw) item run

  abbrev pub targets_of : BlueprintLoadBalancer → Run → List ResolvedTarget
  targets_of lb run =
      resolve_lb_targets platform (app_addresses run.app_address_by_name lb.targets)
        (explicit_of run.app_address_by_name lb.targets)

  abbrev pub load_balancer_row :
      BlueprintLoadBalancer → List ResolvedTarget → NodeRow → ResourceColumns
  load_balancer_row lb targets node = load_balancer_columns record {
    node_id = some node.id;
    status = LbStatus.provisioning;
    listen_port = lb.port;
    algorithm = or_else lb.algorithm LbAlgorithm.round_robin;
    region = first_some node.region bp_region;
    domain = lb.domain;
    auto_https = or_else lb.auto_https false;
    targets = targets;
  }

  -- A load balancer without a target is skipped.
  unfoldable pub balance :
      BlueprintPlanItem → BlueprintLoadBalancer → List ResolvedTarget → Run → Run
  unfolding on_picked
  balance item lb [] run = run
  balance item lb (t ∷ ts) run =
      on_picked bp_region
        (λ node run.
          add_with_job provision_lb pid lb.name (load_balancer_row lb (t ∷ ts) node) item run)
        run

  unfoldable pub create_load_balancer : BlueprintPlanItem → BlueprintLoadBalancer → Run → Run
  unfolding balance
  create_load_balancer item lb run = balance item lb (targets_of lb run) run
