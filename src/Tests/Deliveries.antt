-- ===== src/Tests/Deliveries.antt =====
-- A push of a repository.
use your_stack.Common.{ℕ, false, none, some, [], ◌∷◌, ◌++◌}
use your_stack.Common.Text.{Text, codes, decimal}
use your_stack.Deploy.{App, AppStatus, Store}
use your_stack.Webhooks.{GitWebhook, WebhookStore}

abbrev site : App
site = record {
  id = 1;
  workspace_id = 10;
  node_id = some 7;
  branch = "main";
  port = "3000";
  status = AppStatus.running;
  current_deployment_id = none;
  deleted = false;
}

-- A workspace whose plan allows no deployment.
abbrev tables : Store
tables = record {
  apps = site ∷ [];
  deployments = [];
  runs = [];
  commands = [];
  nodes = [];
  workspaces = record { id = 10; max_deployments_per_day = 0 } ∷ [];
  usage = [];
  logs = [];
  jobs = [];
  next_id = 20;
}

abbrev pushed : GitWebhook
pushed = record {
  id = 3;
  repository_id = 2;
  event = codes "push";
  action = none;
  ref = some (codes "refs/heads/main");
  commit_sha = some "abc";
  pr_number = none;
  pr_ref = none;
  pr_sha = none;
  processed = false;
}

abbrev received : WebhookStore
received = record {
  tables = tables;
  webhooks = pushed ∷ [];
  links = record { app_id = 1; repository_id = 2 } ∷ [];
  domains = [];
}

abbrev host_of : ℕ → ℕ → Text
host_of app number = decimal app ++ (codes "-pr" ++ decimal number)
