-- ===== src/Tests/Arrivals.antt =====
-- A node that joins, a token that is revoked, a domain that is verified, and a batch of samples. The
-- digest of a token is the token.
use your_stack.Common.{
  ℕ, ◌≡◌, refl, true, false, none, some, List, [], ◌∷◌, map, filter, length, ok, err, AppError,
  ◌==◌, if◌then◌else◌,
}
use your_stack.Common.Text.{Text, codes, eq_text}
use your_stack.Rbac.{
  Permission, role_has_permission, has, role_permissions, set_from, owner_permissions,
  all_permissions,
}
use your_stack.Tenancy.{require_permission}
use your_stack.Nodes.{
  JoinToken, JoinStore, AgentNode, Credentials, Registered, check_join_token, commit_registration,
  register, authenticate_node, is_available,
}
use your_stack.Nodes.Joining.{authenticate_node-register}
use your_stack.Nodes.Interleaving.{Attempt, register_steps}
use your_stack.Nodes.Race.{together, opened, register_steps-together}
use your_stack.Sessions.{
  ApiToken, AuthStore, resolve_api_token_user, revoke_api_token, create_api_token, on_request,
}
use your_stack.Sessions.Validity.{
  resolve_api_token_user-revoke_api_token, on_request-create_api_token,
}
use your_stack.Domains.{Domain, DomainStatus, HostedApp, DomainStore}
use your_stack.Domains.Attempts.{run_attempts, status_of, is_resolved_from, run_attempts-settles}
use your_stack.Metrics.{
  MetricScope, MetricKey, MetricRow, MetricPoint, MetricBatch, MetricQuery, agent_metrics,
  query_metrics, is_in_window, to_point, bucket_timestamp,
}
use your_stack.Metrics.Upserts.{value_at, agent_metrics-value_at}
use your_stack.Metrics.Series.{IsOrdered, points_of, at_time, query_metrics-points}
use your_stack.Tests.Access.{alice, tables}

abbrev hash : Text → Text
hash token = token

abbrev ticket : JoinToken
ticket = record {
  id = 1;
  workspace_id = 10;
  token_hash = codes "ysj_a";
  label = none;
  region = none;
  expires_at = 900;
  used_at = none;
  used_by_node = none;
}

abbrev gate : JoinStore
gate = record {
  join_tokens = ticket ∷ [];
  nodes = [];
  labels = [];
  apps = [];
  max_nodes = λ w. 1;
  next_id = 2;
}

abbrev first : Credentials
first = record { raw_token = codes "f"; command_key = codes "k" }

abbrev second : Credentials
second = record { raw_token = codes "s"; command_key = codes "m" }

abbrev joined : Registered
joined = commit_registration hash 100 (codes "n1") first ticket gate

abbrev attempts : List Attempt
attempts =
    record { now = 100; join_token = codes "ysj_a"; name = codes "n1"; credentials = first }
    ∷ record { now = 101; join_token = codes "ysj_a"; name = codes "n2"; credentials = second }
    ∷ []

register_steps-together_example :
    (length (register_steps hash (together attempts) (opened gate)).store.nodes ≡ 2)
    × (length (register_steps hash (together attempts) (opened gate)).responses ≡ 2)
    × ((register_steps hash (together attempts) (opened gate)).errors ≡ [])
    × (check_join_token hash 102
          (codes "ysj_a")
          (register_steps hash (together attempts) (opened gate)).store
        ≡ err (AppError.unauthorized "Join token already used"))
unfolding check_join_token eq_text
register_steps-together_example =
    register_steps-together hash (codes "ysj_a") ticket
      (record { now = 100; join_token = codes "ysj_a"; name = codes "n1"; credentials = first })
      (record { now = 101; join_token = codes "ysj_a"; name = codes "n2"; credentials = second }
        ∷ [])
      102 gate ((refl, refl), ((refl, refl), tt))

authenticate_node-register_example :
    (t : JoinToken) × (n : AgentNode) × (check_join_token hash 100 (codes "ysj_a") gate ≡ ok t)
    × (authenticate_node hash (some joined.response.agent_token) joined.store ≡ ok n)
    × (n.row.id ≡ joined.response.node_id)
    × (n.command_key ≡ joined.response.command_verify_key)
    × (is_available t.workspace_id n.row ≡ true)
unfolding register check_join_token eq_text commit_registration
authenticate_node-register_example =
    authenticate_node-register hash 100 (codes "ysj_a") (codes "n1") first gate joined refl

abbrev key_of_alice : ApiToken
key_of_alice = record {
  id = 7;
  user_id = 1;
  workspace_id = some 10;
  token_hash = codes "ys_a";
  last_used_at = none;
  expires_at = none;
  revoked_at = none;
}

abbrev keys : AuthStore
keys = record { users = alice ∷ []; sessions = []; api_tokens = key_of_alice ∷ []; next_id = 8 }

abbrev revoked_keys : AuthStore
revoked_keys = record keys { api_tokens = record key_of_alice { revoked_at = some 50 } ∷ [] }

resolve_api_token_user-revoke_api_token_example :
    (resolve_api_token_user hash 60 (codes "ys_a") revoked_keys).user ≡ none
unfolding revoke_api_token role_has_permission has role_permissions set_from owner_permissions
    all_permissions require_permission
resolve_api_token_user-revoke_api_token_example =
    resolve_api_token_user-revoke_api_token hash tables (some alice) 50 10 7 60 (codes "ys_a") keys
      revoked_keys ((λ e. refl), tt) refl

abbrev more_keys : AuthStore
more_keys = record keys {
  api_tokens =
      record {
        id = 8;
        user_id = 1;
        workspace_id = some 10;
        token_hash = codes "ys_z";
        last_used_at = none;
        expires_at = some 86_400_010;
        revoked_at = none;
      }
      ∷ key_of_alice
      ∷ [];
  next_id = 9;
}

-- The token is used on the same day, in a workspace that is not its own.
on_request-create_api_token_example :
    ((on_request hash 20 none (some (codes "ys_z")) more_keys).user ≡ some alice)
    × (require_permission tables
          (on_request hash 20 none (some (codes "ys_z")) more_keys).user
          11
          Permission.app_view
        ≡ require_permission tables (some alice) 11 Permission.app_view)
unfolding create_api_token role_has_permission has role_permissions set_from owner_permissions
    all_permissions require_permission
on_request-create_api_token_example =
    on_request-create_api_token hash tables alice 10 10 (some 1) (codes "z") keys more_keys 20 11
      Permission.app_view refl refl

abbrev shop_site : Domain
shop_site = record {
  id = 5;
  app_id = 3;
  hostname = codes "shop.example";
  status = DomainStatus.pending;
  dns_target = codes "10.0.0.1";
  auto_https = true;
  last_checked_at = none;
  verified_at = none;
}

abbrev shop_app : HostedApp
shop_app = record {
  id = 3;
  workspace_id = 10;
  node = some record { id = 8; public_ip = some (codes "10.0.0.1") };
  port = 3000;
  deleted = false;
}

abbrev sites : DomainStore
sites = record {
  domains = shop_site ∷ [];
  apps = shop_app ∷ [];
  jobs = [];
  commands = [];
  next_id = 6;
}

-- The third attempt finds the address of the node.
abbrev answers : ℕ → Text → List Text
answers attempt name = if attempt == 2 then codes "10.0.0.1" ∷ [] else []

abbrev no_names : ℕ → Text → List Text
no_names attempt name = []

run_attempts-settles_example :
    ((run_attempts answers no_names (λ k. k) 10 (record { domain_id = 5; attempt = 0 }) sites).retry
      ≡ none)
    × (status_of 5
          (run_attempts answers no_names
            (λ k. k)
            10
            (record { domain_id = 5; attempt = 0 })
            sites).store
        ≡ some (
            if is_resolved_from answers no_names (λ k. k) 10 0 shop_site shop_app
            then DomainStatus.active
            else DomainStatus.failed))
run_attempts-settles_example =
    run_attempts-settles answers no_names (λ k. k) shop_site shop_app sites refl refl

abbrev sample : ℕ → Text → MetricPoint
sample at value = record {
  scope = MetricScope.app;
  target_id = 3;
  kind = codes "rps";
  value = value;
  instance_name = none;
  timestamp = some at;
}

abbrev batch : MetricBatch
batch = record {
  node_id = none;
  points = sample 61_000 (codes "4") ∷ sample 62_000 (codes "5") ∷ [];
}

abbrev minute : MetricKey
minute = record {
  scope = MetricScope.app;
  target_id = 3;
  kind = codes "rps";
  instance_name = [];
  bucket_ts = 60_000;
}

agent_metrics-value_at_example :
    (value_at minute (agent_metrics 8 batch []).rows ≡ some (codes "5"))
    × ((agent_metrics 8 batch []).count ≡ 2)
unfolding value_at eq_text bucket_timestamp
agent_metrics-value_at_example = agent_metrics-value_at 8 batch [] minute

abbrev query : MetricQuery
query = record { scope = MetricScope.app; target_id = 3; kinds = none; window_seconds = 3600 }

abbrev stored : MetricRow
stored = record { key = minute; value = codes "5"; node_id = some 8 }

query_metrics-points_example :
    IsOrdered (points_of (codes "rps") (query_metrics 70_000 query (stored ∷ [])))
    × (filter
          (λ p. p.t == 60_000)
          (points_of (codes "rps") (query_metrics 70_000 query (stored ∷ [])))
        ≡ map to_point (
            filter
              (at_time (codes "rps") 60_000)
              (filter (is_in_window 70_000 query) (stored ∷ []))))
query_metrics-points_example = query_metrics-points 70_000 query (stored ∷ []) (codes "rps") 60_000
