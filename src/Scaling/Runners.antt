-- ===== src/Scaling/Runners.antt =====
-- apps/worker/src/processors/runner.ts: bringing the runners of a pool to the number that is wanted.
-- The text of an id is a parameter. A command whose node is not found throws and ends the job.
use your_stack.Common.{
  ℕ, zero, suc, ◌-◌, ◌*◌, Bool, true, false, Option, none, some, List, [], ◌∷◌, ◌++◌, ◌==◌, ◌&&◌,
  find, filter, any, update, length, ltb, or_else, if◌then◌else◌,
}
use your_stack.Common.Text.{Text, codes}
use your_stack.Nodes.{NodeRow, pick_online_node}

pub data RunnerStatus : Type 0 where
  registering : RunnerStatus
  idle : RunnerStatus
  busy : RunnerStatus
  offline : RunnerStatus

pub record Runner : Type 0 where
  pub id : ℕ
  pub pool_id : ℕ
  pub node_id : Option ℕ
  pub status : RunnerStatus
  pub container_name : Option Text

pub record RunnerPool : Type 0 where
  pub id : ℕ
  pub workspace_id : ℕ
  pub github_scope : Text
  pub labels : List Text
  pub min_runners : ℕ
  pub max_runners : ℕ

pub data RunnerPayload : Type 0 where
  register_runner :
      (runner_id pool_id : ℕ) (registration_token github_url : Text) (labels : List Text)
      (container_name : Text) (ephemeral : Bool)
      → RunnerPayload
  deregister_runner : (runner_id : ℕ) (container_name : Text) → RunnerPayload

pub record RunnerCommand : Type 0 where
  pub node_id : ℕ
  pub app_id : ℕ
  pub timeout_ms : Option ℕ
  pub payload : RunnerPayload

pub record RunnerStore : Type 0 where
  pub pools : List RunnerPool
  pub runners : List Runner
  pub nodes : List NodeRow
  pub commands : List RunnerCommand
  pub next_id : ℕ

abbrev pub is_offline : RunnerStatus → Bool
is_offline offline = true
is_offline _ = false

-- `pool.runners.filter((r) => r.status !== 'offline')`
abbrev pub is_live : ℕ → Runner → Bool
is_live pool_id r = r.pool_id == pool_id && (if is_offline r.status then false else true)

abbrev pub min : ℕ → ℕ → ℕ
min a b = if ltb a b then a else b

-- `Math.max` with 0 changes no natural number.
abbrev pub desired_runners : Option ℕ → RunnerPool → ℕ
desired_runners desired pool = min (or_else desired pool.min_runners) pool.max_runners

-- `slice`
unfoldable pub slice : ℕ → List Runner → List Runner
slice zero rs = rs
slice (suc n) [] = []
slice (suc n) (r ∷ rs) = slice n rs

abbrev pub placeholder_token : Text
placeholder_token = codes "PLACEHOLDER_CONNECT_GITHUB"

abbrev pub mark_offline : ℕ → List Runner → List Runner
mark_offline id = update (λ r. r.id == id) (λ r. record r { status = offline })

abbrev pub has_node : List NodeRow → Runner → Bool
has_node nodes r = elim r.node_id [ none ↦ true | some node_id ↦ any (λ n. n.id == node_id) nodes ]

module _ (text_of : ℕ → Text) where
  abbrev pub runner_container : ℕ → Text
  runner_container id = codes "yourstack-runner-" ++ text_of id

  -- One runner on a node: its row, named after its id, and the command that registers it.
  unfoldable pub add_runner : RunnerPool → ℕ → RunnerStore → RunnerStore
  add_runner pool node_id s =
      let runner : Runner = record {
        id = s.next_id;
        pool_id = pool.id;
        node_id = some node_id;
        status = registering;
        container_name = some (runner_container s.next_id);
      } in
      let command : RunnerCommand = record {
        node_id = node_id;
        app_id = s.next_id;
        timeout_ms = some (5 * 60_000);
        payload =
            register_runner s.next_id pool.id placeholder_token
              (codes "https://github.com/" ++ pool.github_scope) pool.labels
              (runner_container s.next_id) true;
      } in
      record s {
        runners = runner ∷ s.runners;
        commands = command ∷ s.commands;
        next_id = suc s.next_id;
      }

  -- The loop that adds runners, which ends where no node is online.
  unfoldable pub add_runners : ℕ → RunnerPool → RunnerStore → RunnerStore
  unfolding add_runner
  add_runners zero pool s = s
  add_runners (suc n) pool s = elim (pick_online_node pool.workspace_id s.nodes) [
    | none ↦ s
    | some node_id ↦ add_runners n pool (add_runner pool node_id s)
  ]

  -- The command for a runner that stands on a node.
  abbrev pub deregister_command : Runner → List RunnerCommand
  deregister_command r = elim r.node_id [
    | none ↦ []
    | some node_id ↦
        record {
          node_id = node_id;
          app_id = r.id;
          timeout_ms = none;
          payload = deregister_runner r.id (or_else r.container_name (runner_container r.id));
        }
        ∷ []
  ]

  -- The loop over the runners that are too many.
  unfoldable pub remove_runners : List Runner → RunnerStore → RunnerStore
  remove_runners [] s = s
  remove_runners (r ∷ rs) s =
      let rest = remove_runners rs (record s {
        commands = deregister_command r ++ s.commands;
        runners = mark_offline r.id s.runners;
      }) in
      if has_node s.nodes r then rest else s

  -- `processRunner`
  unfoldable pub process_runner : ℕ → Option ℕ → RunnerStore → RunnerStore
  unfolding add_runners remove_runners slice
  process_runner pool_id desired s = elim (find (λ p. p.id == pool_id) s.pools) [
    | none ↦ s
    | some pool ↦
        let wanted = desired_runners desired pool in
        let live = filter (is_live pool.id) s.runners in
        if ltb (length live) wanted
        then add_runners (wanted - length live) pool s
        else if ltb wanted (length live)
        then remove_runners (slice wanted live) s
        else s
  ]
