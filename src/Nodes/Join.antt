-- ===== src/Nodes/Join.antt =====
-- How a node joins, is recognized and is removed: POST /workspaces/:wid/nodes/join-token and DELETE
-- /nodes/:id of apps/api/src/routes/nodes.ts, authenticateNode and POST /agent/register of agent.ts, and
-- tokens.ts of packages/security with the digest as a parameter. Random texts are arguments.
use your_stack.Common.{
  ℕ, suc, ◌+◌, ◌*◌, Bool, true, false, not, ◌&&◌, Option, none, some, List, [], ◌∷◌, ◌++◌, ◌==◌,
  ltb, leb, find, count, update, is_some, Result, ok, err, AppError, ◌>>=◌, ◌>>◌, throw_if,
}
use your_stack.Common.Text.{Text, codes, eq_text, has_prefix}
use your_stack.Rbac.{Permission}
use your_stack.Tenancy.Db.{Db, User}
use your_stack.Tenancy.{require_permission, or_throw}
use your_stack.Nodes.State.{NodeRow, NodeStatus}

pub record JoinToken : Type 0 where
  pub id : ℕ
  pub workspace_id : ℕ
  pub token_hash : Text
  pub label : Option Text
  pub region : Option Text
  pub expires_at : ℕ
  pub used_at : Option ℕ
  pub used_by_node : Option ℕ

-- A row of the nodes with the columns that identify its agent.
pub record AgentNode : Type 0 where
  pub row : NodeRow
  pub name : Text
  pub command_key : Text
  pub agent_token_hash : Option Text

pub record NodeLabel : Type 0 where
  pub node_id : ℕ
  pub key : Text
  pub value : Text

pub record PlacedApp : Type 0 where
  pub id : ℕ
  pub node_id : Option ℕ

-- `max_nodes` is that of the plan of a workspace.
pub record JoinStore : Type 0 where
  pub join_tokens : List JoinToken
  pub nodes : List AgentNode
  pub labels : List NodeLabel
  pub apps : List PlacedApp
  pub max_nodes : ℕ → ℕ
  pub next_id : ℕ

-- What is generated for a node: the random part of its token, and the key for its commands.
pub record Credentials : Type 0 where
  pub raw_token : Text
  pub command_key : Text

pub record RegisterResponse : Type 0 where
  pub node_id : ℕ
  pub agent_token : Text
  pub command_verify_key : Text
  pub heartbeat_interval_ms : ℕ

pub record Registered : Type 0 where
  pub store : JoinStore
  pub response : RegisterResponse

abbrev pub agent_token_of : Credentials → Text
agent_token_of c = codes "ysa_" ++ c.raw_token

abbrev pub with_label : ℕ → Option Text → List NodeLabel → List NodeLabel
with_label id none labels = labels
with_label id (some []) labels = labels
with_label id (some (c ∷ s)) labels =
    record { node_id = id; key = codes "label"; value = c ∷ s } ∷ labels

abbrev pub use_token : ℕ → ℕ → JoinToken → JoinToken
use_token now node_id t = record t { used_at = some now; used_by_node = some node_id }

module _ (hash_token : Text → Text) where
  -- `verifyToken`: the digests are compared as texts.
  unfoldable pub verify_token : Text → Text → Bool
  verify_token plaintext stored_hash = eq_text (hash_token plaintext) stored_hash

  abbrev pub has_hash : Text → AgentNode → Bool
  has_hash hash n = elim n.agent_token_hash [ none ↦ false | some h ↦ eq_text h hash ]

  -- A token of the agents' form is looked up, compared and refused where its node is disabled.
  unfoldable pub node_of_token : Text → JoinStore → Result AgentNode
  unfolding verify_token
  node_of_token token s = do
    throw_if (not (has_prefix (codes "ysa_") token)) (AppError.unauthorized "Agent token required")
    node ←
        or_throw (find (has_hash (hash_token token)) s.nodes)
          (AppError.unauthorized "Invalid agent token")
    hash ← or_throw node.agent_token_hash (AppError.unauthorized "Invalid agent token")
    throw_if (not (verify_token token hash)) (AppError.unauthorized "Invalid agent token")
    throw_if node.row.disabled (AppError.forbidden "This node has been disabled")
    ok node

  -- `authenticateNode`
  unfoldable pub authenticate_node : Option Text → JoinStore → Result AgentNode
  unfolding node_of_token
  authenticate_node none s = err (AppError.unauthorized "Agent token required")
  authenticate_node (some token) s = node_of_token token s

  abbrev pub is_token : Text → JoinToken → Bool
  is_token join_token t = eq_text t.token_hash (hash_token join_token)

  -- What POST /agent/register reads and refuses.
  unfoldable pub check_join_token : ℕ → Text → JoinStore → Result JoinToken
  check_join_token now join_token s = do
    t ←
        or_throw (find (is_token join_token) s.join_tokens)
          (AppError.unauthorized "Invalid join token")
    throw_if (is_some t.used_at) (AppError.unauthorized "Join token already used")
    throw_if (ltb t.expires_at now) (AppError.unauthorized "Join token expired")
    ok t

  -- Its transaction, and the answer.
  unfoldable pub commit_registration : ℕ → Text → Credentials → JoinToken → JoinStore → Registered
  commit_registration now name c t s = record {
    store = record s {
      join_tokens = update (λ u. u.id == t.id) (use_token now s.next_id) s.join_tokens;
      nodes =
          record {
            row = record {
              id = s.next_id;
              workspace_id = t.workspace_id;
              status = NodeStatus.online;
              region = t.region;
              disabled = false;
              last_heartbeat_at = some now;
              deleted = false;
            };
            name = name;
            command_key = c.command_key;
            agent_token_hash = some (hash_token (agent_token_of c));
          }
          ∷ s.nodes;
      labels = with_label s.next_id t.label s.labels;
      next_id = suc s.next_id;
    };
    response = record {
      node_id = s.next_id;
      agent_token = agent_token_of c;
      command_verify_key = c.command_key;
      heartbeat_interval_ms = 15_000;
    };
  }

  -- POST /agent/register, where no other request comes between.
  unfoldable pub register : ℕ → Text → Text → Credentials → JoinStore → Result Registered
  unfolding check_join_token commit_registration
  register now join_token name c s = do
    t ← check_join_token now join_token s
    ok (commit_registration now name c t s)

  -- POST /workspaces/:wid/nodes/join-token, of a token with the given random part.
  unfoldable pub create_join_token :
      Db → Option User → ℕ → ℕ → Option Text → Option Text → Text → JoinStore → Result JoinStore
  create_join_token db req_user now wid label region raw s = do
    _ ← require_permission db req_user wid Permission.node_join
    throw_if
        (leb (s.max_nodes wid)
          (count (λ n. n.row.workspace_id == wid && not n.row.deleted) s.nodes))
        (AppError.plan_limit "Node limit reached")
    ok (record s {
      join_tokens =
          record {
            id = s.next_id;
            workspace_id = wid;
            token_hash = hash_token (codes "ysj_" ++ raw);
            label = label;
            region = region;
            expires_at = now + 15 * 60_000;
            used_at = none;
            used_by_node = none;
          }
          ∷ s.join_tokens;
      next_id = suc s.next_id;
    })

abbrev pub remove_agent : AgentNode → AgentNode
remove_agent n = record n {
  row = record n.row { deleted = true; status = NodeStatus.offline };
  agent_token_hash = none;
}

abbrev pub is_on : ℕ → PlacedApp → Bool
is_on id a = elim a.node_id [ none ↦ false | some n ↦ n == id ]

-- DELETE /nodes/:id
unfoldable pub delete_node : Db → Option User → ℕ → JoinStore → Result JoinStore
delete_node db req_user id s = do
  node ←
      or_throw (find (λ n. n.row.id == id && not n.row.deleted) s.nodes)
        (AppError.not_found "Node not found")
  _ ← require_permission db req_user node.row.workspace_id Permission.node_remove
  ok (record s {
    apps = update (is_on id) (λ a. record a { node_id = none }) s.apps;
    nodes = update (λ n. n.row.id == id) remove_agent s.nodes;
  })
