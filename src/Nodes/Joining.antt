-- ===== src/Nodes/Joining.antt =====
-- Join tokens are for one node, as long as requests do not interleave; and the agents that are
-- recognized.
use your_stack.Common.{
  ℕ, ◌≡◌, refl, sym, ap, subst, ◌∙◌, Bool, true, false, Option, none, some, List, [], ◌∷◌, ◌==◌,
  find, update, All, if◌then◌else◌, Bool-cases, Result-cases, inl, inr, arith, ok, err, AppError,
  ==_self,
}
use your_stack.Common.Text.{Text, codes, eq_text_self, has_prefix}
use your_stack.Tenancy.Db.{Db, User}
use your_stack.Nodes.State.{NodeStatus}
use your_stack.Nodes.Placement.{is_available}
use your_stack.Nodes.Join.{
  JoinToken, AgentNode, JoinStore, Credentials, Registered, agent_token_of, use_token, has_hash,
  node_of_token, authenticate_node, verify_token, is_token, check_join_token, commit_registration,
  register, remove_agent, delete_node,
}

-- The row that is found is still found after an update that covers it.
pub find-update_covering :
    {A : Type 0} (p q : A → Bool) (f : A → A) (xs : List A) (a : A)
    → ((x : A) → p (f x) ≡ p x)
    → find p xs ≡ some a
    → q a ≡ true
    → find p (update q f xs) ≡ some (f a)
find-update_covering p q f [] a same h c = absurd (cc h)
find-update_covering p q f (x ∷ xs) a same h c = ground (
  arith,
  h,
  c,
  same x,
  find-update_covering p q f xs a same,
  ap q {x = x} {y = a},
  ap f {x = x} {y = a},
)

module _ (hash_token : Text → Text) where
  pub check-found :
      (now : ℕ) (join_token : Text) (s : JoinStore) (t : JoinToken)
      → check_join_token hash_token now join_token s ≡ ok t
      → (find (is_token hash_token join_token) s.join_tokens ≡ some t) × (t.used_at ≡ none)
  unfolding check_join_token
  check-found now join_token s t e = ground (arith, e)

  register-commits :
      (now : ℕ) (join_token name : Text) (c : Credentials) (s : JoinStore) (r : Registered)
      → register hash_token now join_token name c s ≡ ok r
      → (t : JoinToken) × (check_join_token hash_token now join_token s ≡ ok t)
        × (commit_registration hash_token now name c t s ≡ r)
  unfolding register
  register-commits now join_token name c s r e =
      elim (Result-cases (check_join_token hash_token now join_token s)) [
        | inl (t, h) ↦ (t, h, ground (arith, e, h))
        | inr (x, h) ↦ absurd (ground (arith, e, h))
      ]

  -- The token that a registration used is refused from then on.
  used-check_join_token :
      (now later : ℕ) (join_token name : Text) (c : Credentials) (t : JoinToken) (s : JoinStore)
      → check_join_token hash_token now join_token s ≡ ok t
      → check_join_token hash_token later join_token
          (commit_registration hash_token now name c t s).store
        ≡ err (AppError.unauthorized "Join token already used")
  unfolding check_join_token commit_registration
  used-check_join_token now later join_token name c t s e =
      let found = (check-found now join_token s t e).0 in
      let again =
        find-update_covering (is_token hash_token join_token) (λ u. u.id == t.id)
          (use_token now s.next_id) s.join_tokens t (λ u. refl) found (==_self t.id) in
      rw (check_join_token, again) refl

  -- After a node registered with a join token, every later registration with the token is refused.
  pub register-register :
      (now later : ℕ) (join_token name other : Text) (c d : Credentials) (s : JoinStore)
      (r : Registered)
      → register hash_token now join_token name c s ≡ ok r
      → register hash_token later join_token other d r.store
        ≡ err (AppError.unauthorized "Join token already used")
  register-register now later join_token name other c d s r e =
      let (t, h, committed) = register-commits now join_token name c s r e in
      subst
        (λ q.
          register hash_token later join_token other d q.store
          ≡ err (AppError.unauthorized "Join token already used"))
        committed
        (unfold register in rw (used-check_join_token now later join_token name c t s h) refl)

  abbrev IsRecognized : ℕ → Text → JoinStore → Registered → Type 0
  IsRecognized now join_token s r =
      (t : JoinToken) × (n : AgentNode) × (check_join_token hash_token now join_token s ≡ ok t)
      × (authenticate_node hash_token (some r.response.agent_token) r.store ≡ ok n)
      × (n.row.id ≡ r.response.node_id)
      × (n.command_key ≡ r.response.command_verify_key)
      × (is_available t.workspace_id n.row ≡ true)

  committed-IsRecognized :
      (now : ℕ) (join_token name : Text) (c : Credentials) (t : JoinToken) (s : JoinStore)
      → check_join_token hash_token now join_token s ≡ ok t
      → IsRecognized now join_token s (commit_registration hash_token now name c t s)
  unfolding commit_registration authenticate_node node_of_token verify_token has_prefix is_available
  committed-IsRecognized now join_token name c t s h =
      let self = eq_text_self (hash_token (agent_token_of c)) in
      let node : AgentNode = record {
        row = record {
          id = s.next_id;
          workspace_id = t.workspace_id;
          status = NodeStatus.online;
          region = t.region;
          disabled = false;
          last_heartbeat_at = some now;
          deleted = false;
        };
        name = name;
        command_key = c.command_key;
        agent_token_hash = some (hash_token (agent_token_of c));
      } in
      (t, node, h, rw (self, self) refl, refl, refl, rw (==_self t.workspace_id) refl)

  -- A node that registered is recognized by the token of the answer, has the key of the answer for its
  -- commands, and placement counts it as available in the workspace of the join token.
  pub authenticate_node-register :
      (now : ℕ) (join_token name : Text) (c : Credentials) (s : JoinStore) (r : Registered)
      → register hash_token now join_token name c s ≡ ok r
      → (t : JoinToken) × (n : AgentNode) × (check_join_token hash_token now join_token s ≡ ok t)
        × (authenticate_node hash_token (some r.response.agent_token) r.store ≡ ok n)
        × (n.row.id ≡ r.response.node_id)
        × (n.command_key ≡ r.response.command_verify_key)
        × (is_available t.workspace_id n.row ≡ true)
  authenticate_node-register now join_token name c s r e =
      let (t, h, committed) = register-commits now join_token name c s r e in
      subst (IsRecognized now join_token s) committed
        (committed-IsRecognized now join_token name c t s h)

  -- No node has the digest once the only one that had it is removed.
  removed-has_hash :
      (hash : Text) (id : ℕ) (nodes : List AgentNode)
      → All (λ n. has_hash hash_token hash n ≡ true → n.row.id ≡ id) nodes
      → find (has_hash hash_token hash) (update (λ n. n.row.id == id) remove_agent nodes) ≡ none
  removed-has_hash hash id [] h = refl
  removed-has_hash hash id (n ∷ nodes) h = elim (Bool-cases (n.row.id == id)) [
    | inl t ↦ rw t (removed-has_hash hash id nodes h.1)
    | inr t ↦ elim (Bool-cases (has_hash hash_token hash n)) [
      | inl u ↦ absurd (cc (t, h.0 u, ==_self id))
      | inr u ↦ rw (t, u) (removed-has_hash hash id nodes h.1)
    ]
  ]

  delete_node-nodes :
      (db : Db) (req_user : Option User) (id : ℕ) (s s' : JoinStore)
      → delete_node db req_user id s ≡ ok s'
      → update (λ n. n.row.id == id) remove_agent s.nodes ≡ s'.nodes
  unfolding delete_node
  delete_node-nodes db req_user id s s' e = ground (arith, e)

  -- After a node was removed by a request, its agent's token is not recognized any more, if no other node
  -- has the token's digest.
  pub authenticate_node-delete_node :
      (db : Db) (req_user : Option User) (id : ℕ) (token : Text) (s s' : JoinStore)
      → All (λ n. has_hash hash_token (hash_token token) n ≡ true → n.row.id ≡ id) s.nodes
      → delete_node db req_user id s ≡ ok s'
      → authenticate_node hash_token (some token) s'
        ≡ err (
            if has_prefix (codes "ysa_") token
            then AppError.unauthorized "Invalid agent token"
            else AppError.unauthorized "Agent token required")
  unfolding authenticate_node node_of_token
  authenticate_node-delete_node db req_user id token s s' h e =
      let gone =
        sym (
          ap (find (has_hash hash_token (hash_token token)))
            (delete_node-nodes db req_user id s s' e))
        ∙ removed-has_hash (hash_token token) id s.nodes h in
      elim (Bool-cases (has_prefix (codes "ysa_") token)) [
        | inl t ↦ rw (node_of_token, t, gone) refl
        | inr t ↦ rw (node_of_token, t) refl
      ]
