-- ===== src/Nodes/Interleaving.antt =====
-- Requests to POST /agent/register of apps/api/src/routes/agent.ts that interleave: each first reads the
-- join token and checks it, and later runs its transaction, with steps of others between the two.
use your_stack.Common.{ℕ, List, [], ◌∷◌, ◌++◌, ok, err, AppError}
use your_stack.Common.Text.{Text}
use your_stack.Nodes.Join.{
  JoinToken, JoinStore, Credentials, RegisterResponse, check_join_token, commit_registration,
}

-- A request, with the credentials that are generated for it.
pub record Attempt : Type 0 where
  pub now : ℕ
  pub join_token : Text
  pub name : Text
  pub credentials : Credentials

-- A request that passed the check of its token, with the row it read.
pub record Pending : Type 0 where
  pub attempt : Attempt
  pub token : JoinToken

-- The tables, the requests between their check and their transaction, and the answers, newest first.
pub record Window : Type 0 where
  pub store : JoinStore
  pub pending : List Pending
  pub responses : List RegisterResponse
  pub errors : List AppError

pub data RegisterStep : Type 0 where
  check : Attempt → RegisterStep
  commit : RegisterStep

module _ (hash_token : Text → Text) where
  -- A request reads its token; the one that waits longest runs its transaction and answers.
  unfoldable pub register_step : RegisterStep → Window → Window
  unfolding check_join_token commit_registration
  register_step (check a) w = elim (check_join_token hash_token a.now a.join_token w.store) [
    | ok t ↦ record w { pending = w.pending ++ (record { attempt = a; token = t } ∷ []) }
    | err e ↦ record w { errors = e ∷ w.errors }
  ]
  register_step commit w = elim w.pending [
    | [] ↦ w
    | p ∷ ps ↦
        let a = p.attempt in
        let r = commit_registration hash_token a.now a.name a.credentials p.token w.store in
        record w { store = r.store; pending = ps; responses = r.response ∷ w.responses }
  ]

  unfoldable pub register_steps : List RegisterStep → Window → Window
  unfolding register_step
  register_steps [] w = w
  register_steps (x ∷ xs) w = register_steps xs (register_step x w)
