-- ===== src/Webhooks/Delivery.antt =====
-- What a push delivers.
use your_stack.Common.{ℕ, Option, List, [], ◌∷◌, filter, is_some, String}
use your_stack.Common.Text.{Text}
use your_stack.Deploy.{App, Deployment, DeploymentStatus}
use your_stack.Webhooks.Process.{GitWebhook}

-- The app of a deployment, its status and its commit.
abbrev pub Seen : Type 0
Seen = ℕ × DeploymentStatus × Option String

abbrev pub seen : Deployment → Seen
seen d = (d.app_id, d.status, d.commit_sha)

-- Each of a list on top of another, one after the other.
abbrev pub onto {ℓ} : {A : Type ℓ} → List A → List A → List A
onto [] ys = ys
onto (x ∷ xs) ys = onto xs (x ∷ ys)

abbrev pub queued_for_push : GitWebhook → App → Seen
queued_for_push w a = (a.id, DeploymentStatus.queued, w.commit_sha)

abbrev pub placed : List App → List App
placed = filter (λ a. is_some a.node_id)
