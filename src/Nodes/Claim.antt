-- ===== src/Nodes/Claim.antt =====
-- `claimCommands` of apps/api/src/routes/agent.ts: a poll hands a node its oldest queued commands and
-- marks them accepted.
use your_stack.Common.{
  ℕ, zero, suc, Bool, true, false, some, List, [], ◌∷◌, ◌&&◌, ◌==◌, ltb, any, filter, update,
  if◌then◌else◌,
}
use your_stack.Deploy.{NodeCommand, CommandStatus}

unfoldable pub is_queued : CommandStatus → Bool
is_queued CommandStatus.queued = true
is_queued _ = false

-- `orderBy: { issuedAt: 'asc' }`
unfoldable pub insert_command : NodeCommand → List NodeCommand → List NodeCommand
insert_command c [] = c ∷ []
insert_command c (d ∷ ds) =
    if ltb d.issued_at c.issued_at then d ∷ insert_command c ds else c ∷ d ∷ ds

unfoldable pub sort_commands : List NodeCommand → List NodeCommand
unfolding insert_command
sort_commands [] = []
sort_commands (c ∷ cs) = insert_command c (sort_commands cs)

unfoldable pub take {ℓ} : {A : Type ℓ} → ℕ → List A → List A
take zero xs = []
take (suc n) [] = []
take (suc n) (x ∷ xs) = x ∷ take n xs

-- `where: { nodeId, status: 'queued' }`
unfoldable pub queued_for : ℕ → List NodeCommand → List NodeCommand
unfolding is_queued
queued_for node cs = filter (λ c. c.node_id == node && is_queued c.status) cs

unfoldable pub accept : ℕ → NodeCommand → NodeCommand
accept now c = record c { status = CommandStatus.accepted; accepted_at = some now }

-- `updateMany({ where: { id: { in: ids }, status: 'queued' } })`
unfoldable pub accept_all : ℕ → List NodeCommand → List NodeCommand → List NodeCommand
unfolding accept is_queued
accept_all now chosen cs =
    update (λ c. any (λ d. d.id == c.id) chosen && is_queued c.status) (accept now) cs

unfoldable pub chosen_commands : ℕ → List NodeCommand → List NodeCommand
unfolding sort_commands take queued_for
chosen_commands node cs = take 10 (sort_commands (queued_for node cs))

-- The commands handed over, and the queue after.
unfoldable pub claim_commands : ℕ → ℕ → List NodeCommand → List NodeCommand × List NodeCommand
unfolding chosen_commands accept_all
claim_commands node now cs =
    let chosen = chosen_commands node cs in (chosen, accept_all now chosen cs)
