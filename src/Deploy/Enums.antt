-- ===== src/Deploy/Enums.antt =====
-- The statuses of packages/shared/src/enums.ts that the deploy path uses.
use your_stack.Common.{ℕ, Bool, true, false, List, [], ◌∷◌}

pub data AppStatus : Type 0 where
  idle building deploying running failed stopped : AppStatus

pub data DeploymentStatus : Type 0 where
  queued building deploying running failed stopped rolled_back superseded : DeploymentStatus

-- `TERMINAL_DEPLOYMENT_STATUSES.includes`
unfoldable pub is_terminal : DeploymentStatus → Bool
is_terminal DeploymentStatus.queued = false
is_terminal DeploymentStatus.building = false
is_terminal DeploymentStatus.deploying = false
is_terminal _ = true

abbrev pub is_running : DeploymentStatus → Bool
is_running DeploymentStatus.running = true
is_running _ = false

pub data PipelineRunStatus : Type 0 where
  queued running succeeded failed canceled : PipelineRunStatus

abbrev pub run_is_running : PipelineRunStatus → Bool
run_is_running PipelineRunStatus.running = true
run_is_running _ = false

pub data StageName : Type 0 where
  checkout install test build package_stage deploy healthcheck finalize : StageName

-- `PIPELINE_STAGE_ORDER`
abbrev pub pipeline_stage_order : List StageName
pipeline_stage_order =
    checkout ∷ install ∷ test ∷ build ∷ package_stage ∷ deploy ∷ healthcheck ∷ finalize ∷ []

-- The place of a name in the order, by which names are compared.
abbrev pub stage_index : StageName → ℕ
stage_index checkout = 0
stage_index install = 1
stage_index test = 2
stage_index build = 3
stage_index package_stage = 4
stage_index deploy = 5
stage_index healthcheck = 6
stage_index finalize = 7

pub data StageStatus : Type 0 where
  pending running succeeded failed skipped : StageStatus

pub data CommandStatus : Type 0 where
  queued accepted running succeeded failed timed_out : CommandStatus

-- `['succeeded', 'failed', 'timed_out'].includes`
unfoldable pub is_final : CommandStatus → Bool
is_final CommandStatus.queued = false
is_final CommandStatus.accepted = false
is_final CommandStatus.running = false
is_final _ = true
