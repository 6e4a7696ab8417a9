-- ===== src/Cron/Jobs.antt =====
-- The cron processor apps/worker/src/processors/cron.ts, `applyCronRunResult` of
-- apps/api/src/services/command-result.service.ts and the PATCH handler of apps/api/src/routes/cron.ts
-- after its permission check. The calls of the queue, a package of its own, are kept as a log, newest
-- first, with the arguments that the source gives; what the queue does with them is not modelled. A job's image, command, environment and resources
-- only travel into the command and are left out.
use your_stack.Common.{
  ℕ, suc, ◌+◌, ◌*◌, Bool, true, false, Option, none, some, List, ◌∷◌, ◌==◌, any, find, update, not,
  ◌||◌, if◌then◌else◌, or_else, String,
}

pub data CronJobStatus : Type 0 where
  active paused running failed : CronJobStatus

pub data CronRunStatus : Type 0 where
  running success timeout failed : CronRunStatus

pub record CronJob : Type 0 where
  pub id : ℕ
  pub node_id : Option ℕ
  pub schedule : String
  pub status : CronJobStatus
  pub timeout_seconds : ℕ
  pub last_run_status : Option CronRunStatus
  pub deleted : Bool

pub record CronRun : Type 0 where
  pub id : ℕ
  pub cron_job_id : ℕ
  pub status : CronRunStatus
  pub exit_code : Option ℕ
  pub duration_ms : Option ℕ

-- A RUN_JOB command: the deadline of the command and the job's own.
pub record RunJobCommand : Type 0 where
  pub node_id : ℕ
  pub job_id : ℕ
  pub run_id : ℕ
  pub timeout_ms : ℕ
  pub spec_timeout_ms : ℕ

-- The text `cron:` with the id of a cron job.
pub data SchedulerId : Type 0 where
  cron_scheduler_id : (cron_job_id : ℕ) → SchedulerId

-- A call of the queue, with its arguments: `add` with `repeat: { pattern }` and `jobId`, and
-- `removeJobScheduler`.
pub data SchedulerCall : Type 0 where
  add : (cron_job_id : ℕ) (fire : Bool) (pattern : String) (job_id : SchedulerId) → SchedulerCall
  remove_job_scheduler : (scheduler_id : SchedulerId) → SchedulerCall

pub record CronStore : Type 0 where
  pub cron_jobs : List CronJob
  pub cron_runs : List CronRun
  pub nodes : List ℕ
  pub commands : List RunJobCommand
  pub scheduler_calls : List SchedulerCall
  pub next_id : ℕ

unfoldable pub is_active : CronJobStatus → Bool
is_active CronJobStatus.active = true
is_active _ = false

unfoldable pub is_paused : CronJobStatus → Bool
is_paused CronJobStatus.paused = true
is_paused _ = false

abbrev pub find_cron : ℕ → CronStore → Option CronJob
find_cron id s = find (λ c. c.id == id) s.cron_jobs

abbrev pub update_cron : ℕ → (CronJob → CronJob) → CronStore → CronStore
update_cron id f s = record s { cron_jobs = update (λ c. c.id == id) f s.cron_jobs }

abbrev pub scheduler_call : SchedulerCall → CronStore → CronStore
scheduler_call call s = record s { scheduler_calls = call ∷ s.scheduler_calls }

-- `cron && !cron.deletedAt && cron.status === CronJobStatus.ACTIVE`
unfoldable pub reconcile_found : ℕ → Option CronJob → CronStore → CronStore
unfolding is_active
reconcile_found id none s = scheduler_call (remove_job_scheduler (cron_scheduler_id id)) s
reconcile_found id (some cron) s =
    if cron.deleted || not (is_active cron.status)
    then scheduler_call (remove_job_scheduler (cron_scheduler_id id)) s
    else scheduler_call (add id true cron.schedule (cron_scheduler_id id)) s

unfoldable pub reconcile_scheduler : ℕ → CronStore → CronStore
unfolding reconcile_found
reconcile_scheduler id s = reconcile_found id (find_cron id s) s

-- The run's row, which stays when the command cannot be created.
unfoldable pub create_run : CronJob → CronStore → CronStore
create_run cron s = record s {
  cron_runs =
      record {
        id = s.next_id;
        cron_job_id = cron.id;
        status = CronRunStatus.running;
        exit_code = none;
        duration_ms = none;
      }
      ∷ s.cron_runs;
  next_id = suc s.next_id;
}

abbrev pub run_timeout_ms : CronJob → ℕ
run_timeout_ms cron = Prim.Native.Nat.max 1 cron.timeout_seconds * 1000

-- What follows the run's row: the command, then the job's status. A node that is not found throws.
unfoldable pub dispatch_run : CronJob → ℕ → ℕ → CronStore → CronStore
dispatch_run cron node run_id s =
    if any (λ n. n == node) s.nodes
    then update_cron cron.id (λ c. record c { status = CronJobStatus.running })
        (record s {
          commands =
              record {
                node_id = node;
                job_id = cron.id;
                run_id = run_id;
                timeout_ms = run_timeout_ms cron + 30_000;
                spec_timeout_ms = run_timeout_ms cron;
              }
              ∷ s.commands;
        })
    else s

unfoldable pub fire_on : CronJob → Option ℕ → CronStore → CronStore
unfolding is_paused create_run dispatch_run
fire_on cron none s = s
fire_on cron (some node) s =
    if cron.deleted || is_paused cron.status
    then s
    else dispatch_run cron node s.next_id (create_run cron s)

unfoldable pub fire_found : Option CronJob → CronStore → CronStore
unfolding fire_on
fire_found none s = s
fire_found (some cron) s = fire_on cron cron.node_id s

unfoldable pub fire_cron_run : ℕ → CronStore → CronStore
unfolding fire_found
fire_cron_run id s = fire_found (find_cron id s) s

-- `processCron`: the flag tells a fire job from a control job.
unfoldable pub process_cron : ℕ → Bool → CronStore → CronStore
unfolding fire_cron_run reconcile_scheduler
process_cron id fire s = if fire then fire_cron_run id s else reconcile_scheduler id s

-- PATCH /cron/:id, without the control job that it enqueues.
unfoldable pub patched_status : Option Bool → CronJobStatus → CronJobStatus
patched_status none status = status
patched_status (some true) status = CronJobStatus.paused
patched_status (some false) status = CronJobStatus.active

unfoldable pub patch_cron : ℕ → Option String → Option Bool → CronStore → CronStore
unfolding patched_status
patch_cron id schedule pause s =
    update_cron id
      (λ c. record c {
        schedule = or_else schedule c.schedule;
        status = patched_status pause c.status;
      })
      s

-- The terminal statuses that a command reports.
pub data ReportedStatus : Type 0 where
  succeeded failed timed_out : ReportedStatus

unfoldable pub cron_run_status : ReportedStatus → CronRunStatus
cron_run_status succeeded = CronRunStatus.success
cron_run_status timed_out = CronRunStatus.timeout
cron_run_status ReportedStatus.failed = CronRunStatus.failed

abbrev pub default_exit : CronRunStatus → ℕ
default_exit CronRunStatus.success = 0
default_exit _ = 1

-- `cronRun.upsert`
unfoldable pub upsert_run : ℕ → ℕ → CronRunStatus → ℕ → Option ℕ → List CronRun → List CronRun
upsert_run run job status code ms runs =
    if any (λ r. r.id == run) runs
    then update (λ r. r.id == run)
        (λ r. record r { status = status; exit_code = some code; duration_ms = ms }) runs
    else record {
      id = run;
      cron_job_id = job;
      status = status;
      exit_code = some code;
      duration_ms = ms;
    }
      ∷ runs

unfoldable pub apply_cron_run_result :
    RunJobCommand → ReportedStatus → Option ℕ → Option ℕ → CronStore → CronStore
unfolding cron_run_status upsert_run is_paused
apply_cron_run_result command reported exit_code duration_ms s =
    let status = cron_run_status reported in
    update_cron command.job_id
      (λ c. record c {
        last_run_status = some status;
        status = if is_paused c.status then c.status else CronJobStatus.active;
      })
      (record s {
        cron_runs =
            upsert_run command.run_id command.job_id status
              (or_else exit_code (default_exit status)) duration_ms s.cron_runs;
      })
