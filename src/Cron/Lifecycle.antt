-- ===== src/Cron/Lifecycle.antt =====
-- One run of a scheduled job, from the fire job to the report.
use your_stack.Common.{
  ℕ, ◌+◌, ◌<◌, ◌≡◌, refl, sym, ◌∙◌, ap, Bool, true, false, Option, none, some, List, [], ◌∷◌, ◌==◌,
  any, find, found-update, update, if◌then◌else◌, Bool-cases, Option-cases, inl, inr, ==_self,
  arith, or_else, ◌||◌, String,
}
use your_stack.Cron.Jobs.{
  CronJobStatus, CronJob, RunJobCommand, CronStore, is_paused, find_cron, update_cron, create_run,
  run_timeout_ms, dispatch_run, fire_on, fire_found, fire_cron_run, process_cron, patch_cron,
  patched_status, ReportedStatus, cron_run_status, default_exit, upsert_run, apply_cron_run_result,
}

some-injective : (m a : CronJob) → some m ≡ some a → m ≡ a
some-injective m a h = ap {B = CronJob} (λ o. or_else o m) h

find-update :
    (id : ℕ) (f : CronJob → CronJob) (cs : List CronJob) (c : CronJob)
    → ((x : CronJob) → (f x).id ≡ x.id)
    → find (λ x. x.id == id) cs ≡ some c
    → find (λ x. x.id == id) (update (λ x. x.id == id) f cs) ≡ some (f c)
find-update id f [] c k h = ground arith
find-update id f (x ∷ cs) c k h = elim (Bool-cases (x.id == id)) [
  | inl e ↦
      let e' : find (λ y. y.id == id) (x ∷ cs) ≡ some x = rw e refl in
      let i : x ≡ c = some-injective x c (sym e' ∙ h) in
      let u : update (λ y. y.id == id) f (x ∷ cs) ≡ f x ∷ update (λ y. y.id == id) f cs =
        rw e refl in
      let g : ((f x).id == id) ≡ true = rw (k x) e in
      let t : find (λ y. y.id == id) (f x ∷ update (λ y. y.id == id) f cs) ≡ some (f x) =
        rw g refl in
      ap (find (λ y. y.id == id)) u ∙ t ∙ ap (λ y. some (f y)) i
  | inr e ↦
      let e' : find (λ y. y.id == id) (x ∷ cs) ≡ find (λ y. y.id == id) cs = rw e refl in
      let u : update (λ y. y.id == id) f (x ∷ cs) ≡ x ∷ update (λ y. y.id == id) f cs = rw e refl in
      let t : find (λ y. y.id == id) (x ∷ update (λ y. y.id == id) f cs)
          ≡ find (λ y. y.id == id) (update (λ y. y.id == id) f cs) =
        rw e refl in
      ap (find (λ y. y.id == id)) u ∙ t ∙ find-update id f cs c k (sym e' ∙ h)
]

-- A job that a fire job runs: active, not deleted, on a node that is there.
abbrev pub IsRunnable : ℕ → CronJob → ℕ → CronStore → Type 0
IsRunnable id c node s =
    (find_cron id s ≡ some c)
    × (c.id ≡ id)
    × (c.deleted ≡ false)
    × (c.status ≡ CronJobStatus.active)
    × (c.node_id ≡ some node)
    × (any (λ n. n == node) s.nodes ≡ true)

-- The command that the fire job queues, and what it leaves.
abbrev pub run_command : ℕ → CronJob → ℕ → CronStore → RunJobCommand
run_command id c node s = record {
  node_id = node;
  job_id = id;
  run_id = s.next_id;
  timeout_ms = run_timeout_ms c + 30_000;
  spec_timeout_ms = run_timeout_ms c;
}

abbrev pub fired : ℕ → CronJob → ℕ → CronStore → CronStore
fired id c node s =
    update_cron id (λ d. record d { status = CronJobStatus.running })
      (record (create_run c s) { commands = run_command id c node s ∷ s.commands })

fire_cron_run-IsRunnable :
    (id : ℕ) (c : CronJob) (node : ℕ) (s : CronStore)
    → IsRunnable id c node s
    → fire_cron_run id s ≡ fired id c node s
unfolding fire_cron_run fire_found fire_on dispatch_run is_paused create_run
fire_cron_run-IsRunnable id c node s (f, i, d, a, n, h) = rw (f, n, d, a, h, i) refl

find-fired :
    (id : ℕ) (c : CronJob) (node : ℕ) (s : CronStore)
    → IsRunnable id c node s
    → find_cron id (fired id c node s) ≡ some (record c { status = CronJobStatus.running })
unfolding create_run
find-fired id c node s r =
    find-update id (λ e. record e { status = CronJobStatus.running }) s.cron_jobs c (λ e. refl) r.0

-- A fire job for a runnable job queues one command for the job's node, whose deadline is later than
-- the one the job itself is given. When the report on that command comes in, the job is active again
-- with the reported status as its last, and the command's run is closed with that status and with the
-- reported exit code, or else 0 after a success and 1 otherwise.
pub apply_cron_run_result-process_cron :
    (id : ℕ) (c : CronJob) (node : ℕ) (s : CronStore)
    → IsRunnable id c node s
    → (reported : ReportedStatus) (exit_code duration_ms : Option ℕ)
    → (k : RunJobCommand) × ((process_cron id true s).commands ≡ k ∷ s.commands)
      × (k.node_id ≡ node)
      × (k.spec_timeout_ms < k.timeout_ms)
      × (find_cron id
            (apply_cron_run_result k reported exit_code duration_ms (process_cron id true s))
          ≡ some (record c {
            status = CronJobStatus.active;
            last_run_status = some (cron_run_status reported);
          }))
      × (find
            (λ q. q.id == k.run_id)
            (apply_cron_run_result k reported exit_code duration_ms
              (process_cron id true s)).cron_runs
          ≡ some record {
            id = k.run_id;
            cron_job_id = id;
            status = cron_run_status reported;
            exit_code = some (or_else exit_code (default_exit (cron_run_status reported)));
            duration_ms = duration_ms;
          })
unfolding process_cron apply_cron_run_result upsert_run create_run is_paused
apply_cron_run_result-process_cron id c node s r reported exit_code duration_ms =
    let job : CronJob → CronJob = λ e. record e {
      last_run_status = some (cron_run_status reported);
      status = if is_paused e.status then e.status else CronJobStatus.active;
    } in
    let running : CronJob = record c { status = CronJobStatus.running } in
    rw (fire_cron_run-IsRunnable id c node s r) (
      run_command id c node s,
      refl,
      refl,
      omega arith,
      find-update id job (fired id c node s).cron_jobs running (λ e. refl)
          (find-fired id c node s r),
      rw (==_self s.next_id, ==_self s.next_id, r.1) refl,
    )

-- The handler's change of a row that it pauses.
abbrev pub pause_row : Option String → CronJob → CronJob
pause_row schedule c = record c {
  schedule = or_else schedule c.schedule;
  status = CronJobStatus.paused;
}

find-pause_row :
    (id : ℕ) (schedule : Option String) (cs : List CronJob) (d : CronJob)
    → find (λ c. c.id == id) (update (λ c. c.id == id) (pause_row schedule) cs) ≡ some d
    → is_paused d.status ≡ true
unfolding is_paused
find-pause_row id schedule cs d h =
    found-update (λ c. c.id == id) (λ c. is_paused c.status) (pause_row schedule) cs d (λ c. refl)
      (λ c. refl) h

fire_on-paused :
    (c : CronJob) (node : Option ℕ) (s : CronStore)
    → is_paused c.status ≡ true
    → fire_on c node s ≡ s
unfolding fire_on
fire_on-paused c none s p = refl
fire_on-paused c (some n) s p = rw p (pick c.deleted)
  where
    pick : (b : Bool) → (if b || true then s else dispatch_run c n s.next_id (create_run c s)) ≡ s
    pick true = refl
    pick false = refl

-- A job that was just paused does not run: a fire job changes nothing.
pub process_cron-patch_cron :
    (id : ℕ) (schedule : Option String) (s : CronStore)
    → process_cron id true (patch_cron id schedule (some true) s)
      ≡ patch_cron id schedule (some true) s
unfolding process_cron fire_cron_run fire_found patch_cron patched_status
process_cron-patch_cron id schedule s =
    elim (Option-cases (find_cron id (update_cron id (pause_row schedule) s))) [
      | inl e ↦ rw e refl
      | inr (c, e) ↦ rw e (
          fire_on-paused c c.node_id (update_cron id (pause_row schedule) s)
            (find-pause_row id schedule s.cron_jobs c e))
    ]
