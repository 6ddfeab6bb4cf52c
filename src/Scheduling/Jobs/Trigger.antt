-- ===== src/Scheduling/Jobs/Trigger.antt =====
-- PublishedJobTrigger.trigger and SqlQueueDispatcher.enqueue. The ids of new rows are arguments.
use runlet.Prelude.{ℕ, none, some, List, [], ◌∷◌, ◌++◌, Text, text, if◌then◌else◌, ◌==◌, nat_eq}
use runlet.Scheduling.Clock.{DateTime}
use runlet.Scheduling.Jobs.Rows.{accepted, PublishedJob, JobRun, RunCheckPayload, QueuedJob, Db}

-- job_types.py
abbrev pub run_check_job_type : Text
run_check_job_type = text "run_check"

unfoldable pub enqueue : Db → ℕ → Text → RunCheckPayload → Db
enqueue db id job_type payload = record db {
  queued_jobs =
      db.queued_jobs
      ++ record {
        id = id;
        job_type = job_type;
        payload = payload;
        policy_id = none;
        trigger_source = none;
        scheduled_at = none;
        status = accepted;
      }
        ∷ [];
}

-- The changes to the queued job, which is found by its id.
unfoldable pub note_trigger : ℕ → Text → DateTime → List QueuedJob → List QueuedJob
note_trigger id source at [] = []
note_trigger id source at (job ∷ rest) =
    (if job.id == id
      then record job {
        trigger_source = some source;
        scheduled_at = some at;
        payload = record job.payload { queued_job_id = some id };
      }
      else job)
    ∷ note_trigger id source at rest

unfoldable pub new_run : PublishedJob → Text → DateTime → ℕ → ℕ → JobRun
new_run job source at run_id queued_id = record {
  id = run_id;
  published_job_id = job.id;
  queued_job_id = some queued_id;
  script_render_id = job.script_render_id;
  asset_version = job.asset_version;
  runtime_policy = job.runtime_policy;
  schedule_expr = some job.schedule_expr;
  trigger_source = source;
  run_status = accepted;
  scheduled_at = at;
}

-- A run is recorded and a "run_check" job that names it is queued.
unfoldable pub trigger : Db → PublishedJob → Text → DateTime → ℕ → ℕ → Db
unfolding enqueue note_trigger new_run
trigger db job source at run_id queued_id =
    let payload : RunCheckPayload = record {
      page_check_id = job.page_check_id;
      execution_track = text "precompiled";
      published_job_id = job.id;
      job_run_id = run_id;
      script_render_id = job.script_render_id;
      asset_version = job.asset_version;
      runtime_policy = job.runtime_policy;
      schedule_expr = job.schedule_expr;
      trigger_source = source;
      scheduled_at = at;
      queued_job_id = none;
    } in
    let with_run = record db {
      job_runs = db.job_runs ++ new_run job source at run_id queued_id ∷ [];
    } in
    let queued = enqueue with_run queued_id run_check_job_type payload in
    record queued { queued_jobs = note_trigger queued_id source at queued.queued_jobs }
