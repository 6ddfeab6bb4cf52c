-- ===== src/PolicyJobs/Marks.antt =====
-- What the two handlers write to a job and to its policy.
use runlet.Prelude.{ℕ, Option, none, some, Text, get_or, nat_eq}
use runlet.Scheduling.Jobs.Rows.{running, failed}
use runlet.RunCheck.Marks.{change_row}
use runlet.PolicyJobs.Rows.{QueuedJob, Policy, Tables, Readings, job_id}

unfoldable pub change_job : ℕ → (QueuedJob → QueuedJob) → Tables → Tables
unfolding change_row
change_job id change t = record t { queued_jobs = change_row job_id id change t.queued_jobs }

-- if policy is not None: ...
unfoldable pub change_policy : Option Policy → (Policy → Policy) → Tables → Tables
unfolding change_row
change_policy none change t = t
change_policy (some policy) change t = record t {
  policies = change_row (λ (p : Policy). p.id) policy.id change t.policies;
}

abbrev pub started_job : ℕ → QueuedJob → QueuedJob
started_job now job = record job { status = running; started_at = some (get_or now job.started_at) }

unfoldable pub mark_running : ℕ → Readings → Tables → Tables
unfolding change_job
mark_running id now t = change_job id (started_job now.started) t

abbrev pub failed_policy : ℕ → Option Text → Policy → Policy
failed_policy now message policy = record policy {
  last_failed_at = some now;
  last_failure_message = message;
}

abbrev pub succeeded_policy : ℕ → Policy → Policy
succeeded_policy now policy = record policy {
  last_succeeded_at = some now;
  last_failure_message = none;
}

abbrev pub failed_job : Readings → Option Text → QueuedJob → QueuedJob
failed_job now message job = record job {
  status = failed;
  started_at = some (get_or now.started job.started_at);
  finished_at = some now.finished;
  failure_message = message;
}

-- _mark_failed
unfoldable pub mark_failed : ℕ → Readings → Option Text → Option Policy → Tables → Tables
unfolding change_job change_policy
mark_failed id now message policy t =
    change_policy policy (failed_policy now.reported message)
      (change_job id (failed_job now message) t)
