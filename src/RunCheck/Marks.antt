-- ===== src/RunCheck/Marks.antt =====
-- What RunCheckJobHandler of run_check_job.py writes to a job and its run: _mark_failed, _mark_skipped and
-- the two updates of `run` itself.
use runlet.Prelude.{
  ℕ, Option, none, some, List, [], ◌∷◌, Text, text, if◌then◌else◌, ◌==◌, nat_eq, list_eq, get_or,
  lookup,
}
use runlet.Prelude.Values.{field_of}
use runlet.Scheduling.Jobs.Publish.{uuid_text}
use runlet.Scheduling.Jobs.Rows.{QueuedJobStatus, running, completed, failed, skipped}
use runlet.RunCheck.Rows.{
  RetryPayload, ResultPayload, QueuedJob, JobRun, Tables, run_status_value, auth_status_value,
  RunResult, optional_string,
}
use runlet.RunCheck.Admission.{Admitted}

-- The optional arguments of _build_result_payload.
pub record Extra : Type 0 where
  pub execution_request_id : Option Text
  pub execution_plan_id : Option Text
  pub execution_run_id : Option ℕ
  pub auth_status : Option Text
  pub artifact_ids : List ℕ
  pub error_message : Option Text
  pub page_check_id : Option (Option Text)
  pub retry : Option RetryPayload

-- The arguments of a job that did not end with a result.
abbrev pub only_message : Text → Option RetryPayload → Extra
only_message message retry = record {
  execution_request_id = none;
  execution_plan_id = none;
  execution_run_id = none;
  auth_status = none;
  artifact_ids = [];
  error_message = some message;
  page_check_id = none;
  retry = retry;
}

-- text or other
abbrev pub text_or : Option Text → Option Text → Option Text
text_or none other = other
text_or (some []) other = other
text_or (some (c ∷ s)) other = some (c ∷ s)

unfoldable pub build_result_payload : QueuedJob → QueuedJobStatus → Text → Extra → ResultPayload
unfolding optional_string lookup
build_result_payload job queue_status execution_status extra =
    let optional = λ (key : Text). optional_string (field_of key job.payload) in
    record {
      queued_job_id = job.id;
      queue_status = queue_status;
      status = execution_status;
      page_check_id = get_or (optional (text "page_check_id")) extra.page_check_id;
      execution_track = optional (text "execution_track");
      execution_request_id =
          text_or extra.execution_request_id (optional (text "execution_request_id"));
      execution_plan_id = text_or extra.execution_plan_id (optional (text "execution_plan_id"));
      execution_run_id = extra.execution_run_id;
      published_job_id = optional (text "published_job_id");
      job_run_id = optional (text "job_run_id");
      script_render_id = optional (text "script_render_id");
      asset_version = optional (text "asset_version");
      runtime_policy = optional (text "runtime_policy");
      schedule_expr = optional (text "schedule_expr");
      trigger_source = optional (text "trigger_source");
      scheduled_at = optional (text "scheduled_at");
      auth_status = extra.auth_status;
      artifact_ids = extra.artifact_ids;
      error_message = extra.error_message;
      retry = extra.retry;
    }

-- The row with the id is changed.
module _ {A : Type 0} (id_of : A → ℕ) where
  unfoldable pub change_row : ℕ → (A → A) → List A → List A
  change_row id change [] = []
  change_row id change (row ∷ rows) =
      (if id_of row == id then change row else row) ∷ change_row id change rows

unfoldable pub change_job : ℕ → (QueuedJob → QueuedJob) → Tables → Tables
unfolding change_row
change_job id change t = record t { queued_jobs = change_row (λ j. j.id) id change t.queued_jobs }

-- if job_run is not None: ...
unfoldable pub change_run : Option JobRun → (JobRun → JobRun) → Tables → Tables
unfolding change_row
change_run none change t = t
change_run (some run) change t = record t {
  job_runs = change_row (λ r. r.id) run.id change t.job_runs;
}

-- What _mark_failed and _mark_skipped write to a job, by the status and its text.
abbrev pub closed_job :
    QueuedJobStatus → Text → ℕ → Text → Option RetryPayload → QueuedJob → QueuedJob
unfolding build_result_payload
closed_job status status_text now message retry job = record job {
  status = status;
  started_at = some (get_or now job.started_at);
  finished_at = some now;
  failure_message = some message;
  result_payload = some (build_result_payload job status status_text (only_message message retry));
}

abbrev pub closed_run : QueuedJobStatus → ℕ → Text → JobRun → JobRun
closed_run status now message run = record run {
  run_status = status;
  started_at = some (get_or now run.started_at);
  finished_at = some now;
  failure_message = some message;
}

unfoldable pub mark_failed : ℕ → ℕ → Text → Option JobRun → Option RetryPayload → Tables → Tables
unfolding change_job change_run build_result_payload
mark_failed id now message job_run retry t =
    change_run job_run (closed_run failed now message)
      (change_job id (closed_job failed (text "failed") now message retry) t)

unfoldable pub mark_skipped : ℕ → ℕ → Text → Option JobRun → Option RetryPayload → Tables → Tables
unfolding change_job change_run build_result_payload
mark_skipped id now message job_run retry t =
    change_run job_run (closed_run skipped now message)
      (change_job id (closed_job skipped (text "skipped") now message retry) t)

abbrev pub started_job : ℕ → QueuedJob → QueuedJob
started_job now job = record job { status = running; started_at = some (get_or now job.started_at) }

abbrev pub started_run : ℕ → JobRun → JobRun
started_run now run = record run {
  run_status = running;
  started_at = some (get_or now run.started_at);
}

unfoldable pub mark_running : ℕ → ℕ → Option JobRun → Tables → Tables
unfolding change_job change_run
mark_running id now job_run t =
    change_run job_run (started_run now) (change_job id (started_job now) t)

-- str(result.page_check_id), if there is one
abbrev pub id_text : Option ℕ → Option Text
id_text none = none
id_text (some id) = some (uuid_text id)

abbrev pub result_extra : Admitted → RunResult → Option RetryPayload → Extra
result_extra a result retry = record {
  execution_request_id = a.request_text;
  execution_plan_id = a.plan_text;
  execution_run_id = some result.execution_run_id;
  auth_status = some (auth_status_value result.auth_status);
  artifact_ids = result.artifact_ids;
  error_message = none;
  page_check_id = some (id_text result.page_check_id);
  retry = retry;
}

abbrev pub completed_job : ℕ → Admitted → RunResult → Option RetryPayload → QueuedJob → QueuedJob
unfolding build_result_payload
completed_job now a result retry job = record job {
  status = completed;
  finished_at = some now;
  failure_message = none;
  result_payload = some (
      build_result_payload job completed (run_status_value result.status)
        (result_extra a result retry));
}

abbrev pub completed_run : ℕ → RunResult → JobRun → JobRun
completed_run now result run = record run {
  execution_run_id = some result.execution_run_id;
  run_status = completed;
  finished_at = some now;
  failure_message = none;
}

unfoldable pub mark_completed : ℕ → ℕ → Admitted → RunResult → Option RetryPayload → Tables → Tables
unfolding change_job change_run build_result_payload
mark_completed id now a result retry t =
    change_run a.job_run (completed_run now result)
      (change_job id (completed_job now a result retry) t)
