-- ===== src/PolicyJobs/AuthRefresh.antt =====
-- AuthRefreshJobHandler.run of backend/src/app/jobs/auth_refresh_job.py.
use runlet.Prelude.{
  ℕ, Option, none, some, Text, text, if◌then◌else◌, ◌==◌, nat_eq, list_eq, Result, ok, raise,
}
use runlet.Prelude.Values.{field_of}
use runlet.Scheduling.Clock.{DateTime}
use runlet.Scheduling.Jobs.Rows.{QueuedJobStatus, completed, failed, retryable_failed}
use runlet.Scheduling.Policies.{find_row}
use runlet.PolicyJobs.Rows.{
  QueuedJob, Policy, Tables, Readings, job_id, text_value, uuid_of, resolve_policy, audit,
}
use runlet.PolicyJobs.Marks.{
  change_job, change_policy, failed_policy, succeeded_policy, mark_running, mark_failed,
}

-- The fields of AuthRefreshResult that are read.
pub record AuthRefreshResult : Type 0 where
  pub status : Text
  pub message : Option Text

-- A call of the service returns, or raises an exception with this text.
pub data Refreshed : Type 0 where
  returned : AuthRefreshResult → Refreshed
  raised : Text → Refreshed

-- The authentication service, over what it changes (W), which holds the clock too.
pub record Services (W : Type 0) : Type 0 where
  pub utcnow : W → Readings
  pub fromisoformat : Text → Option DateTime
  pub refresh_auth_state : ℕ → W → Refreshed × W

pub data HandlerError : Type 0 where
  job_not_found : ℕ → HandlerError

-- The ValueError of UUID(text)
abbrev pub badly_formed_uuid : Text
badly_formed_uuid = text "badly formed hexadecimal UUID string"

abbrev pub ended_job : QueuedJobStatus → Option Text → ℕ → QueuedJob → QueuedJob
ended_job status message now job = record job {
  status = status;
  failure_message = message;
  finished_at = some now;
}

unfoldable pub mark_refreshed : ℕ → Readings → AuthRefreshResult → Option Policy → Tables → Tables
unfolding change_job change_policy
mark_refreshed id now result policy t =
    if result.status == text "success"
    then change_policy policy (succeeded_policy now.reported)
        (change_job id (ended_job completed none now.finished) t)
    else if result.status == text "retryable_failed"
    then change_policy policy (failed_policy now.reported result.message)
        (change_job id (ended_job retryable_failed result.message now.finished) t)
    else change_policy policy (failed_policy now.reported result.message)
        (change_job id (ended_job failed result.message now.finished) t)

module _ {W : Type 0} (services : Services W) where
  -- refresh_auth_state(system_id=UUID(system_id))
  abbrev pub refresh : Option ℕ → W → Refreshed × W
  refresh none w = (raised badly_formed_uuid, w)
  refresh (some system_id) w = services.refresh_auth_state system_id w

  abbrev pub settle : ℕ → Option Policy → Tables → Refreshed × W → Tables × W
  settle id policy t (raised message, w) =
      (mark_failed id (services.utcnow w) (some message) policy t, w)
  settle id policy t (returned result, w) =
      (mark_refreshed id (services.utcnow w) result policy t, w)

  abbrev pub handle_system : ℕ → Option Policy → Tables → W → Option Text → Tables × W
  handle_system id policy t w none = (
    mark_failed id (services.utcnow w) (some (text "missing system_id in auth refresh job payload"))
        policy t,
    w,
  )
  handle_system id policy t w (some system_id) =
      settle id policy (mark_running id (services.utcnow w) t)
        (refresh (uuid_of (some system_id)) w)

  abbrev pub handle_found : ℕ → Tables → W → Option QueuedJob → Result HandlerError (Tables × W)
  handle_found id t w none = raise (job_not_found id)
  handle_found id t w (some job) = ok (
      handle_system id (resolve_policy t.policies job.payload) (audit services.fromisoformat id t) w
        (text_value (field_of (text "system_id") job.payload)))

  -- AuthRefreshJobHandler.run
  unfoldable pub run : Tables → ℕ → W → Result HandlerError (Tables × W)
  unfolding find_row audit resolve_policy mark_running mark_failed mark_refreshed
      runlet.Scheduling.Uuids.Parse.parse_uuid
  run t id w = handle_found id t w (find_row job_id id t.queued_jobs)
