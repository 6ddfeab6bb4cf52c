-- ===== src/Scheduling/Jobs/Rows.antt =====
-- The rows of infrastructure/db/models/jobs.py and execution.py that the service reads and writes.
-- UUIDs are numbers; the text of an id or of a time in a payload is that id or that time.
use runlet.Prelude.{ℕ, Bool, true, false, Option, List, Text, Value}
use runlet.Scheduling.Clock.{DateTime}

-- PublishedJobState
pub data PublishedJobState : Type 0 where
  active paused archived : PublishedJobState

abbrev pub is_active : PublishedJobState → Bool
is_active active = true
is_active _ = false

abbrev pub is_paused : PublishedJobState → Bool
is_paused paused = true
is_paused _ = false

-- QueuedJobStatus
pub data QueuedJobStatus : Type 0 where
  accepted running completed failed retryable_failed skipped : QueuedJobStatus

pub record ScriptRender : Type 0 where
  pub id : ℕ
  pub execution_plan_id : Option ℕ
  pub render_mode : Text
  pub render_metadata : Value
  pub created_at : ℕ

pub record PublishedJob : Type 0 where
  pub id : ℕ
  pub job_key : Text
  pub page_check_id : ℕ
  pub script_render_id : Option ℕ
  pub asset_version : Option Text
  pub runtime_policy : Text
  pub schedule_expr : Text
  pub timezone : Text
  pub state : PublishedJobState
  pub pause_reason : Option Text
  pub paused_by_snapshot_id : Option ℕ
  pub paused_by_asset_id : Option ℕ
  pub paused_by_page_check_id : Option ℕ
  pub updated_at : ℕ

pub record JobRun : Type 0 where
  pub id : ℕ
  pub published_job_id : ℕ
  pub queued_job_id : Option ℕ
  pub script_render_id : Option ℕ
  pub asset_version : Option Text
  pub runtime_policy : Text
  pub schedule_expr : Option Text
  pub trigger_source : Text
  pub run_status : QueuedJobStatus
  pub scheduled_at : DateTime

-- The payload of a "run_check" job.
pub record RunCheckPayload : Type 0 where
  pub page_check_id : ℕ
  pub execution_track : Text
  pub published_job_id : ℕ
  pub job_run_id : ℕ
  pub script_render_id : Option ℕ
  pub asset_version : Option Text
  pub runtime_policy : Text
  pub schedule_expr : Text
  pub trigger_source : Text
  pub scheduled_at : DateTime
  pub queued_job_id : Option ℕ

pub record QueuedJob : Type 0 where
  pub id : ℕ
  pub job_type : Text
  pub payload : RunCheckPayload
  pub policy_id : Option ℕ
  pub trigger_source : Option Text
  pub scheduled_at : Option DateTime
  pub status : QueuedJobStatus

pub record Db : Type 0 where
  pub script_renders : List ScriptRender
  pub published_jobs : List PublishedJob
  pub job_runs : List JobRun
  pub queued_jobs : List QueuedJob
