-- ===== src/RunCheck/Rows.antt =====
-- The rows that the handler of "run_check" jobs reads and writes, what it is given of the runner, and
-- the result that it writes to a job. A status of a job is the enumeration that its text stands for.
use runlet.Prelude.{ℕ, Bool, Option, none, some, List, [], ◌∷◌, Text, text, strip, nat_eq, Value}
use runlet.Prelude.Values.{null, py_str}
use runlet.Scheduling.Jobs.Rows.{QueuedJobStatus, PublishedJob}
use runlet.RunCheck.Retry.{AttemptEntry}

pub record RetryPolicy : Type 0 where
  pub max_attempts : ℕ
  pub base_backoff_ms : ℕ
  pub jitter_ms : ℕ

-- _build_precompiled_retry_payload
pub record RetryPayload : Type 0 where
  pub attempt_count : ℕ
  pub retry_exhausted : Bool
  pub flaky : Bool
  pub retry_policy : RetryPolicy
  pub attempts : List AttemptEntry
  pub final_failure_category : Option Text
  pub final_error_message : Option Text

-- _build_result_payload; the seven optional entries are there together or not at all.
pub record ResultPayload : Type 0 where
  pub queued_job_id : ℕ
  pub queue_status : QueuedJobStatus
  pub status : Text
  pub page_check_id : Option Text
  pub execution_track : Option Text
  pub execution_request_id : Option Text
  pub execution_plan_id : Option Text
  pub execution_run_id : Option ℕ
  pub published_job_id : Option Text
  pub job_run_id : Option Text
  pub script_render_id : Option Text
  pub asset_version : Option Text
  pub runtime_policy : Option Text
  pub schedule_expr : Option Text
  pub trigger_source : Option Text
  pub scheduled_at : Option Text
  pub auth_status : Option Text
  pub artifact_ids : List ℕ
  pub error_message : Option Text
  pub retry : Option RetryPayload

pub record QueuedJob : Type 0 where
  pub id : ℕ
  pub payload : Value
  pub result_payload : Option ResultPayload
  pub status : QueuedJobStatus
  pub started_at : Option ℕ
  pub finished_at : Option ℕ
  pub failure_message : Option Text

pub record JobRun : Type 0 where
  pub id : ℕ
  pub published_job_id : ℕ
  pub execution_run_id : Option ℕ
  pub run_status : QueuedJobStatus
  pub started_at : Option ℕ
  pub finished_at : Option ℕ
  pub failure_message : Option Text

-- AssetLifecycleStatus
pub data AssetLifecycleStatus : Type 0 where
  active retired_missing retired_replaced retired_manual : AssetLifecycleStatus

pub record PageAsset : Type 0 where
  pub id : ℕ
  pub lifecycle_status : AssetLifecycleStatus

pub record PageCheck : Type 0 where
  pub id : ℕ
  pub page_asset_id : ℕ
  pub lifecycle_status : AssetLifecycleStatus

pub record ExecutionRequest : Type 0 where
  pub id : ℕ
  pub template_params : Value

pub record Tables : Type 0 where
  pub queued_jobs : List QueuedJob
  pub job_runs : List JobRun
  pub published_jobs : List PublishedJob
  pub page_checks : List PageCheck
  pub page_assets : List PageAsset
  pub execution_requests : List ExecutionRequest

-- RunnerRunStatus, AuthInjectStatus and FailureCategory, with the values of their members.
pub data RunnerRunStatus : Type 0 where
  running passed failed : RunnerRunStatus

abbrev pub run_status_value : RunnerRunStatus → Text
run_status_value running = text "running"
run_status_value passed = text "passed"
run_status_value failed = text "failed"

pub data AuthInjectStatus : Type 0 where
  reused refreshed blocked : AuthInjectStatus

abbrev pub auth_status_value : AuthInjectStatus → Text
auth_status_value reused = text "reused"
auth_status_value refreshed = text "refreshed"
auth_status_value AuthInjectStatus.blocked = text "blocked"

pub data FailureCategory : Type 0 where
  system_not_found page_or_menu_not_resolved element_asset_missing auth_blocked : FailureCategory
  navigation_failed page_not_ready assertion_failed runtime_error : FailureCategory

abbrev pub failure_category_value : FailureCategory → Text
failure_category_value system_not_found = text "system_not_found"
failure_category_value page_or_menu_not_resolved = text "page_or_menu_not_resolved"
failure_category_value element_asset_missing = text "element_asset_missing"
failure_category_value auth_blocked = text "auth_blocked"
failure_category_value navigation_failed = text "navigation_failed"
failure_category_value page_not_ready = text "page_not_ready"
failure_category_value assertion_failed = text "assertion_failed"
failure_category_value runtime_error = text "runtime_error"

-- _enum_value of a category that may be None.
abbrev pub category_text : Option FailureCategory → Option Text
category_text none = none
category_text (some category) = some (failure_category_value category)

pub record StepResult : Type 0 where
  pub status : RunnerRunStatus
  pub detail : Option Text

-- What the runner returns.
pub record RunResult : Type 0 where
  pub execution_run_id : ℕ
  pub page_check_id : Option ℕ
  pub status : RunnerRunStatus
  pub auth_status : AuthInjectStatus
  pub artifact_ids : List ℕ
  pub failure_category : Option FailureCategory
  pub step_results : List StepResult

-- A call of the runner returns, raises ExecutionBlockedError, or raises another exception; the text is
-- str(exc).
pub data Outcome : Type 0 where
  returned : RunResult → Outcome
  blocked : Text → Outcome
  crashed : Text → Outcome

-- The services that the handler is given, over what they change (W), which holds the clock too.
-- `persist_feedback` is there if a control plane service is; it gives the text of its exception.
pub record Services (W : Type 0) : Type 0 where
  pub utcnow : W → ℕ
  pub run_page_check : Option ℕ → Option ℕ → Value → W → Outcome × W
  pub run_realtime_probe : Option ℕ → W → Outcome × W
  pub persist_feedback : Option (ℕ → ℕ → W → Option Text × W)
  pub rollback : W → W
  pub sleep_ms : ℕ → W → W

abbrev none_if_empty : Text → Option Text
none_if_empty [] = none
none_if_empty (c ∷ s) = some (c ∷ s)

-- _optional_string
unfoldable pub optional_string : Value → Option Text
unfolding strip py_str
optional_string null = none
optional_string value = none_if_empty (strip (py_str value))
