-- ===== src/RunCheck/Handler.antt =====
-- RunCheckJobHandler.run of run_check_job.py: the run itself, and what its end writes to the job.
use runlet.Prelude.{
  ℕ, Option, none, some, Text, text, if◌then◌else◌, ◌==◌, nat_eq, list_eq, Result, ok, raise,
}
use runlet.Scheduling.Policies.{find_row}
use runlet.RunCheck.Rows.{
  RetryPayload, QueuedJob, Tables, RunResult, Outcome, returned, blocked, crashed, Services,
}
use runlet.RunCheck.Attempts.{
  is_passed, Attempted, finished, first_blocked, later_blocked, terminal, exhausted,
  run_precompiled_with_retry,
}
use runlet.RunCheck.Admission.{
  Refusal, fail, skip, asset_retired_failure_message, Admitted, is_probe, admit,
}
use runlet.RunCheck.Marks.{mark_failed, mark_skipped, mark_running, mark_completed}

-- The run gave a result, was blocked, or raised an exception with this text; `no_result` is the loop's
-- end without any result.
pub data Executed : Type 0 where
  done : RunResult → Option RetryPayload → Executed
  was_blocked : Option RetryPayload → Executed
  raised : Text → Option RetryPayload → Executed
  no_result : Executed

abbrev pub executed : Outcome → Executed
executed (returned result) = done result none
executed (blocked message) = was_blocked none
executed (crashed message) = raised message none

abbrev pub executed_attempts : Attempted → Executed
executed_attempts (finished result payload) = done result (some payload)
executed_attempts (first_blocked message) = was_blocked none
executed_attempts (later_blocked message payload) = was_blocked (some payload)
executed_attempts (terminal message payload) = raised message (some payload)
executed_attempts (exhausted none payload) = no_result
executed_attempts (exhausted (some result) payload) = done result (some payload)

abbrev pub with_feedback : {W : Type 0} → RunResult → Option Text × W → Executed × W
with_feedback result (none, w) = (done result none, w)
with_feedback result (some message, w) = (raised message none, w)

-- A probe that passed is reported, where there are a plan and a control plane service.
abbrev pub probed :
    {W : Type 0} → Option (ℕ → ℕ → W → Option Text × W) → Option ℕ → Outcome × W → Executed × W
probed (some persist) (some plan_id) (returned result, w) =
    if is_passed result.status
    then with_feedback result (persist plan_id result.execution_run_id w)
    else (done result none, w)
probed persist plan_id (outcome, w) = (executed outcome, w)

pub data HandlerError : Type 0 where
  job_not_found : ℕ → HandlerError
  missing_result : HandlerError

module _ {W : Type 0} (services : Services W) where
  unfoldable pub execute : Admitted → W → Executed × W
  unfolding run_precompiled_with_retry
  execute a w =
      if is_probe a.execution_track
      then probed services.persist_feedback a.execution_plan_id
          (services.run_realtime_probe a.execution_plan_id w)
      else if a.execution_track == text "precompiled"
      then (let (attempted, w') =
            run_precompiled_with_retry services a.page_check_id a.execution_plan_id a.runtime_inputs
              w in
          (executed_attempts attempted, w'))
      else (let (outcome, w') =
            services.run_page_check a.page_check_id a.execution_plan_id a.runtime_inputs w in
          (executed outcome, w'))

  abbrev pub settle : ℕ → Admitted → Tables → Executed × W → Result HandlerError (Tables × W)
  settle id a t (done result retry, w) =
      ok (mark_completed id (services.utcnow w) a result retry t, w)
  settle id a t (was_blocked retry, w) =
      ok (mark_skipped id (services.utcnow w) asset_retired_failure_message a.job_run retry t, w)
  settle id a t (raised message retry, w) =
      ok (mark_failed id (services.utcnow w) message a.job_run retry t, w)
  settle id a t (no_result, w) = raise missing_result

  abbrev pub handle_admitted :
      ℕ → Tables → W → Result Refusal Admitted → Result HandlerError (Tables × W)
  handle_admitted id t w (raise (fail message job_run)) =
      ok (mark_failed id (services.utcnow w) message job_run none t, w)
  handle_admitted id t w (raise (skip message job_run)) =
      ok (mark_skipped id (services.utcnow w) message job_run none t, w)
  handle_admitted id t w (ok a) =
      settle id a (mark_running id (services.utcnow w) a.job_run t) (execute a w)

  abbrev pub handle_found : ℕ → Tables → W → Option QueuedJob → Result HandlerError (Tables × W)
  handle_found id t w none = raise (job_not_found id)
  handle_found id t w (some job) = handle_admitted id t w (admit t job.payload)

  -- RunCheckJobHandler.run
  unfoldable pub run : Tables → ℕ → W → Result HandlerError (Tables × W)
  unfolding find_row admit execute mark_failed mark_skipped mark_running mark_completed
  run t id w = handle_found id t w (find_row (λ (j : QueuedJob). j.id) id t.queued_jobs)
