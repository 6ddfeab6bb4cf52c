-- ===== src/RunCheck/Attempts.antt =====
-- _run_precompiled_with_retry of run_check_job.py: the loop over the attempts.
use runlet.Prelude.{
  ℕ, zero, suc, ◌+◌, Bool, true, false, ◌&&◌, not, Option, none, some, List, [], ◌∷◌, ◌++◌, Text,
  text, strip, is_empty, length, if◌then◌else◌, ltb, leb, Value,
}
use runlet.RunCheck.Retry.{AttemptEntry, is_retryable_failure, compute_backoff_ms}
use runlet.RunCheck.Rows.{
  RetryPayload, RunnerRunStatus, passed, failed, category_text, StepResult, RunResult, Outcome,
  returned, blocked, crashed, Services,
}

abbrev pub max_attempts : ℕ
max_attempts = 3

abbrev pub base_backoff_ms : ℕ
base_backoff_ms = 100

abbrev pub jitter_ms : ℕ
jitter_ms = 0

abbrev pub is_passed : RunnerRunStatus → Bool
is_passed passed = true
is_passed _ = false

abbrev pub is_failed : RunnerRunStatus → Bool
is_failed failed = true
is_failed _ = false

-- What is left of a detail, where "" stands for None as well.
abbrev detail_text : Option Text → Text
detail_text none = []
detail_text (some detail) = strip detail

-- The first detail of a failed step that says something.
unfoldable pub extract_error_message : List StepResult → Option Text
unfolding strip
extract_error_message [] = none
extract_error_message (step ∷ steps) =
    let rest = extract_error_message steps in
    if is_failed step.status && not (is_empty (detail_text step.detail))
    then some (detail_text step.detail)
    else rest

abbrev pub build_retry_payload :
    ℕ → Bool → Bool → List AttemptEntry → Option Text → Option Text → RetryPayload
build_retry_payload attempt_count flaky retry_exhausted attempts category message = record {
  attempt_count = attempt_count;
  retry_exhausted = retry_exhausted;
  flaky = flaky;
  retry_policy = record {
    max_attempts = max_attempts;
    base_backoff_ms = base_backoff_ms;
    jitter_ms = jitter_ms;
  };
  attempts = attempts;
  final_failure_category = category;
  final_error_message = message;
}

-- How the loop ends: it returns a result; a run was blocked, at the first attempt or at a later one; a
-- run raised an exception that is not tried again; or the loop ran out (`exhausted`).
pub data Attempted : Type 0 where
  finished : RunResult → RetryPayload → Attempted
  first_blocked : Text → Attempted
  later_blocked : Text → RetryPayload → Attempted
  terminal : Text → RetryPayload → Attempted
  exhausted : Option RunResult → RetryPayload → Attempted

-- The variables of the loop besides the number of the attempt.
pub record Progress : Type 0 where
  pub attempts : List AttemptEntry
  pub last_result : Option RunResult
  pub final_failure_category : Option Text
  pub final_error_message : Option Text
  pub final_retryable : Bool

abbrev pub no_progress : Progress
no_progress = record {
  attempts = [];
  last_result = none;
  final_failure_category = none;
  final_error_message = none;
  final_retryable = false;
}

abbrev pub should_retry : Bool → ℕ → Bool
should_retry retryable attempt_no = retryable && ltb attempt_no max_attempts

-- The entry of an attempt that failed.
unfoldable pub failed_entry : ℕ → ℕ → ℕ → Option Text → Bool → AttemptEntry
unfolding compute_backoff_ms
failed_entry attempt_no started_at finished_at category retryable = record {
  attempt_no = attempt_no;
  started_at = started_at;
  finished_at = finished_at;
  status = text "failed";
  failure_category = category;
  retryable = retryable;
  backoff_ms =
      if should_retry retryable attempt_no
      then compute_backoff_ms attempt_no base_backoff_ms jitter_ms
      else 0;
}

abbrev pub passed_entry : ℕ → ℕ → ℕ → AttemptEntry
passed_entry attempt_no started_at finished_at = record {
  attempt_no = attempt_no;
  started_at = started_at;
  finished_at = finished_at;
  status = text "passed";
  failure_category = none;
  retryable = false;
  backoff_ms = 0;
}

-- The variables after a failed attempt.
abbrev pub noted : Progress → AttemptEntry → Option RunResult → Option Text → Progress
noted p entry result message = record {
  attempts = p.attempts ++ entry ∷ [];
  last_result = result;
  final_failure_category = entry.failure_category;
  final_error_message = message;
  final_retryable = entry.retryable;
}

abbrev pub payload_of : ℕ → Bool → Bool → Progress → RetryPayload
payload_of attempt_count flaky retry_exhausted p =
    build_retry_payload attempt_count flaky retry_exhausted p.attempts p.final_failure_category
      p.final_error_message

module _ {W : Type 0} (services : Services W) where
  abbrev pub sleep_for_backoff : ℕ → W → W
  sleep_for_backoff backoff_ms w = if leb backoff_ms 0 then w else services.sleep_ms backoff_ms w

  -- What follows a call of the runner: `next` is the rest of the loop.
  abbrev pub after_outcome :
      (Progress → W → Attempted × W) → ℕ → ℕ → Progress → W → Outcome → Attempted × W
  after_outcome next attempt_no started_at p w (blocked message) =
      if is_empty p.attempts
      then (first_blocked message, w)
      else (later_blocked message (payload_of (length p.attempts) false false p), w)
  after_outcome next attempt_no started_at p w (crashed message) =
      let retryable = is_retryable_failure (some (text "runtime_error")) (some message) in
      let entry =
        failed_entry attempt_no started_at (services.utcnow w) (some (text "runtime_error"))
          retryable in
      let after = services.rollback w in
      let p' = noted p entry p.last_result (some message) in
      if not (should_retry retryable attempt_no)
      then (
        terminal message
            (payload_of attempt_no false (retryable && leb max_attempts attempt_no) p'),
        after,
      )
      else next p' (sleep_for_backoff entry.backoff_ms after)
  after_outcome next attempt_no started_at p w (returned result) =
      let message = extract_error_message result.step_results in
      let category = category_text result.failure_category in
      let retryable = is_retryable_failure category message in
      let entry = failed_entry attempt_no started_at (services.utcnow w) category retryable in
      let p' = noted p entry (some result) message in
      if is_passed result.status
      then (
        finished result (
            build_retry_payload attempt_no (ltb 1 attempt_no) false
              (p.attempts ++ passed_entry attempt_no started_at (services.utcnow w) ∷ []) none
              none),
        w,
      )
      else if not (should_retry retryable attempt_no)
      then (
        finished result (
            payload_of attempt_no (ltb 1 attempt_no && is_passed result.status)
              (retryable && leb max_attempts attempt_no) p'),
        w,
      )
      else next p' (sleep_for_backoff entry.backoff_ms w)

  module _ (page_check_id execution_plan_id : Option ℕ) (runtime_inputs : Value) where
    -- The rest of the loop: the attempts that are left, and the number of the next one.
    unfoldable pub run_attempts : ℕ → ℕ → Progress → W → Attempted × W
    unfolding is_retryable_failure extract_error_message failed_entry
    run_attempts zero attempt_no p w =
        (exhausted p.last_result (payload_of max_attempts false p.final_retryable p), w)
    run_attempts (suc left) attempt_no p w =
        let (outcome, w') =
          services.run_page_check page_check_id execution_plan_id runtime_inputs w in
        after_outcome (run_attempts left (attempt_no + 1)) attempt_no (services.utcnow w) p w'
          outcome

    unfoldable pub run_precompiled_with_retry : W → Attempted × W
    unfolding run_attempts
    run_precompiled_with_retry w = run_attempts max_attempts 1 no_progress w
