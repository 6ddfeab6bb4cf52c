-- ===== src/RunCheck/Total.antt =====
-- The handler is total on the jobs that are there.
use mathlib.Core.Path.{subst}
use runlet.Prelude.{
  ℕ, ◌≡◌, refl, Option, none, some, Text, text, ◌==◌, nat_eq, list_eq, Result, ok, raise,
  Bool-cases, inl, inr,
}
use runlet.Scheduling.Policies.{find_row}
use runlet.RunCheck.Rows.{
  QueuedJob, JobRun, Tables, RunResult, Outcome, returned, blocked, crashed, Services,
}
use runlet.RunCheck.Attempts.{
  is_passed, Attempted, finished, first_blocked, later_blocked, terminal, exhausted,
}
use runlet.RunCheck.Trace.{EndsWell, run_precompiled_with_retry-EndsWell}
use runlet.RunCheck.Admission.{
  Refusal, fail, skip, asset_retired_failure_message, Admitted, is_probe, admit,
}
use runlet.RunCheck.Marks.{started_job, mark_running}
use runlet.RunCheck.Handler.{
  Executed, done, was_blocked, raised, no_result, executed, executed_attempts, with_feedback,
  probed, HandlerError, execute, settle, handle_admitted, run,
}
use runlet.RunCheck.Linked.{linked_of, run_to_close, is_refused_early, admit-linked}
use runlet.RunCheck.Settled.{
  Ends, find_row-mark_running, Ends-mark_running, mark_failed-Ends, mark_skipped-Ends,
  mark_completed-Ends,
}

abbrev HasResult : Executed → Type 0
HasResult no_result = ⊥
HasResult (done result retry) = Unit
HasResult (was_blocked retry) = Unit
HasResult (raised message retry) = Unit

executed-HasResult : (o : Outcome) → HasResult (executed o)
executed-HasResult (returned result) = tt
executed-HasResult (blocked message) = tt
executed-HasResult (crashed message) = tt

executed_attempts-HasResult : (a : Attempted) → EndsWell a → HasResult (executed_attempts a)
executed_attempts-HasResult (finished result payload) h = tt
executed_attempts-HasResult (first_blocked message) h = tt
executed_attempts-HasResult (later_blocked message payload) h = tt
executed_attempts-HasResult (terminal message payload) h = tt
executed_attempts-HasResult (exhausted result payload) h = absurd h

module _ {W : Type 0} where
  with_feedback-HasResult :
      (result : RunResult) (x : Option Text × W) → HasResult (with_feedback result x).0
  with_feedback-HasResult result (none, w) = tt
  with_feedback-HasResult result (some message, w) = tt

  probed-HasResult :
      (persist : Option (ℕ → ℕ → W → Option Text × W)) (plan_id : Option ℕ) (x : Outcome × W)
      → HasResult (probed persist plan_id x).0
  probed-HasResult none plan_id (o, w) = executed-HasResult o
  probed-HasResult (some persist) none (o, w) = executed-HasResult o
  probed-HasResult (some persist) (some plan_id) (returned result, w) =
      elim (Bool-cases (is_passed result.status)) [
        | inl e ↦ rw e (with_feedback-HasResult result (persist plan_id result.execution_run_id w))
        | inr e ↦ rw e tt
      ]
  probed-HasResult (some persist) (some plan_id) (blocked message, w) = tt
  probed-HasResult (some persist) (some plan_id) (crashed message, w) = tt

module _ {W : Type 0} (services : Services W) where
  execute-HasResult : (a : Admitted) (w : W) → HasResult (execute services a w).0
  unfolding execute
  execute-HasResult a w = elim (Bool-cases (is_probe a.execution_track)) [
    | inl e ↦ rw e (
        probed-HasResult services.persist_feedback a.execution_plan_id
          (services.run_realtime_probe a.execution_plan_id w))
    | inr e ↦ elim (Bool-cases (a.execution_track == text "precompiled")) [
      | inl k ↦
          rw (e, k)
            (executed_attempts-HasResult _ (
              run_precompiled_with_retry-EndsWell services a.page_check_id a.execution_plan_id
                a.runtime_inputs w))
      | inr k ↦
          rw (e, k)
            (executed-HasResult
              (services.run_page_check a.page_check_id a.execution_plan_id a.runtime_inputs w).0)
    ]
  ]

  -- The outcome is a state in which the job has ended.
  abbrev pub IsEnded : ℕ → Option JobRun → Tables → Result HandlerError (Tables × W) → Type 0
  IsEnded id linked t r = (t' : Tables) × (w' : W) × (r ≡ ok (t', w')) × Ends id linked t t'

  settle-IsEnded :
      (id : ℕ) (a : Admitted) (t : Tables) (job : QueuedJob) (x : Executed × W)
      → HasResult x.0
      → find_row (λ (j : QueuedJob). j.id) id t.queued_jobs ≡ some job
      → IsEnded id a.job_run t (settle services id a t x)
  settle-IsEnded id a t job (done result retry, w) h e =
      (_, w, refl, mark_completed-Ends id (services.utcnow w) a result retry t job e)
  settle-IsEnded id a t job (was_blocked retry, w) h e = (
    _,
    w,
    refl,
    mark_skipped-Ends id (services.utcnow w) asset_retired_failure_message a.job_run retry t job e,
  )
  settle-IsEnded id a t job (raised message retry, w) h e =
      (_, w, refl, mark_failed-Ends id (services.utcnow w) message a.job_run retry t job e)
  settle-IsEnded id a t job (no_result, w) h e = absurd h

  handle_admitted-IsEnded :
      (id : ℕ) (t : Tables) (w : W) (job : QueuedJob) (r : Result Refusal Admitted)
      → find_row (λ (j : QueuedJob). j.id) id t.queued_jobs ≡ some job
      → IsEnded id (linked_of r) t (handle_admitted services id t w r)
  handle_admitted-IsEnded id t w job (raise (fail message linked)) e =
      (_, w, refl, mark_failed-Ends id (services.utcnow w) message linked none t job e)
  handle_admitted-IsEnded id t w job (raise (skip message linked)) e =
      (_, w, refl, mark_skipped-Ends id (services.utcnow w) message linked none t job e)
  handle_admitted-IsEnded id t w job (ok a) e =
      let now = services.utcnow w in
      let started = mark_running id now a.job_run t in
      let (t', w', same, ends) =
        settle-IsEnded id a started (started_job now job) (execute services a w)
          (execute-HasResult a w) (find_row-mark_running id now a.job_run t job e) in
      (t', w', same, Ends-mark_running id now a.job_run t t' ends)

  -- For a job that is there, the handler returns, whatever the runner does: the job is then completed,
  -- failed or skipped, with the time of its end. Unless the payload is refused before its run is looked
  -- up, for one of the reasons of is_refused_early, the run of the tables that its job_run_id names, if
  -- there is one, has the same status and an end too.
  pub run-IsEnded :
      (t : Tables) (id : ℕ) (w : W) (job : QueuedJob)
      → find_row (λ (j : QueuedJob). j.id) id t.queued_jobs ≡ some job
      → IsEnded id (run_to_close t job.payload) t (run services t id w)
  unfolding run
  run-IsEnded t id w job e =
      let ended = handle_admitted-IsEnded id t w job (admit t job.payload) e in
      rw e (elim (Bool-cases (is_refused_early t job.payload)) [
        | inl early ↦
            let (t', w', same, (job', found, final, given, run_ends)) = ended in
            rw early (t', w', same, (job', found, final, given, tt))
        | inr late ↦ rw late (
            subst
              (λ linked.
                IsEnded id linked t (handle_admitted services id t w (admit t job.payload)))
              (admit-linked t job.payload late) ended)
      ])
