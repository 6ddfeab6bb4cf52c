-- ===== src/PolicyJobs/Refresh.antt =====
-- A refresh of a login settles its job and the policy.
use runlet.Prelude.{
  ℕ, ◌≡◌, refl, Option, none, some, Text, text, ◌==◌, nat_eq, list_eq, ok, Bool-cases, inl, inr,
}
use runlet.Prelude.Values.{field_of}
use runlet.Scheduling.Jobs.Rows.{completed, failed, retryable_failed}
use runlet.Scheduling.Policies.{find_row}
use runlet.PolicyJobs.Rows.{
  QueuedJob, Policy, Tables, Readings, job_id, text_value, uuid_of, resolve_policy, audit,
}
use runlet.PolicyJobs.Marks.{failed_policy, succeeded_policy, mark_running}
use runlet.PolicyJobs.AuthRefresh.{
  AuthRefreshResult, Refreshed, returned, raised, Services, ended_job, mark_refreshed, refresh,
  settle, handle_system, run,
}
use runlet.PolicyJobs.Settled.{
  IsReady, Settles, resolve_policy-HasPolicy, change-Settles, mark_failed-Settles, audit-IsReady,
  mark_running-IsReady,
}

mark_refreshed-Settles :
    (id : ℕ) (now : Readings) (result : AuthRefreshResult) (policy : Option Policy) (t : Tables)
    → IsReady id policy t
    → Settles id policy now (mark_refreshed id now result policy t)
unfolding mark_refreshed
mark_refreshed-Settles id now result policy t h =
    elim (Bool-cases (result.status == text "success")) [
      | inl e ↦ rw e (
          change-Settles id now policy (ended_job completed none now.finished)
            (succeeded_policy now.reported) t (λ j. refl) (λ p. refl) (λ j. (refl, refl))
            (λ j p. (refl, refl)) h)
      | inr e ↦ elim (Bool-cases (result.status == text "retryable_failed")) [
        | inl k ↦
            rw (e, k)
              (change-Settles id now policy (ended_job retryable_failed result.message now.finished)
                (failed_policy now.reported result.message) t (λ j. refl) (λ p. refl)
                (λ j. (refl, tt)) (λ j p. (refl, refl)) h)
        | inr k ↦
            rw (e, k)
              (change-Settles id now policy (ended_job failed result.message now.finished)
                (failed_policy now.reported result.message) t (λ j. refl) (λ p. refl)
                (λ j. (refl, tt)) (λ j p. (refl, refl)) h)
      ]
    ]

module _ {W : Type 0} (services : Services W) where
  abbrev pub IsSettled : ℕ → Option Policy → Tables × W → Type 0
  IsSettled id policy (t, w) = Settles id policy (services.utcnow w) t

  settle-IsSettled :
      (id : ℕ) (policy : Option Policy) (t : Tables) (x : Refreshed × W)
      → IsReady id policy t
      → IsSettled id policy (settle services id policy t x)
  settle-IsSettled id policy t (raised message, w) h =
      mark_failed-Settles id (services.utcnow w) (some message) policy t h
  settle-IsSettled id policy t (returned result, w) h =
      mark_refreshed-Settles id (services.utcnow w) result policy t h

  handle_system-IsSettled :
      (id : ℕ) (policy : Option Policy) (t : Tables) (w : W) (system_id : Option Text)
      → IsReady id policy t
      → IsSettled id policy (handle_system services id policy t w system_id)
  handle_system-IsSettled id policy t w none h =
      mark_failed-Settles id (services.utcnow w) _ policy t h
  handle_system-IsSettled id policy t w (some system_id) h =
      settle-IsSettled id policy (mark_running id (services.utcnow w) t)
        (refresh services (uuid_of (some system_id)) w)
        (mark_running-IsReady id (services.utcnow w) policy t h)

  -- For a job that is there, the handler returns, whatever the service does: the job is then completed
  -- without a message, failed or failed for a retry, with the time of its end, and the policy that the
  -- payload names, if there is one, has a time and that message of its last success or failure. The two
  -- times are readings of the clock of their own, after the call of the service.
  pub run-IsSettled :
      (t : Tables) (id : ℕ) (w : W) (job : QueuedJob)
      → find_row job_id id t.queued_jobs ≡ some job
      → (x : Tables × W) × (run services t id w ≡ ok x)
        × IsSettled id (resolve_policy t.policies job.payload) x
  unfolding run
  run-IsSettled t id w job e =
      let policy = resolve_policy t.policies job.payload in
      rw e (
        _,
        refl,
        handle_system-IsSettled id policy (audit services.fromisoformat id t) w
            (text_value (field_of (text "system_id") job.payload))
            (audit-IsReady services.fromisoformat id policy t
              ((job, e), resolve_policy-HasPolicy t.policies job.payload)),
      )
