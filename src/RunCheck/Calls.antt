-- ===== src/RunCheck/Calls.antt =====
-- The calls that a run makes of the services, and that each check it runs is one it may run.
use runlet.Prelude.{
  ℕ, zero, suc, ◌+◌, false, ◌≡◌, refl, Option, none, some, Text, text, is_empty, leb, ◌==◌, nat_eq,
  list_eq, Value, Bool-cases, inl, inr,
}
use runlet.RunCheck.Retry.{is_retryable_failure}
use runlet.RunCheck.Rows.{category_text, RunResult, Outcome, returned, blocked, crashed, Services}
use runlet.RunCheck.Attempts.{
  is_passed, extract_error_message, Attempted, Progress, no_progress, should_retry,
  sleep_for_backoff, after_outcome, run_attempts, run_precompiled_with_retry,
}
use runlet.RunCheck.Admission.{Admitted, is_probe}
use runlet.RunCheck.Handler.{with_feedback, probed, execute}

-- From one state of the services to another by calls of them; each check that the runner is asked to
-- run is one that may be run.
pub data Calls {W : Type 0} (services : Services W) (MayRun : ℕ → Type 0) (start : W)
    : W → Type 0 where
  nothing : Calls services MayRun start start
  page_check :
      {w : W} (id : ℕ) (plan_id : Option ℕ) (inputs : Value)
      → MayRun id
      → Calls services MayRun start w
      → Calls services MayRun start (services.run_page_check (some id) plan_id inputs w).1
  realtime_probe :
      {w : W} (plan_id : Option ℕ)
      → Calls services MayRun start w
      → Calls services MayRun start (services.run_realtime_probe plan_id w).1
  feedback :
      {w : W} (persist : ℕ → ℕ → W → Option Text × W) (plan_id run_id : ℕ)
      → services.persist_feedback ≡ some persist
      → Calls services MayRun start w
      → Calls services MayRun start (persist plan_id run_id w).1
  rolled_back :
      {w : W} → Calls services MayRun start w → Calls services MayRun start (services.rollback w)
  slept :
      {w : W} (ms : ℕ)
      → Calls services MayRun start w
      → Calls services MayRun start (services.sleep_ms ms w)

module _ {W : Type 0} (services : Services W) (MayRun : ℕ → Type 0) (start : W) where
  abbrev Reached : W → Type 0
  Reached = Calls services MayRun start

  sleep_for_backoff-Reached :
      (ms : ℕ) (w : W) → Reached w → Reached (sleep_for_backoff services ms w)
  sleep_for_backoff-Reached ms w h = elim (Bool-cases (leb ms 0)) [
    | inl e ↦ rw e h
    | inr e ↦ rw e (slept ms h)
  ]

  after_outcome-Reached :
      (next : Progress → W → Attempted × W) (n started_at : ℕ) (p : Progress) (w : W)
      (outcome : Outcome)
      → ((p' : Progress) (w' : W) → Reached w' → Reached (next p' w').1)
      → Reached w
      → Reached (after_outcome services next n started_at p w outcome).1
  after_outcome-Reached next n started_at p w (blocked message) go h =
      elim (Bool-cases (is_empty p.attempts)) [ inl e ↦ rw e h | inr e ↦ rw e h ]
  after_outcome-Reached next n started_at p w (crashed message) go h =
      let retryable = is_retryable_failure (some (text "runtime_error")) (some message) in
      elim (Bool-cases (should_retry retryable n)) [
        | inl e ↦ rw e (go _ _ (sleep_for_backoff-Reached _ _ (rolled_back h)))
        | inr e ↦ rw e (rolled_back h)
      ]
  after_outcome-Reached next n started_at p w (returned result) go h =
      let message = extract_error_message result.step_results in
      let retryable = is_retryable_failure (category_text result.failure_category) message in
      elim (Bool-cases (is_passed result.status)) [
        | inl good ↦ rw good h
        | inr bad ↦ elim (Bool-cases (should_retry retryable n)) [
          | inl e ↦ rw (bad, e) (go _ _ (sleep_for_backoff-Reached _ _ h))
          | inr e ↦ rw (bad, e) h
        ]
      ]

  run_attempts-Reached :
      (id : ℕ) (plan_id : Option ℕ) (inputs : Value) (left n : ℕ) (p : Progress) (w : W)
      → MayRun id
      → Reached w
      → Reached (run_attempts services (some id) plan_id inputs left n p w).1
  unfolding run_attempts
  run_attempts-Reached id plan_id inputs zero n p w may h = h
  run_attempts-Reached id plan_id inputs (suc left) n p w may h =
      after_outcome-Reached (run_attempts services (some id) plan_id inputs left (n + 1)) n
        (services.utcnow w) p (services.run_page_check (some id) plan_id inputs w).1
        (services.run_page_check (some id) plan_id inputs w).0
        (λ p' w' k. run_attempts-Reached id plan_id inputs left (n + 1) p' w' may k)
        (page_check id plan_id inputs may h)

  with_feedback-Reached :
      (result : RunResult) (x : Option Text × W) → Reached x.1 → Reached (with_feedback result x).1
  with_feedback-Reached result (none, w) h = h
  with_feedback-Reached result (some message, w) h = h

  probed-Reached :
      (persist : Option (ℕ → ℕ → W → Option Text × W)) (plan_id : Option ℕ) (x : Outcome × W)
      → services.persist_feedback ≡ persist
      → Reached x.1
      → Reached (probed persist plan_id x).1
  probed-Reached none plan_id (o, w) same h = h
  probed-Reached (some persist) none (o, w) same h = h
  probed-Reached (some persist) (some plan_id) (returned result, w) same h =
      elim (Bool-cases (is_passed result.status)) [
        | inl e ↦ rw e (
            with_feedback-Reached result (persist plan_id result.execution_run_id w)
              (feedback persist plan_id result.execution_run_id same h))
        | inr e ↦ rw e h
      ]
  probed-Reached (some persist) (some plan_id) (blocked message, w) same h = h
  probed-Reached (some persist) (some plan_id) (crashed message, w) same h = h

  -- A run that is no probe is of a check that may be run.
  pub execute-Calls :
      (a : Admitted)
      → (is_probe a.execution_track ≡ false → (id : ℕ) × (a.page_check_id ≡ some id) × MayRun id)
      → Calls services MayRun start (execute services a start).1
  unfolding execute run_precompiled_with_retry
  execute-Calls a may = elim (Bool-cases (is_probe a.execution_track)) [
    | inl probe ↦ rw probe (
        probed-Reached services.persist_feedback a.execution_plan_id
          (services.run_realtime_probe a.execution_plan_id start) refl
          (realtime_probe a.execution_plan_id nothing))
    | inr other ↦
        let (id, same, allowed) = may other in
        elim (Bool-cases (a.execution_track == text "precompiled")) [
          | inl k ↦
              rw (other, k, same)
                (run_attempts-Reached id a.execution_plan_id a.runtime_inputs 3 1 no_progress start
                  allowed nothing)
          | inr k ↦
              rw (other, k, same)
                (page_check id a.execution_plan_id a.runtime_inputs allowed nothing)
        ]
  ]
