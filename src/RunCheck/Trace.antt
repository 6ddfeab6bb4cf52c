-- ===== src/RunCheck/Trace.antt =====
-- What the entries of the attempts say about the loop.
use runlet.Prelude.{
  ℕ, zero, suc, ◌+◌, ◌-◌, ◌*◌, ◌≤◌, Bool, true, false, ◌&&◌, ◌≡◌, refl, ap, ◌∙◌, Option, none, some,
  List, [], ◌∷◌, ◌++◌, Text, text, is_empty, length, length-append, ltb, leb, Value, Bool-cases,
  inl, inr, arith,
}
use runlet.RunCheck.Retry.{AttemptEntry, is_retryable_failure, compute_backoff_ms, power2}
use runlet.RunCheck.Rows.{
  RetryPayload, category_text, RunResult, Outcome, returned, blocked, crashed, Services,
}
use runlet.RunCheck.Attempts.{
  max_attempts, is_passed, extract_error_message, Attempted, finished, first_blocked, later_blocked,
  terminal, exhausted, Progress, no_progress, should_retry, failed_entry, passed_entry, noted,
  build_retry_payload, payload_of, after_outcome, run_attempts, run_precompiled_with_retry,
}

-- The entry of a failure that is tried again, after 100 ms that double with each attempt.
pub record IsRetried (n : ℕ) (e : AttemptEntry) : Type 0 where
  pub number : e.attempt_no ≡ n
  pub status : e.status ≡ text "failed"
  pub again : e.retryable ≡ true
  pub backoff : e.backoff_ms ≡ 100 * power2 (n - 1)

-- Such entries, numbered from n.
abbrev pub AllRetried : ℕ → List AttemptEntry → Type 0
AllRetried n [] = Unit
AllRetried n (e ∷ es) = IsRetried n e × AllRetried (n + 1) es

AllRetried-append :
    (n m : ℕ) (es : List AttemptEntry) (e : AttemptEntry)
    → AllRetried n es
    → n + length es ≡ m
    → IsRetried m e
    → AllRetried n (es ++ e ∷ [])
AllRetried-append n m [] e h k r = (
  record {
    number = r.number ∙ omega arith;
    status = r.status;
    again = r.again;
    backoff = r.backoff ∙ ap (λ (i : ℕ). 100 * power2 (i - 1)) (omega arith);
  },
  tt,
)
AllRetried-append n m (x ∷ es) e h k r = (h.0, AllRetried-append (n + 1) m es e h.1 (omega arith) r)

-- The last entry, after entries of failures that were tried again: it has no wait after it, and if its
-- failure is one to try again, it is that of the third attempt.
pub record IsLast (es : List AttemptEntry) (e : AttemptEntry) (payload : RetryPayload)
    : Type 0 where
  pub entries : payload.attempts ≡ es ++ e ∷ []
  pub retried : AllRetried 1 es
  pub number : e.attempt_no ≡ length es + 1
  pub no_wait : e.backoff_ms ≡ 0
  pub attempt_count : payload.attempt_count ≡ length es + 1
  pub few : payload.attempt_count ≤ 3
  pub all_used : e.retryable ≡ true → payload.attempt_count ≡ 3
  pub exhausted : payload.retry_exhausted ≡ e.retryable

abbrev pub EndsWell : Attempted → Type 0
EndsWell (finished result payload) =
    (es : List AttemptEntry) × (e : AttemptEntry) × IsLast es e payload
    × (payload.flaky ≡ is_passed result.status && ltb 0 (length es))
EndsWell (first_blocked message) = Unit
EndsWell (later_blocked message payload) =
    AllRetried 1 payload.attempts
    × (payload.attempt_count ≡ length payload.attempts)
    × (1 ≤ payload.attempt_count)
    × (payload.attempt_count ≤ 2)
EndsWell (terminal message payload) =
    (es : List AttemptEntry) × (e : AttemptEntry) × IsLast es e payload × (payload.flaky ≡ false)
EndsWell (exhausted result payload) = ⊥

-- Before the attempt with the number n, all attempts so far were failures to try again.
abbrev pub IsBefore : ℕ → Progress → Type 0
IsBefore n p = AllRetried 1 p.attempts × (length p.attempts + 1 ≡ n) × (n ≤ 3)

failed_entry-IsLast :
    (n started_at finished_at : ℕ) (category message : Option Text) (retryable : Bool)
    (p : Progress) (last : Option RunResult) (flaky : Bool)
    → IsBefore n p
    → should_retry retryable n ≡ false
    → IsLast p.attempts (failed_entry n started_at finished_at category retryable) (
        payload_of n flaky
          (retryable && leb max_attempts n)
          (noted p (failed_entry n started_at finished_at category retryable) last message))
unfolding failed_entry
failed_entry-IsLast n started_at finished_at category message retryable p last flaky h stop =
    record {
      entries = refl;
      retried = h.0;
      number = omega arith;
      no_wait = rw stop;
      attempt_count = omega arith;
      few = omega arith;
      all_used = λ r. ground arith;
      exhausted = ground arith;
    }

passed_entry-IsLast :
    (n started_at finished_at : ℕ) (p : Progress) (flaky : Bool)
    → IsBefore n p
    → IsLast p.attempts (passed_entry n started_at finished_at) (
        build_retry_payload n flaky false
          (p.attempts ++ passed_entry n started_at finished_at ∷ [])
          none
          none)
passed_entry-IsLast n started_at finished_at p flaky h = record {
  entries = refl;
  retried = h.0;
  number = omega arith;
  no_wait = refl;
  attempt_count = omega arith;
  few = omega arith;
  all_used = λ r. cc;
  exhausted = refl;
}

length_pos : {A : Type 0} (xs : List A) → is_empty xs ≡ false → 1 ≤ length xs
length_pos [] e = cc
length_pos (x ∷ xs) e = omega arith

failed_entry-IsBefore :
    (n started_at finished_at : ℕ) (category message : Option Text) (retryable : Bool)
    (p : Progress) (last : Option RunResult)
    → IsBefore n p
    → should_retry retryable n ≡ true
    → IsBefore
        (n + 1)
        (noted p (failed_entry n started_at finished_at category retryable) last message)
unfolding failed_entry compute_backoff_ms
failed_entry-IsBefore n started_at finished_at category message retryable p last h more = (
  AllRetried-append 1 n p.attempts _ h.0 (omega arith) (record {
    number = refl;
    status = refl;
    again = ground arith;
    backoff = rw more (omega arith);
  }),
  omega (
    arith,
    length-append p.attempts (failed_entry n started_at finished_at category retryable ∷ []),
  ),
  ground arith,
)

module _ {W : Type 0} (services : Services W) where
  -- The rest of the loop ends well after attempts that were failures to try again.
  abbrev GoesOn : ℕ → (Progress → W → Attempted × W) → Type 0
  GoesOn n next = (p : Progress) (w : W) → IsBefore n p → EndsWell (next p w).0

  after_outcome-EndsWell :
      (next : Progress → W → Attempted × W) (n started_at : ℕ) (p : Progress) (w : W)
      (outcome : Outcome)
      → GoesOn (n + 1) next
      → IsBefore n p
      → EndsWell (after_outcome services next n started_at p w outcome).0
  after_outcome-EndsWell next n started_at p w (blocked message) go h =
      elim (Bool-cases (is_empty p.attempts)) [
        | inl e ↦ rw e tt
        | inr e ↦ rw e (h.0, refl, length_pos p.attempts e, omega arith)
      ]
  after_outcome-EndsWell next n started_at p w (crashed message) go h =
      let retryable = is_retryable_failure (some (text "runtime_error")) (some message) in
      let entry =
        failed_entry n started_at (services.utcnow w) (some (text "runtime_error")) retryable in
      elim (Bool-cases (should_retry retryable n)) [
        | inl e ↦ rw e (
            go _ _ (
              failed_entry-IsBefore n started_at (services.utcnow w) (some (text "runtime_error"))
                (some message) retryable p p.last_result h e))
        | inr e ↦ rw e (
          p.attempts,
          entry,
          failed_entry-IsLast n started_at (services.utcnow w) (some (text "runtime_error"))
              (some message) retryable p p.last_result false h e,
          refl,
        )
      ]
  after_outcome-EndsWell next n started_at p w (returned result) go h =
      let message = extract_error_message result.step_results in
      let category = category_text result.failure_category in
      let retryable = is_retryable_failure category message in
      let entry = failed_entry n started_at (services.utcnow w) category retryable in
      elim (Bool-cases (is_passed result.status)) [
        | inl good ↦ rw good (
          p.attempts,
          passed_entry n started_at (services.utcnow w),
          passed_entry-IsLast n started_at (services.utcnow w) p (ltb 1 n) h,
          ground (arith, good, h.1),
        )
        | inr bad ↦ elim (Bool-cases (should_retry retryable n)) [
          | inl e ↦
              rw (bad, e)
                (go _ _ (
                  failed_entry-IsBefore n started_at (services.utcnow w) category message retryable
                    p (some result) h e))
          | inr e ↦
              rw (bad, e)
                (
                  p.attempts,
                  entry,
                  failed_entry-IsLast n started_at (services.utcnow w) category message retryable p
                      (some result) (ltb 1 n && false) h e,
                  ground (arith, bad),
                )
        ]
      ]

  run_attempts-EndsWell :
      (page_check_id execution_plan_id : Option ℕ) (runtime_inputs : Value) (left n : ℕ)
      → n + left ≡ 4
      → GoesOn n (run_attempts services page_check_id execution_plan_id runtime_inputs left n)
  unfolding run_attempts
  run_attempts-EndsWell check plan inputs zero n k p w h = absurd (omega (arith, h.2))
  run_attempts-EndsWell check plan inputs (suc left) n k p w h =
      after_outcome-EndsWell (run_attempts services check plan inputs left (n + 1)) n
        (services.utcnow w) p (services.run_page_check check plan inputs w).1
        (services.run_page_check check plan inputs w).0
        (run_attempts-EndsWell check plan inputs left (n + 1) (omega arith)) h

  -- The loop always ends with a result or an exception, after at most three attempts.
  pub run_precompiled_with_retry-EndsWell :
      (page_check_id execution_plan_id : Option ℕ) (runtime_inputs : Value) (w : W)
      → EndsWell
          (run_precompiled_with_retry services page_check_id execution_plan_id runtime_inputs w).0
  unfolding run_precompiled_with_retry
  run_precompiled_with_retry-EndsWell check plan inputs w =
      run_attempts-EndsWell check plan inputs 3 1 refl no_progress w (tt, refl, omega arith)
