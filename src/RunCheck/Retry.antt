-- ===== src/RunCheck/Retry.antt =====
-- run_check_retry.py: which failures are tried again, and after which time. A time in an entry is the
-- number of that time, not its text.
use runlet.Prelude.{
  ℕ, zero, suc, ◌+◌, ◌-◌, ◌*◌, Bool, true, false, ◌&&◌, not, Option, none, some, List, [], ◌∷◌,
  Text, text, strip, is_empty, if◌then◌else◌, ◌==◌, nat_eq, list_eq, contains, any,
}
use runlet.Prelude.Search.{lower, has_part}

abbrev pub retryable_failure_categories : List Text
retryable_failure_categories = text "navigation_failed" ∷ text "page_not_ready" ∷ []

abbrev pub non_retryable_step_failures : List Text
non_retryable_step_failures =
    text "context_mismatch"
    ∷ text "ambiguous_match"
    ∷ text "locator_all_failed"
    ∷ text "element_became_hidden"
    ∷ text "state_not_reached"
    ∷ []

abbrev pub transient_error_patterns : List Text
transient_error_patterns =
    text "timeout"
    ∷ text "net::"
    ∷ text "connection reset"
    ∷ text "target closed"
    ∷ text "temporarily unavailable"
    ∷ []

-- None and "" give no category; so does the empty text that white space leaves, when it is tested.
unfoldable pub normalize_failure_category : Option Text → Text
unfolding strip lower
normalize_failure_category none = []
normalize_failure_category (some category) = lower (strip category)

unfoldable pub contains_transient_pattern : Text → List Text → Bool
unfolding lower has_part any
contains_transient_pattern haystack patterns = any (λ p. has_part p (lower haystack)) patterns

-- `error_message and _contains_transient_pattern(...)`
abbrev pub is_transient : Option Text → Bool
unfolding contains_transient_pattern
is_transient none = false
is_transient (some message) =
    not (is_empty message) && contains_transient_pattern message transient_error_patterns

unfoldable pub is_retryable_failure : Option Text → Option Text → Bool
unfolding normalize_failure_category contains_transient_pattern contains
is_retryable_failure failure_category error_message =
    let category = normalize_failure_category failure_category in
    if not (is_empty category) && contains category retryable_failure_categories
    then true
    else if not (is_empty category) && contains category non_retryable_step_failures
    then false
    else category == text "runtime_error" && is_transient error_message

abbrev pub power2 : ℕ → ℕ
power2 zero = 1
power2 (suc n) = 2 * power2 n

unfoldable pub compute_backoff_ms : ℕ → ℕ → ℕ → ℕ
compute_backoff_ms attempt_no base_backoff_ms jitter_ms =
    base_backoff_ms * power2 (attempt_no - 1) + jitter_ms

pub record AttemptEntry : Type 0 where
  pub attempt_no : ℕ
  pub started_at : ℕ
  pub finished_at : ℕ
  pub status : Text
  pub failure_category : Option Text
  pub retryable : Bool
  pub backoff_ms : ℕ
