-- ===== src/Executor/Steps.antt =====
-- The modules that the executor of module_executor.py runs, each on the parameters of its step.
use runlet.Prelude.{
  ℕ, true, false, Option, none, some, List, [], ◌∷◌, ◌++◌, map, Text, text, strip, if◌then◌else◌,
  ◌==◌, nat_eq, list_eq, Dict, lookup, get_or, Value, Result, ok, raise, ◌>>=◌, ℤ,
}
use runlet.Prelude.Values.{pos, null, bool, int, str, py_str, new_list}
use runlet.Prelude.Search.{lower, truthy, str_or_empty, starts_with}
use runlet.RunCheck.Rows.{
  AuthInjectStatus, reused, refreshed, blocked, optional_string, FailureCategory, navigation_failed,
  page_not_ready, assertion_failed, runtime_error,
}
use runlet.Executor.Params.{coerce_optional_int, validate_data_count_assertion}

-- A call of the runtime returns a value or raises an exception with this text.
abbrev pub Called : Type 0 → Type 0
Called W = Result Text Value × W

-- RunnerRuntime, as far as the executor calls it, over what its calls change.
pub record Runtime (W : Type 0) : Type 0 where
  pub inject_auth_state : Value → W → Called W
  pub navigate_menu_chain : List Text → Text → W → Called W
  pub wait_page_ready : Text → W → Called W
  pub assert_table_visible : Option Text → W → Called W
  pub assert_page_open : Text → W → Called W
  pub open_create_modal : W → Called W
  pub apply_filter : Text → Text → Value → Text → W → Called W
  pub submit_query : Text → W → Called W
  pub read_data_count : Text → W → Called W
  pub row_exists_by_field : Text → Text → Text → Value → W → Called W
  pub enter_state : Text → W → Called W
  pub resolve_locator_bundle : Dict Text Value → Option (Dict Text Value) → W → Called W

-- A step passed with an output, failed with a detail and an output, or raised an exception.
pub data StepOutcome : Type 0 where
  passed : Option (Dict Text Value) → StepOutcome
  failed : Option Text → Dict Text Value → StepOutcome
  raised : Text → StepOutcome

abbrev pub param : Text → Dict Text Value → Value
param key params = get_or null (lookup key params)

-- _optional_text(...) or other
abbrev pub text_param : Text → Text → Dict Text Value → Text
text_param key other params = get_or other (optional_string (param key params))

abbrev pub outcome_of : Result Text StepOutcome → StepOutcome
outcome_of (ok outcome) = outcome
outcome_of (raise message) = raised message

-- _expect_truthy, and the step's result
abbrev pub expect_truthy :
    {W : Type 0} → Text → Option (Dict Text Value) → Called W → StepOutcome × W
expect_truthy name output (raise message, w) = (raised message, w)
expect_truthy name output (ok outcome, w) =
    if truthy outcome
    then (passed output, w)
    else (raised (text "module " ++ name ++ text " returned falsy result"), w)

abbrev pub auth_of_text : Text → Text → Result Text AuthInjectStatus
auth_of_text normalized shown =
    if normalized == text "reused"
    then ok reused
    else if normalized == text "refreshed"
    then ok refreshed
    else if normalized == text "blocked"
    then ok blocked
    else raise (text "unsupported auth inject outcome: " ++ shown)

-- _inject_auth_state, on the outcome of the call
unfoldable pub auth_of : Value → Result Text AuthInjectStatus
unfolding lower strip str_or_empty py_str
auth_of (bool true) = ok reused
auth_of (bool false) = ok blocked
auth_of outcome = auth_of_text (lower (strip (str_or_empty outcome))) (py_str outcome)

abbrev pub menu_output : List Text → Text → Dict Text Value
menu_output menu_chain route_path =
    (text "menu_chain", new_list (map (λ s. str s) menu_chain))
    ∷ (text "route_path", str route_path)
    ∷ []

abbrev pub row_output : Text → Text → Text → Value → Dict Text Value
row_output carrier field operator value =
    (text "carrier", str carrier)
    ∷ (text "field", str field)
    ∷ (text "operator", str operator)
    ∷ (text "value", value)
    ∷ []

abbrev pub filter_output : Text → Text → Value → Text → Dict Text Value
filter_output field operator value carrier =
    (text "field", str field)
    ∷ (text "operator", str operator)
    ∷ (text "value", value)
    ∷ (text "carrier", str carrier)
    ∷ []

-- The field and the value of a step, if it has both.
abbrev pub field_and_value : Option Text → Value → Option (Text × Value)
field_and_value none value = none
field_and_value (some field) null = none
field_and_value (some field) value = some (field, value)

abbrev pub bound_value : Option ℤ → Value
bound_value none = null
bound_value (some n) = int n

-- Without any bound, at least one is expected.
abbrev pub least : Option ℤ → Option ℤ → Option ℤ
least none none = some (pos 1)
least expected_min expected_max = expected_min

-- The count that the runtime gave, if it is a natural number.
abbrev pub count_of : Value → Result Text ℕ
count_of (int (pos n)) = ok n
count_of _ = raise (text "assert.data_count requires runtime to return non-negative int")

abbrev pub count_output : Text → ℕ → Option ℤ → Option ℤ → StepOutcome
count_output carrier count expected_min expected_max = passed (
    some (
      (text "carrier", str carrier)
      ∷ (text "actual_count", int (pos count))
      ∷ (text "expected_min", bound_value expected_min)
      ∷ (text "expected_max", bound_value expected_max)
      ∷ []))

unfoldable pub check_count : Dict Text Value → Text → Value → Result Text StepOutcome
unfolding lookup coerce_optional_int validate_data_count_assertion
check_count params carrier returned = do
  count ← count_of returned
  given ← coerce_optional_int (param (text "expected_min") params)
  expected_max ← coerce_optional_int (param (text "expected_max") params)
  _ ← validate_data_count_assertion count (least given expected_max) expected_max
  ok (count_output carrier count (least given expected_max) expected_max)

abbrev pub counted : {W : Type 0} → Dict Text Value → Text → Called W → StepOutcome × W
counted params carrier (raise message, w) = (raised message, w)
counted params carrier (ok returned, w) = (outcome_of (check_count params carrier returned), w)

abbrev pub matched_row : {W : Type 0} → Text → Text → Text → Value → Called W → StepOutcome × W
matched_row carrier field operator value (raise message, w) = (raised message, w)
matched_row carrier field operator value (ok matched, w) =
    if truthy matched then (passed (some (row_output carrier field operator value)), w) else (
      raised (
          text "row_exists_by_field_assertion_failed: field="
          ++ field
          ++ text " operator="
          ++ operator
          ++ text " value="
          ++ py_str value),
      w,
    )

abbrev pub state_failure : Text → Dict Text Value
state_failure state_signature =
    (text "state_signature", str state_signature)
    ∷ (text "failure_category", str (text "state_not_reached"))
    ∷ []

abbrev pub or_not_reached : Text → Text
or_not_reached [] = text "state_not_reached"
or_not_reached (c ∷ s) = c ∷ s

-- What a state that was entered, or not, gives.
abbrev pub entered : {W : Type 0} → Text → Called W → StepOutcome × W
entered state_signature (raise message, w) =
    (failed (some (or_not_reached (strip message))) (state_failure state_signature), w)
entered state_signature (ok reached, w) =
    if truthy reached
    then (passed (some ((text "state_signature", str state_signature) ∷ [])), w)
    else (
      failed
          (some (
            text "state_not_reached: state signature "
            ++ state_signature
            ++ text " was not reached"))
          (state_failure state_signature),
      w,
    )

-- _failure_category_for_module
unfoldable pub failure_category_for_module : Text → FailureCategory
unfolding starts_with
failure_category_for_module name =
    if name == text "nav.menu_chain"
    then navigation_failed
    else if name == text "page.wait_ready"
    then page_not_ready
    else if name == text "locator.assert"
    then assertion_failed
    else if starts_with (text "assert.") name
    then assertion_failed
    else runtime_error
