-- ===== src/Executor/Execute.antt =====
-- ModuleExecutor.execute of module_executor.py.
use runlet.Prelude.{
  ◌||◌, Option, none, some, List, [], ◌∷◌, ◌++◌, Text, text, nat_eq, list_eq, ◌==◌, if◌then◌else◌,
  Dict, lookup, Value, Result, ok, raise, strip,
}
use runlet.Prelude.Values.{str, field_of}
use runlet.Prelude.Search.{str_or_empty}
use runlet.RunCheck.Rows.{
  RunnerRunStatus, AuthInjectStatus, reused, refreshed, blocked, auth_status_value, auth_blocked,
  failure_category_value, optional_string,
}
use runlet.Executor.Params.{
  resolve_template_placeholders, coerce_params, coerce_optional_dict, coerce_menu_chain,
}
use runlet.Executor.Steps.{
  Called, Runtime, StepOutcome, passed, failed, raised, param, text_param, expect_truthy, auth_of,
  menu_output, filter_output, field_and_value, check_count, counted, matched_row, entered,
  failure_category_for_module,
}
use runlet.Executor.Locators.{coerce_locator_match, build_locator_output, located}

pub record StepExecutionResult : Type 0 where
  pub module_name : Text
  pub status : RunnerRunStatus
  pub detail : Option Text
  pub output : Option (Dict Text Value)

pub record ModuleExecutionResult : Type 0 where
  pub status : RunnerRunStatus
  pub auth_status : AuthInjectStatus
  pub step_results : List StepExecutionResult

abbrev pub route_entry : Text → Dict Text Value
route_entry route_path = (text "route_path", str route_path) ∷ []

abbrev pub optional_route : Option Text → Option (Dict Text Value)
optional_route none = none
optional_route (some route_path) = some (route_entry route_path)

abbrev pub auth_output : AuthInjectStatus → Dict Text Value
auth_output status = (text "auth_status", str (auth_status_value status)) ∷ []

abbrev pub blocked_output : Dict Text Value
blocked_output =
    (text "auth_status", str (text "blocked"))
    ∷ (text "failure_category", str (failure_category_value auth_blocked))
    ∷ []

abbrev pub with_auth :
    {W : Type 0}
    → AuthInjectStatus
    → W
    → Result Text AuthInjectStatus
    → StepOutcome × (AuthInjectStatus × W)
with_auth auth w (raise message) = (raised message, (auth, w))
with_auth auth w (ok reused) = (passed (some (auth_output reused)), (reused, w))
with_auth auth w (ok refreshed) = (passed (some (auth_output refreshed)), (refreshed, w))
with_auth auth w (ok AuthInjectStatus.blocked) = (failed none blocked_output, (blocked, w))

abbrev pub authed :
    {W : Type 0} → AuthInjectStatus → Called W → StepOutcome × (AuthInjectStatus × W)
authed auth (raise message, w) = (raised message, (auth, w))
authed auth (ok outcome, w) = with_auth auth w (auth_of outcome)

abbrev pub keep_auth :
    {W : Type 0} → AuthInjectStatus → StepOutcome × W → StepOutcome × (AuthInjectStatus × W)
keep_auth auth (outcome, w) = (outcome, (auth, w))

-- The result of a step that did not raise, or of one that did.
abbrev pub result_of : Text → StepOutcome → StepExecutionResult
result_of name (passed output) = record {
  module_name = name;
  status = RunnerRunStatus.passed;
  detail = none;
  output = output;
}
result_of name (failed detail output) = record {
  module_name = name;
  status = RunnerRunStatus.failed;
  detail = detail;
  output = some output;
}
result_of name (raised message) = record {
  module_name = name;
  status = RunnerRunStatus.failed;
  detail = some message;
  output = some (
      (text "failure_category", str (failure_category_value (failure_category_for_module name)))
      ∷ []);
}

abbrev pub ended :
    RunnerRunStatus → AuthInjectStatus → List StepExecutionResult → ModuleExecutionResult
ended status auth results = record { status = status; auth_status = auth; step_results = results }

-- A step that passed is followed by the next one; another ends the run.
abbrev pub after_step :
    {W : Type 0}
    → (AuthInjectStatus → List StepExecutionResult → W → ModuleExecutionResult × W)
    → Text
    → List StepExecutionResult
    → StepOutcome × (AuthInjectStatus × W)
    → ModuleExecutionResult × W
after_step next name results (passed output, (auth, w)) =
    next auth (results ++ result_of name (passed output) ∷ []) w
after_step next name results (failed detail output, (auth, w)) =
    (ended RunnerRunStatus.failed auth (results ++ result_of name (failed detail output) ∷ []), w)
after_step next name results (raised message, (auth, w)) =
    (ended RunnerRunStatus.failed auth (results ++ result_of name (raised message) ∷ []), w)

-- str(raw_step.get("module") or "")
abbrev pub module_of : Value → Text
module_of raw_step = str_or_empty (field_of (text "module") raw_step)

abbrev pub params_of : Option (Dict Text Value) → Value → Dict Text Value
params_of runtime_inputs raw_step =
    resolve_template_placeholders (coerce_params (field_of (text "params") raw_step)) runtime_inputs

module _ {W : Type 0} (runtime : Runtime W) where
  abbrev pub apply_filter : Dict Text Value → W → Option (Text × Value) → StepOutcome × W
  apply_filter params w none =
      (raised (text "action.apply_filter requires non-empty field and value"), w)
  apply_filter params w (some (field, value)) =
      let operator = text_param (text "operator") (text "equals") params in
      let carrier = text_param (text "carrier") (text "table") params in
      expect_truthy (text "action.apply_filter") (some (filter_output field operator value carrier))
        (runtime.apply_filter field operator value carrier w)

  abbrev pub row_exists : Dict Text Value → W → Option (Text × Value) → StepOutcome × W
  row_exists params w none =
      (raised (text "assert.row_exists_by_field requires non-empty field and value"), w)
  row_exists params w (some (field, value)) =
      let operator = text_param (text "operator") (text "equals") params in
      let carrier = text_param (text "carrier") (text "table") params in
      matched_row carrier field operator value
        (runtime.row_exists_by_field carrier field operator value w)

  -- The modules other than "auth.inject_state".
  unfoldable pub run_module : Text → Dict Text Value → W → StepOutcome × W
  unfolding lookup optional_string str_or_empty strip coerce_menu_chain check_count
      coerce_locator_match build_locator_output
  run_module name params w =
      let route_path = str_or_empty (param (text "route_path") params) in
      let carrier = text_param (text "carrier") (text "table") params in
      let pair =
        field_and_value (optional_string (param (text "field") params))
          (param (text "value") params) in
      if name == text "nav.menu_chain"
      then (let menu_chain = coerce_menu_chain (param (text "menu_chain") params) in
          expect_truthy name (some (menu_output menu_chain route_path))
            (runtime.navigate_menu_chain menu_chain route_path w))
      else if name == text "page.wait_ready"
      then expect_truthy name (some (route_entry route_path)) (runtime.wait_page_ready route_path w)
      else if name == text "assert.table_visible"
      then (let route = optional_string (param (text "route_path") params) in
          expect_truthy name (optional_route route) (runtime.assert_table_visible route w))
      else if name == text "assert.page_open" || name == text "assert.page_ready"
      then expect_truthy name (some (route_entry route_path))
          (runtime.assert_page_open route_path w)
      else if name == text "action.open_create_modal"
      then expect_truthy name none (runtime.open_create_modal w)
      else if name == text "action.apply_filter"
      then apply_filter params w pair
      else if name == text "action.submit_query"
      then expect_truthy name (some ((text "carrier", str carrier) ∷ []))
          (runtime.submit_query carrier w)
      else if name == text "assert.data_count"
      then counted params carrier (runtime.read_data_count carrier w)
      else if name == text "assert.row_exists_by_field"
      then row_exists params w pair
      else if name == text "state.enter"
      then (let signature = str_or_empty (param (text "state_signature") params) in
          entered signature (runtime.enter_state signature w))
      else if name == text "locator.assert"
      then located params (
          runtime.resolve_locator_bundle (coerce_params (param (text "locator_bundle") params))
            (coerce_optional_dict (param (text "context_constraints") params)) w)
      else (raised (text "unsupported module: " ++ name), w)

  unfoldable pub run_step :
      Text → Dict Text Value → Value → AuthInjectStatus → W → StepOutcome × (AuthInjectStatus × W)
  unfolding run_module auth_of
  run_step name params storage_state auth w =
      if name == text "auth.inject_state"
      then authed auth (runtime.inject_auth_state storage_state w)
      else keep_auth auth (run_module name params w)

  unfoldable pub execute_steps :
      Value
      → Option (Dict Text Value)
      → List Value
      → AuthInjectStatus
      → List StepExecutionResult
      → W
      → ModuleExecutionResult × W
  unfolding run_step str_or_empty resolve_template_placeholders lookup failure_category_for_module
  execute_steps storage_state runtime_inputs [] auth results w =
      (ended RunnerRunStatus.passed auth results, w)
  execute_steps storage_state runtime_inputs (raw_step ∷ steps) auth results w =
      after_step (execute_steps storage_state runtime_inputs steps) (module_of raw_step) results
        (run_step (module_of raw_step) (params_of runtime_inputs raw_step) storage_state auth w)

  -- ModuleExecutor.execute
  unfoldable pub execute :
      List Value → Value → Option (Dict Text Value) → W → ModuleExecutionResult × W
  unfolding execute_steps
  execute steps_json storage_state runtime_inputs w =
      execute_steps storage_state runtime_inputs steps_json blocked [] w
