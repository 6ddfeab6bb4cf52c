-- ===== src/Executor/Tests.antt =====
-- The plan of a modal, run where every call succeeds and where the state is not reached.
use runlet.Prelude.{
  ℕ, ◌+◌, Bool, true, false, ◌≡◌, refl, Option, none, some, List, [], ◌∷◌, map, Text, text, Value,
  Result, ok, nat_eq, list_eq, raise,
}
use runlet.Prelude.Values.{null, bool, int, pos, str, new_dict}
use runlet.RunCheck.Rows.{RunnerRunStatus, blocked}
use runlet.Assets.Plans.ModulePlan.{ModulePlanDraft}
use runlet.Assets.Plans.Shape.{modules}
use runlet.Assets.Plans.Tests.{users_context, modal_plan, modal_plan_built}
use runlet.Executor.Params.{resolve_template_placeholders, coerce_optional_int}
use runlet.Executor.Steps.{Runtime, Called}
use runlet.Executor.Execute.{StepExecutionResult, module_of, execute}
use runlet.Executor.Trace.{IsTrace, is_blocked, KeepsAuth, execute-IsTrace}
use runlet.Executor.Plans.{step_value, result_modules, build_module_plan-execute}

-- Each call gives True; the states of the clock count the calls.
abbrev yes : ℕ → Called ℕ
yes w = (ok (bool true), w + 1)

abbrev runtime_with : Result Text Value → Runtime ℕ
runtime_with reached = record {
  inject_auth_state = λ storage w. yes w;
  navigate_menu_chain = λ chain route w. yes w;
  wait_page_ready = λ route w. yes w;
  assert_table_visible = λ route w. yes w;
  assert_page_open = λ route w. yes w;
  open_create_modal = yes;
  apply_filter = λ field operator value carrier w. yes w;
  submit_query = λ carrier w. yes w;
  read_data_count = λ carrier w. (ok (int (pos 3)), w + 1);
  row_exists_by_field = λ carrier field operator value w. yes w;
  enter_state = λ signature w. (reached, w + 1);
  resolve_locator_bundle =
      λ bundle constraints w. (ok (new_dict ((text "matched", bool true) ∷ [])), w + 1);
}

abbrev modal_steps : List Value
modal_steps = map step_value modal_plan.steps_json

execute-IsTrace_example :
    IsTrace
      (map module_of modal_steps)
      (execute (runtime_with (raise [])) modal_steps null none 0).0.step_results
      (execute (runtime_with (raise [])) modal_steps null none 0).0.status
    × KeepsAuth
        (map module_of modal_steps)
        blocked
        (execute (runtime_with (raise [])) modal_steps null none 0).0
execute-IsTrace_example = execute-IsTrace (runtime_with (raise [])) null none modal_steps 0

-- The fourth step is the last one, if the state is not reached.
not_reached :
    map
      (λ (r : StepExecutionResult). r.status)
      (execute (runtime_with (raise [])) modal_steps null none 0).0.step_results
    ≡ RunnerRunStatus.passed ∷ RunnerRunStatus.passed ∷ RunnerRunStatus.passed
      ∷ RunnerRunStatus.failed ∷ []
unfolding execute runlet.Prelude.list_beq runlet.Prelude.Values.from_fields
    runlet.Prelude.Values.to_fields
not_reached = refl

modal_passes :
    (execute (runtime_with (ok (bool true))) modal_steps null none 0).0.status
    ≡ RunnerRunStatus.passed
unfolding execute runlet.Prelude.list_beq runlet.Prelude.Values.from_fields
    runlet.Prelude.Values.to_fields runlet.Assets.Plans.ModulePlan.locator_step
modal_passes = refl

build_module_plan-execute_example :
    (result_modules (execute (runtime_with (ok (bool true))) modal_steps null none 0).0.step_results
      ≡ modules modal_plan.steps_json)
    × (is_blocked (execute (runtime_with (ok (bool true))) modal_steps null none 0).0.auth_status
        ≡ false)
build_module_plan-execute_example =
    build_module_plan-execute (runtime_with (ok (bool true))) (text "open_create_modal_state")
      users_context (some (text "modal")) null modal_plan null none 0 modal_plan_built modal_passes

resolved :
    resolve_template_placeholders
      ((text "value", str (text " {{ name }} ")) ∷ (text "field", str (text "{{name")) ∷ [])
      (some ((text "name", int (pos 7)) ∷ []))
    ≡ (text "value", int (pos 7)) ∷ (text "field", str (text "{{name")) ∷ []
unfolding resolve_template_placeholders runlet.Prelude.list_beq
resolved = refl

coerced : coerce_optional_int (str (text " 12 ")) ≡ ok (some (pos 12))
unfolding coerce_optional_int
coerced = refl

two_signs :
    coerce_optional_int (str (text "--5"))
    ≡ raise (text "invalid literal for int() with base 10: '--5'")
unfolding coerce_optional_int
two_signs = refl
