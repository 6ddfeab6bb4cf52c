-- ===== src/Executor/Plans.antt =====
-- The plans that the compiler builds, run by the executor.
use mathlib.Core.Path.{subst}
use runlet.Prelude.{
  Bool, true, false, ◌&&◌, ◌||◌, not, ◌≡◌, refl, sym, ap, ◌∙◌, Option, none, some, List, [], ◌∷◌,
  ◌++◌, map, Text, text, nat_eq, list_eq, ◌==◌, if◌then◌else◌, contains, Dict, Value, Result, ok,
  arith, lookup,
}
use runlet.Prelude.Values.{str, new_dict, to_fields, from_fields}
use runlet.Prelude.Search.{str_or_empty}
use runlet.RunCheck.Rows.{RunnerRunStatus}
use runlet.Assets.Plans.ModulePlan.{Step, ModulePlanDraft, build_module_plan}
use runlet.Assets.Plans.Shape.{modules, build_module_plan-modules}
use runlet.Executor.Steps.{Runtime}
use runlet.Executor.Execute.{StepExecutionResult, module_of, execute}
use runlet.Executor.Trace.{IsTrace, IfPassed, is_blocked, auth_module, execute-IsTrace}

-- The dict of a step, as it is stored in steps_json.
abbrev pub step_value : Step → Value
step_value s =
    new_dict ((text "module", str s.module_name) ∷ (text "params", new_dict s.params) ∷ [])

or_empty : (name : Text) → str_or_empty (str name) ≡ name
unfolding str_or_empty runlet.Prelude.Values.py_str
or_empty [] = refl
or_empty (c ∷ name) = refl

module_of-step_value : (s : Step) → module_of (step_value s) ≡ s.module_name
unfolding lookup to_fields from_fields runlet.Prelude.list_beq
module_of-step_value s = or_empty s.module_name

modules-step_value : (steps : List Step) → map module_of (map step_value steps) ≡ modules steps
modules-step_value [] = refl
modules-step_value (s ∷ steps) =
    rw (module_of-step_value s) (ap (◌∷◌ s.module_name) (modules-step_value steps))

abbrev pub result_modules : List StepExecutionResult → List Text
result_modules results = map (λ (r : StepExecutionResult). r.module_name) results

if_passed : (status : RunnerRunStatus) (A B : Type 0) → IfPassed status A B → (B → ⊥) → A
if_passed RunnerRunStatus.passed A B h never = h
if_passed RunnerRunStatus.failed A B h never = absurd (never h)
if_passed RunnerRunStatus.running A B h never = absurd h

-- A run that passed ran all modules.
passed_modules :
    (names : List Text) (rs : List StepExecutionResult)
    → IsTrace names rs RunnerRunStatus.passed
    → result_modules rs ≡ names
passed_modules names [] h = sym h.0
passed_modules [] (r ∷ rs) h = absurd h
passed_modules (name ∷ names) (r ∷ rs) (same, rest) = rw same (
    ap (◌∷◌ name)
      (passed_modules names rs (if_passed r.status _ _ rest (λ b. ground (arith, b.1)))))

logs_in :
    (check_code : Text) (page_context : Dict Text Value) (state_signature : Option Text)
    (locator_bundle : Value) (plan : ModulePlanDraft)
    → build_module_plan check_code page_context state_signature locator_bundle ≡ ok plan
    → contains auth_module (modules plan.steps_json) ≡ true
unfolding contains runlet.Prelude.list_beq
logs_in check_code page_context state_signature locator_bundle plan built =
    ap (contains auth_module)
      (build_module_plan-modules check_code page_context state_signature locator_bundle plan built)

-- For a plan that the compiler built, any runtime and any inputs: if the run of its steps passes, every
-- module of the plan has its result, in order, and the run is not blocked.
pub build_module_plan-execute :
    {W : Type 0} (runtime : Runtime W) (check_code : Text) (page_context : Dict Text Value)
    (state_signature : Option Text) (locator_bundle : Value) (plan : ModulePlanDraft)
    (storage : Value) (inputs : Option (Dict Text Value)) (w : W)
    → build_module_plan check_code page_context state_signature locator_bundle ≡ ok plan
    → (execute runtime (map step_value plan.steps_json) storage inputs w).0.status
      ≡ RunnerRunStatus.passed
    → (result_modules
          (execute runtime (map step_value plan.steps_json) storage inputs w).0.step_results
        ≡ modules plan.steps_json)
      × (is_blocked
            (execute runtime (map step_value plan.steps_json) storage inputs w).0.auth_status
          ≡ false)
build_module_plan-execute runtime check_code page_context state_signature locator_bundle plan
      storage inputs w built ok_status =
    let steps = map step_value plan.steps_json in
    let same = modules-step_value plan.steps_json in
    let (trace, keeps) = execute-IsTrace runtime storage inputs steps w in
    let results = (execute runtime steps storage inputs w).0.step_results in
    (
      passed_modules (map module_of steps) results
            (subst (IsTrace (map module_of steps) results) ok_status trace)
          ∙ same,
      keeps ok_status
          ∙ ap (λ names. not (contains auth_module names)) same
          ∙ ap not (logs_in check_code page_context state_signature locator_bundle plan built),
    )
