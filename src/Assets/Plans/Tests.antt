-- ===== src/Assets/Plans/Tests.antt =====
-- A page with a table and a state behind a tab: its standard checks, and the plans of two of them.
use runlet.Prelude.{
  Bool, true, false, ◌≡◌, refl, Option, none, some, List, [], ◌∷◌, ◌++◌, map, Text, text, Dict,
  Value, ok,
}
use runlet.Prelude.Values.{null, str, new_list}
use runlet.Assets.Plans.ModulePlan.{
  ModulePlanDraft, step, entry_steps, context_text, text_or_empty, build_module_plan,
  uses_legacy_open_create_action, locator_step,
}
use runlet.Assets.Plans.Templates.{normalize}
use runlet.Assets.Plans.Checks.{StandardCheckDefinition, candidate_checks, build_standard_checks}
use runlet.Assets.Plans.Selected.{of_code, preferred}
use runlet.Assets.Plans.Unique.{to_list, build_standard_checks-preferred}
use runlet.Assets.Plans.Shape.{
  modules, way_in, enters_state, closing_modules, build_module_plan-modules,
}

abbrev pub users_context : Dict Text Value
users_context =
    (text "menu_chain", new_list (str (text "System") ∷ []))
    ∷ (text "route_path", str (text "/users"))
    ∷ (text "default_state_signature", str (text "base"))
    ∷ (text "has_table", str (text "yes"))
    ∷ []

abbrev pub modal_plan : ModulePlanDraft
modal_plan = record {
  check_code = text "open_create_modal_state";
  plan_version = text "v1";
  steps_json =
      entry_steps (str (text "System") ∷ []) (text "/users")
      ++ (step (text "state.enter") ((text "state_signature", str (text "modal")) ∷ [])
          ∷ locator_step (text "open_create_modal_state") null
          ∷ []);
}

pub modal_plan_built :
    build_module_plan (text "open_create_modal_state") users_context (some (text "modal")) null
    ≡ ok modal_plan
unfolding build_module_plan runlet.Prelude.list_beq runlet.Prelude.Values.to_items
modal_plan_built = refl

build_module_plan-modules_example :
    modules modal_plan.steps_json
    ≡ way_in
      ++ (enters_state
            (text_or_empty (some (text "modal")))
            (context_text (text "default_state_signature") users_context)
          ++ closing_modules (normalize (text "open_create_modal_state")) (
              uses_legacy_open_create_action
                (text "open_create_modal_state")
                (text_or_empty (some (text "modal")))
                (context_text (text "default_state_signature") users_context)))
build_module_plan-modules_example =
    build_module_plan-modules (text "open_create_modal_state") users_context (some (text "modal"))
      null modal_plan modal_plan_built

abbrev tab_states : List (Dict Text Value)
tab_states =
    ((text "state_signature", str (text "tab")) ∷ (text "entry_type", str (text "tab_switch")) ∷ [])
    ∷ ((text "state_signature", str (text "base"))
        ∷ (text "entry_type", str (text "tab_switch"))
        ∷ [])
    ∷ []

build_standard_checks-preferred_example :
    of_code
      (text "tab_switch_render")
      (build_standard_checks none true false tab_states (some (text "base")))
    ≡ to_list (
        preferred (some (text "base")) (
          of_code
            (text "tab_switch_render")
            (candidate_checks none true false tab_states (some (text "base")))))
build_standard_checks-preferred_example =
    build_standard_checks-preferred none true false tab_states (some (text "base"))
      (text "tab_switch_render")

users_checks :
    map
      (λ (c : StandardCheckDefinition). c.check_code)
      (build_standard_checks none true false tab_states (some (text "base")))
    ≡ text "page_open"
      ∷ text "table_render"
      ∷ text "has_data"
      ∷ text "no_data"
      ∷ text "field_equals_exists"
      ∷ text "status_exists"
      ∷ text "count_gte"
      ∷ text "tab_switch_render"
      ∷ []
unfolding build_standard_checks runlet.Prelude.list_beq
users_checks = refl
