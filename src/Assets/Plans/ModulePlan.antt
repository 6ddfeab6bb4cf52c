-- ===== src/Assets/Plans/ModulePlan.antt =====
-- build_module_plan of module_plan_builder.py.
use runlet.Prelude.{
  Bool, true, false, ◌&&◌, ◌||◌, not, Option, none, some, List, [], ◌∷◌, ◌++◌, Text, text, strip,
  is_empty, if◌then◌else◌, ◌==◌, nat_eq, list_eq, Dict, lookup, insert, get_or, Value, Result, ok,
  ◌>>=◌,
}
use runlet.Prelude.Values.{null, str, new_dict, new_list, iterate, TypeError}
use runlet.Prelude.Search.{lower, truthy, str_or_empty}
use runlet.Assets.Plans.Templates.{CompileStrategy, TemplateDefinition, get_template}

-- {"module": ..., "params": ...}
pub record Step : Type 0 where
  pub module_name : Text
  pub params : Dict Text Value

pub record ModulePlanDraft : Type 0 where
  pub check_code : Text
  pub plan_version : Text
  pub steps_json : List Step

abbrev pub step : Text → Dict Text Value → Step
step module_name params = record { module_name = module_name; params = params }

-- page_context.get(key), and the text of it
abbrev pub context_value : Text → Dict Text Value → Value
context_value key page_context = get_or null (lookup key page_context)

abbrev pub context_text : Text → Dict Text Value → Text
context_text key page_context = str_or_empty (context_value key page_context)

-- list(page_context.get("menu_chain", []))
abbrev pub menu_chain_of : Option Value → Result TypeError (List Value)
menu_chain_of none = ok []
menu_chain_of (some value) = iterate value

unfoldable pub assertion_name : Text → Text
assertion_name check_code =
    if check_code == text "table_render"
    then text "table_visible"
    else if check_code == text "tab_switch_render"
    then text "table_visible"
    else if check_code == text "open_create_modal"
    then text "page_ready"
    else if check_code == text "open_create_modal_state"
    then text "modal_visible"
    else text "page_ready"

unfoldable pub expected_element_type : Text → Text
expected_element_type check_code =
    if check_code == text "table_render" || check_code == text "tab_switch_render"
    then text "table"
    else if check_code == text "open_create_modal"
    then text "button"
    else if check_code == text "open_create_modal_state"
    then text "dialog"
    else text "page"

unfoldable pub uses_legacy_open_create_action : Text → Text → Text → Bool
uses_legacy_open_create_action check_code state_signature default_state_signature =
    if not (check_code == text "open_create_modal")
    then false
    else if is_empty state_signature
    then true
    else state_signature == default_state_signature

unfoldable pub resolve_carrier_hint : Dict Text Value → Text
unfolding lookup str_or_empty lower strip
resolve_carrier_hint page_context =
    let carrier_hint = lower (strip (context_text (text "carrier_hint") page_context)) in
    if carrier_hint == text "table" || carrier_hint == text "list"
    then carrier_hint
    else if truthy (context_value (text "has_table") page_context)
    then text "table"
    else text "list"

-- params.update(other)
unfoldable pub update : Dict Text Value → Dict Text Value → Dict Text Value
unfolding insert
update params [] = params
update params ((key, value) ∷ other) = update (insert key value params) other

abbrev pub carrier_params : Text → Option (Dict Text Value) → Dict Text Value
unfolding update
carrier_params carrier none = (text "carrier", str carrier) ∷ []
carrier_params carrier (some other) = update ((text "carrier", str carrier) ∷ []) other

unfoldable pub action_steps : Text → Dict Text (Dict Text Value) → List Text → List Step
unfolding update lookup
action_steps carrier action_params [] = []
action_steps carrier action_params (name ∷ names) =
    step name (carrier_params carrier (lookup name action_params))
    ∷ action_steps carrier action_params names

-- _build_template_chain_steps, for the template that was found
unfoldable pub template_chain_steps : CompileStrategy → Text → List Step
unfolding action_steps
template_chain_steps strategy carrier =
    let steps = action_steps carrier strategy.action_params strategy.action_chain in
    if is_empty strategy.assert_module
    then steps
    else steps
      ++ step strategy.assert_module (carrier_params carrier (some strategy.assert_params)) ∷ []

-- locator_bundle or {"candidates": []}
abbrev pub bundle_or_empty : Value → Value
bundle_or_empty locator_bundle =
    if truthy locator_bundle
    then locator_bundle
    else new_dict ((text "candidates", new_list []) ∷ [])

unfoldable pub locator_step : Text → Value → Step
unfolding assertion_name expected_element_type
locator_step check_code locator_bundle = step (text "locator.assert") (
    (text "assertion", str (assertion_name check_code))
    ∷ (text "expected_element_type", str (expected_element_type check_code))
    ∷ (text "locator_bundle", bundle_or_empty locator_bundle)
    ∷ [])

abbrev pub entry_steps : List Value → Text → List Step
entry_steps menu_chain route_path =
    step (text "auth.inject_state") ((text "policy", str (text "server_injected")) ∷ [])
    ∷ step (text "nav.menu_chain")
        ((text "menu_chain", new_list menu_chain) ∷ (text "route_path", str route_path) ∷ [])
    ∷ step (text "page.wait_ready") ((text "route_path", str route_path) ∷ [])
    ∷ []

-- The state that is entered, if it is not the default one.
abbrev pub state_steps : Text → Text → List Step
state_steps state_signature default_state_signature =
    if not (is_empty state_signature) && not (state_signature == default_state_signature)
    then step (text "state.enter") ((text "state_signature", str state_signature) ∷ []) ∷ []
    else []

abbrev pub closing_steps :
    Text → Text → Text → Dict Text Value → Value → Option TemplateDefinition → List Step
closing_steps check_code signature default page_context locator_bundle (some template) =
    template_chain_steps template.compile_strategy (resolve_carrier_hint page_context)
closing_steps check_code signature default page_context locator_bundle none =
    if uses_legacy_open_create_action check_code signature default
    then locator_step check_code locator_bundle ∷ step (text "action.open_create_modal") [] ∷ []
    else locator_step check_code locator_bundle ∷ []

abbrev pub text_or_empty : Option Text → Text
text_or_empty none = []
text_or_empty (some s) = s

-- The locator bundle is `null` for None.
unfoldable pub build_module_plan :
    Text → Dict Text Value → Option Text → Value → Result TypeError ModulePlanDraft
unfolding get_template iterate lookup str_or_empty template_chain_steps resolve_carrier_hint
    locator_step uses_legacy_open_create_action
build_module_plan check_code page_context state_signature locator_bundle = do
  menu_chain ← menu_chain_of (lookup (text "menu_chain") page_context)
  let signature = text_or_empty state_signature
  let default = context_text (text "default_state_signature") page_context
  ok (record {
    check_code = check_code;
    plan_version = text "v1";
    steps_json =
        entry_steps menu_chain (context_text (text "route_path") page_context)
        ++ (state_steps signature default
            ++ closing_steps check_code signature default page_context locator_bundle
                (get_template check_code (text "v1")));
  })
