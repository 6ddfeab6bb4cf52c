-- ===== src/Assets/Plans/Checks.antt =====
-- build_standard_checks of check_templates.py. The locator bundle of a check, which is None here, is
-- left out.
use runlet.Prelude.{
  Bool, false, ◌&&◌, ◌||◌, not, Option, none, some, List, [], ◌∷◌, ◌++◌, map, Text, text, strip,
  is_empty, if◌then◌else◌, ◌==◌, nat_eq, list_eq, any, Dict, lookup, insert, values, get_or, Value,
}
use runlet.Prelude.Values.{null, str, normalize_text, new_dict, new_list}
use runlet.Prelude.Search.{has_part}
use runlet.Assets.Plans.Templates.{TemplateDefinition, list_templates}

pub record StandardCheckDefinition : Type 0 where
  pub check_code : Text
  pub goal : Text
  pub input_schema : Option (Dict Text Value)
  pub assertion_schema : Dict Text Value
  pub state_signature : Option Text

-- A check with an assertion and no inputs.
abbrev pub new_check : Text → Text → Text → Option Text → StandardCheckDefinition
new_check check_code goal assertion state_signature = record {
  check_code = check_code;
  goal = goal;
  input_schema = none;
  assertion_schema = (text "assertion", str assertion) ∷ [];
  state_signature = state_signature;
}

abbrev pub template_check : Option Text → TemplateDefinition → StandardCheckDefinition
template_check default_state_signature template = record {
  check_code = template.template_code;
  goal = template.template_code;
  input_schema =
      some
        ((text "required_slots", new_list (map (λ slot. str slot) template.required_slots)) ∷ []);
  assertion_schema = template.assertion_contract;
  state_signature = default_state_signature;
}

unfoldable pub build_template_checks : Option Text → List StandardCheckDefinition
unfolding list_templates
build_template_checks default_state_signature =
    map (template_check default_state_signature) (list_templates (text "v1"))

-- "新增", "创建" and "新建"
abbrev pub create_keywords : List Text
create_keywords = text "新增" ∷ text "创建" ∷ text "新建" ∷ []

unfoldable pub summary_suggests_create_action : Option Text → Bool
unfolding strip has_part any
summary_suggests_create_action none = false
summary_suggests_create_action (some page_summary) =
    not (is_empty page_summary)
    && any (λ keyword. has_part keyword (strip page_summary)) create_keywords

-- _clean_text of a text or None
abbrev pub clean_text : Option Text → Text
clean_text none = []
clean_text (some value) = strip value

-- The check of a state, by the way it is entered.
abbrev pub state_check : Text → Text → List StandardCheckDefinition
state_check state_signature entry_type =
    if entry_type == text "tab_switch"
    then new_check (text "tab_switch_render") (text "tab_switch_render") (text "table_visible")
        (some state_signature)
      ∷ []
    else if entry_type == text "open_modal"
    then new_check (text "open_create_modal_state") (text "open_create_modal")
        (text "modal_visible") (some state_signature)
      ∷ []
    else []

unfoldable pub build_representative_state_checks :
    List (Dict Text Value) → Option Text → List StandardCheckDefinition
unfolding normalize_text lookup strip
build_representative_state_checks [] default_state_signature = []
build_representative_state_checks (state ∷ states) default_state_signature =
    let rest = build_representative_state_checks states default_state_signature in
    let signature = normalize_text (get_or null (lookup (text "state_signature") state)) in
    let entry_type = normalize_text (get_or null (lookup (text "entry_type") state)) in
    if is_empty signature || signature == clean_text default_state_signature
    then rest
    else state_check signature entry_type ++ rest

abbrev pub open_create_modal : Option Text → StandardCheckDefinition
open_create_modal state_signature = record {
  check_code = text "open_create_modal";
  goal = text "open_create_modal";
  input_schema = none;
  assertion_schema =
      (text "assertion", str (text "page_ready"))
      ∷ (
        text "required_elements",
        new_list (
            new_dict ((text "kind", str (text "button")) ∷ (text "role", str (text "button")) ∷ [])
            ∷ []),
      )
      ∷ [];
  state_signature = state_signature;
}

-- The check is one of the default state.
abbrev pub is_default : Option Text → StandardCheckDefinition → Bool
is_default default_state_signature c =
    clean_text c.state_signature == clean_text default_state_signature

unfoldable pub prefer_new_check :
    Option Text → StandardCheckDefinition → StandardCheckDefinition → Bool
unfolding strip
prefer_new_check default_state_signature existing candidate =
    is_default default_state_signature existing
    && not (is_default default_state_signature candidate)

-- The loop over the checks: the dict of the selected ones.
abbrev pub select_one :
    Option Text
    → Dict Text StandardCheckDefinition
    → StandardCheckDefinition
    → Option StandardCheckDefinition
    → Dict Text StandardCheckDefinition
select_one default selected check none = insert check.check_code check selected
select_one default selected check (some existing) =
    if prefer_new_check default existing check
    then insert check.check_code check selected
    else selected

unfoldable pub select_checks :
    Option Text
    → Dict Text StandardCheckDefinition
    → List StandardCheckDefinition
    → Dict Text StandardCheckDefinition
unfolding lookup insert prefer_new_check
select_checks default selected [] = selected
select_checks default selected (check ∷ checks) =
    select_checks default (select_one default selected check (lookup check.check_code selected))
      checks

-- The checks before the selection.
abbrev pub candidate_checks :
    Option Text → Bool → Bool → List (Dict Text Value) → Option Text → List StandardCheckDefinition
candidate_checks page_summary has_table has_create_action representative_states default =
    new_check (text "page_open") (text "page_open") (text "page_ready") default
    ∷ ((if has_table
          then new_check (text "table_render") (text "table_render") (text "table_visible") default
            ∷ build_template_checks default
          else [])
        ++ ((if has_create_action || summary_suggests_create_action page_summary
              then open_create_modal default ∷ []
              else [])
            ++ build_representative_state_checks representative_states default))

-- No list of states is an empty one.
unfoldable pub build_standard_checks :
    Option Text → Bool → Bool → List (Dict Text Value) → Option Text → List StandardCheckDefinition
unfolding select_checks build_template_checks summary_suggests_create_action
    build_representative_state_checks
build_standard_checks page_summary has_table has_create_action representative_states default =
    values (
      select_checks default []
        (candidate_checks page_summary has_table has_create_action representative_states default))
