-- ===== src/Assets/Plans/Templates.antt =====
-- The templates of template_registry.py. The strategies of the constants have the shape of a record, and
-- readonly, which is True for all, is left out.
use runlet.Prelude.{
  ◌&&◌, Option, none, some, List, [], ◌∷◌, Text, text, strip, if◌then◌else◌, ◌==◌, nat_eq, list_eq,
  filter, Dict, Value,
}
use runlet.Prelude.Values.{pos, int, str}
use runlet.Prelude.Search.{lower}

pub record CompileStrategy : Type 0 where
  pub action_chain : List Text
  pub action_params : Dict Text (Dict Text Value)
  pub assert_module : Text
  pub assert_params : Dict Text Value

pub record TemplateDefinition : Type 0 where
  pub template_code : Text
  pub template_version : Text
  pub supported_carriers : List Text
  pub required_slots : List Text
  pub assertion_contract : Dict Text Value
  pub compile_strategy : CompileStrategy

abbrev pub carriers : List Text
carriers = text "table" ∷ text "list" ∷ []

abbrev pub has_data : TemplateDefinition
has_data = record {
  template_code = text "has_data";
  template_version = text "v1";
  supported_carriers = carriers;
  required_slots = [];
  assertion_contract =
      (text "assertion", str (text "data_count")) ∷ (text "expected_min", int (pos 1)) ∷ [];
  compile_strategy = record {
    action_chain = text "action.submit_query" ∷ [];
    action_params = [];
    assert_module = text "assert.data_count";
    assert_params = (text "expected_min", int (pos 1)) ∷ [];
  };
}

abbrev pub no_data : TemplateDefinition
no_data = record {
  template_code = text "no_data";
  template_version = text "v1";
  supported_carriers = carriers;
  required_slots = [];
  assertion_contract =
      (text "assertion", str (text "data_count")) ∷ (text "expected_max", int (pos 0)) ∷ [];
  compile_strategy = record {
    action_chain = text "action.submit_query" ∷ [];
    action_params = [];
    assert_module = text "assert.data_count";
    assert_params = (text "expected_max", int (pos 0)) ∷ [];
  };
}

abbrev pub row_filter : Text → Text → Text → Dict Text Value
row_filter field operator value =
    (text "field", str field) ∷ (text "operator", str operator) ∷ (text "value", str value) ∷ []

-- A template that looks for a row, by the filter that it applies.
abbrev pub row_template : Text → List Text → Dict Text Value → TemplateDefinition
row_template template_code required_slots filters = record {
  template_code = template_code;
  template_version = text "v1";
  supported_carriers = carriers;
  required_slots = required_slots;
  assertion_contract = (text "assertion", str (text "row_exists_by_field")) ∷ filters;
  compile_strategy = record {
    action_chain = text "action.apply_filter" ∷ text "action.submit_query" ∷ [];
    action_params = (text "action.apply_filter", filters) ∷ [];
    assert_module = text "assert.row_exists_by_field";
    assert_params = filters;
  };
}

abbrev pub field_equals_exists : TemplateDefinition
field_equals_exists =
    row_template (text "field_equals_exists") (text "field" ∷ text "operator" ∷ text "value" ∷ [])
      (row_filter (text "{{field}}") (text "{{operator}}") (text "{{value}}"))

abbrev pub status_exists : TemplateDefinition
status_exists =
    row_template (text "status_exists") (text "status" ∷ [])
      (row_filter (text "status") (text "equals") (text "{{status}}"))

abbrev pub count_gte : TemplateDefinition
count_gte = record {
  template_code = text "count_gte";
  template_version = text "v1";
  supported_carriers = carriers;
  required_slots = text "min_count" ∷ [];
  assertion_contract =
      (text "assertion", str (text "data_count"))
      ∷ (text "expected_min", str (text "{{min_count}}"))
      ∷ [];
  compile_strategy = record {
    action_chain = text "action.submit_query" ∷ [];
    action_params = [];
    assert_module = text "assert.data_count";
    assert_params = (text "expected_min", str (text "{{min_count}}")) ∷ [];
  };
}

abbrev pub template_definitions : List TemplateDefinition
template_definitions = has_data ∷ no_data ∷ field_equals_exists ∷ status_exists ∷ count_gte ∷ []

-- _normalize_text of a text
unfoldable pub normalize : Text → Text
unfolding strip lower
normalize value = lower (strip value)

abbrev pub or_v1 : Text → Text
or_v1 [] = text "v1"
or_v1 (c ∷ s) = c ∷ s

unfoldable pub list_templates : Text → List TemplateDefinition
unfolding normalize filter
list_templates version =
    filter (λ (t : TemplateDefinition). t.template_version == or_v1 (normalize version))
      template_definitions

unfoldable pub find_template : Text → Text → List TemplateDefinition → Option TemplateDefinition
find_template code version [] = none
find_template code version (template ∷ rest) =
    if template.template_code == code && template.template_version == version
    then some template
    else find_template code version rest

unfoldable pub get_template : Text → Text → Option TemplateDefinition
unfolding normalize find_template
get_template template_code version =
    find_template (normalize template_code) (or_v1 (normalize version)) template_definitions
