-- ===== src/Assets/Plans/Shape.antt =====
-- The steps of a plan: the way in, then the state, then what is done and asserted.
use runlet.Prelude.{
  Bool, true, false, ◌&&◌, ◌||◌, not, ◌≡◌, refl, sym, ap, ◌∙◌, Option, none, some, List, [], ◌∷◌,
  ◌++◌, map, Text, text, is_empty, if◌then◌else◌, ◌==◌, nat_eq, list_eq, Dict, Value, lookup,
  Result, ok, raise, ◌>>=◌, Bool-cases, inl, inr, arith,
}
use runlet.Prelude.Values.{TypeError}
use runlet.Assets.Plans.Templates.{find_template, get_template, normalize}
use runlet.Assets.Plans.ModulePlan.{
  Step, ModulePlanDraft, context_text, menu_chain_of, text_or_empty, closing_steps,
  uses_legacy_open_create_action, template_chain_steps, locator_step, state_steps,
  build_module_plan, entry_steps,
}

abbrev pub modules : List Step → List Text
modules steps = map (λ (s : Step). s.module_name) steps

abbrev pub way_in : List Text
way_in = text "auth.inject_state" ∷ text "nav.menu_chain" ∷ text "page.wait_ready" ∷ []

abbrev count_modules : List Text
count_modules = text "action.submit_query" ∷ text "assert.data_count" ∷ []

abbrev row_modules : List Text
row_modules =
    text "action.apply_filter" ∷ text "action.submit_query" ∷ text "assert.row_exists_by_field" ∷ []

-- What a plan does and asserts, by its code without white space and case, and by whether the
-- modal is to be opened.
pub closing_modules : Text → Bool → List Text
closing_modules code opens_modal =
    if text "has_data" == code
    then count_modules
    else if text "no_data" == code
    then count_modules
    else if text "field_equals_exists" == code
    then row_modules
    else if text "status_exists" == code
    then row_modules
    else if text "count_gte" == code
    then count_modules
    else if opens_modal
    then text "locator.assert" ∷ text "action.open_create_modal" ∷ []
    else text "locator.assert" ∷ []

abbrev pub enters_state : Text → Text → List Text
enters_state signature default =
    if is_empty signature || signature == default then [] else text "state.enter" ∷ []

modules-closing_steps :
    (check_code signature default : Text) (page_context : Dict Text Value) (locator_bundle : Value)
    → modules (
        closing_steps check_code signature default page_context locator_bundle
          (get_template check_code (text "v1")))
      ≡ closing_modules
          (normalize check_code)
          (uses_legacy_open_create_action check_code signature default)
unfolding closing_modules find_template get_template template_chain_steps locator_step
    runlet.Prelude.list_beq
modules-closing_steps check_code signature default page_context locator_bundle =
    let code = normalize check_code in
    elim (Bool-cases (text "has_data" == code)) [
      | inl a ↦ rw a refl
      | inr a ↦ elim (Bool-cases (text "no_data" == code)) [
        | inl b ↦ rw (a, b) refl
        | inr b ↦ elim (Bool-cases (text "field_equals_exists" == code)) [
          | inl c ↦ rw (a, b, c) refl
          | inr c ↦ elim (Bool-cases (text "status_exists" == code)) [
            | inl d ↦ rw (a, b, c, d) refl
            | inr d ↦ elim (Bool-cases (text "count_gte" == code)) [
              | inl e ↦ rw (a, b, c, d, e) refl
              | inr e ↦
                  elim (Bool-cases (uses_legacy_open_create_action check_code signature default)) [
                    | inl l ↦ rw (a, b, c, d, e, l) refl
                    | inr l ↦ rw (a, b, c, d, e, l) refl
                  ]
            ]
          ]
        ]
      ]
    ]

modules-++ : (xs ys : List Step) → modules (xs ++ ys) ≡ modules xs ++ modules ys
modules-++ [] ys = refl
modules-++ (x ∷ xs) ys = ap (λ names. x.module_name ∷ names) (modules-++ xs ys)

modules-state_steps :
    (signature default : Text)
    → modules (state_steps signature default) ≡ enters_state signature default
modules-state_steps signature default = elim (Bool-cases (is_empty signature)) [
  | inl e ↦ rw e refl
  | inr e ↦ elim (Bool-cases (signature == default)) [
    | inl d ↦ rw (e, d) refl
    | inr d ↦ rw (e, d) refl
  ]
]

abbrev modules_of : Result TypeError ModulePlanDraft → List Text
modules_of (ok plan) = modules plan.steps_json
modules_of (raise e) = []

-- For every code, context, signature and bundle, a plan that is built enters the page first,
-- then the state if one is named that is not the default one, and ends with the steps of the
-- template of the code, or with the assertion on the locators and, for the modal of the default
-- state alone, its opening.
pub build_module_plan-modules :
    (check_code : Text) (page_context : Dict Text Value) (state_signature : Option Text)
    (locator_bundle : Value) (plan : ModulePlanDraft)
    → build_module_plan check_code page_context state_signature locator_bundle ≡ ok plan
    → modules plan.steps_json
      ≡ way_in
        ++ (enters_state
              (text_or_empty state_signature)
              (context_text (text "default_state_signature") page_context)
            ++ closing_modules (normalize check_code) (
                uses_legacy_open_create_action check_code
                  (text_or_empty state_signature)
                  (context_text (text "default_state_signature") page_context)))
unfolding build_module_plan
build_module_plan-modules check_code page_context state_signature locator_bundle plan built =
    go (menu_chain_of (lookup (text "menu_chain") page_context)) built
  where
    signature : Text
    signature = text_or_empty state_signature

    default : Text
    default = context_text (text "default_state_signature") page_context

    route_path : Text
    route_path = context_text (text "route_path") page_context

    closing : List Step
    closing =
        closing_steps check_code signature default page_context locator_bundle
          (get_template check_code (text "v1"))

    draft : List Value → ModulePlanDraft
    draft menu_chain = record {
      check_code = check_code;
      plan_version = text "v1";
      steps_json = entry_steps menu_chain route_path ++ (state_steps signature default ++ closing);
    }

    go :
        (r : Result TypeError (List Value))
        → (r >>= λ menu_chain. ok (draft menu_chain)) ≡ ok plan
        → modules plan.steps_json
          ≡ way_in
            ++ (enters_state signature default
                ++ closing_modules
                    (normalize check_code)
                    (uses_legacy_open_create_action check_code signature default))
    go (raise e) h = absurd (ground (arith, h))
    go (ok menu_chain) h =
        ap modules_of (sym h)
        ∙ ap (λ names. way_in ++ names)
            (modules-++ (state_steps signature default) closing
              ∙ ap (λ names. names ++ modules closing) (modules-state_steps signature default)
              ∙ ap (λ names. enters_state signature default ++ names)
                  (modules-closing_steps check_code signature default page_context locator_bundle))
