-- ===== src/Executor/Locators.antt =====
-- The step "locator.assert" of module_executor.py.
use runlet.Prelude.{
  ℕ, suc, Bool, true, false, Option, none, some, [], ◌∷◌, ◌++◌, Text, text, nat_eq, list_eq,
  if◌then◌else◌, Dict, lookup, get_or, Value, ok, raise,
}
use runlet.Prelude.Values.{pos, null, bool, int, str, column}
use runlet.Prelude.Search.{truthy}
use runlet.RunCheck.Rows.{optional_string}
use runlet.Executor.Params.{coerce_params}
use runlet.Executor.Steps.{Called, StepOutcome, passed, failed, raised, param}

pub record LocatorMatch : Type 0 where
  pub matched : Bool
  pub matched_rank : Option ℕ
  pub strategy_type : Option Text
  pub failure_category : Text
  pub context_mismatch : Bool
  pub ambiguous_match : Bool

-- _coerce_positive_int
abbrev pub coerce_positive_int : Value → Option ℕ
coerce_positive_int (int (pos (suc n))) = some (suc n)
coerce_positive_int _ = none

-- _coerce_locator_match
unfoldable pub coerce_locator_match : Value → LocatorMatch
unfolding lookup optional_string
coerce_locator_match value =
    let payload = coerce_params value in
    if truthy (param (text "matched") payload)
    then record {
      matched = true;
      matched_rank = some (get_or 1 (coerce_positive_int (param (text "matched_rank") payload)));
      strategy_type = optional_string (param (text "strategy_type") payload);
      failure_category = [];
      context_mismatch = truthy (param (text "context_mismatch") payload);
      ambiguous_match = truthy (param (text "ambiguous_match") payload);
    }
    else record {
      matched = false;
      matched_rank = none;
      strategy_type = none;
      failure_category =
          get_or (text "locator_all_failed")
            (optional_string (param (text "failure_category") payload));
      context_mismatch = truthy (param (text "context_mismatch") payload);
      ambiguous_match = truthy (param (text "ambiguous_match") payload);
    }

abbrev pub rank_value : Option ℕ → Value
rank_value none = null
rank_value (some n) = int (pos n)

abbrev pub text_entry : Text → Option Text → Dict Text Value
text_entry key none = []
text_entry key (some value) = (key, str value) ∷ []

abbrev pub flag_entry : Text → Bool → Dict Text Value
flag_entry key false = []
flag_entry key true = (key, bool true) ∷ []

-- _build_locator_output
unfoldable pub build_locator_output : Option Text → Option Text → LocatorMatch → Dict Text Value
build_locator_output assertion expected_element_type m =
    (text "matched_rank", rank_value m.matched_rank)
    ∷ (text "strategy_type", column m.strategy_type)
    ∷ (text "failure_category", if m.matched then null else str m.failure_category)
    ∷ (text_entry (text "assertion") assertion
        ++ text_entry (text "expected_element_type") expected_element_type
        ++ flag_entry (text "context_mismatch") m.context_mismatch
        ++ flag_entry (text "ambiguous_match") m.ambiguous_match)

abbrev pub outcome_of_match : Dict Text Value → LocatorMatch → StepOutcome
outcome_of_match output m =
    if m.matched
    then passed (some output)
    else failed (some (text "locator assert failed: " ++ m.failure_category)) output

abbrev pub located : {W : Type 0} → Dict Text Value → Called W → StepOutcome × W
located params (raise message, w) = (raised message, w)
located params (ok value, w) =
    let m = coerce_locator_match value in
    (
      outcome_of_match
          (build_locator_output (optional_string (param (text "assertion") params))
            (optional_string (param (text "expected_element_type") params)) m)
          m,
      w,
    )
