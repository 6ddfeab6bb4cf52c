-- ===== src/Executor/Params.antt =====
-- The parameters of a step: data_assertion_modules.py, and how module_executor.py reads them.
use mathlib.Core.List.{reverse}
use runlet.Prelude.{
  ℕ, Bool, false, ◌&&◌, ◌||◌, not, Option, none, some, List, [], ◌∷◌, ◌++◌, map, all, Text, text,
  strip, is_empty, if◌then◌else◌, leb, nat_beq, nat_eq, list_eq, Dict, lookup, get_or, Value,
  Result, ok, raise, ℤ,
}
use runlet.Prelude.Values.{
  pos, null, int, str, list, dict, py_str, show_nat, show_int, from_items, from_fields,
}
use runlet.Prelude.Texts.{drop_while}
use runlet.Prelude.Orders.{int_leb}
use runlet.Scheduling.Cron.{is_digit, parse_int}

abbrev pub is_word_char : ℕ → Bool
is_word_char c =
    leb b'a' c && leb c b'z' || leb b'A' c && leb c b'Z' || is_digit c || nat_beq c b'_'

-- The text after two braces.
abbrev pub after_braces : ℕ → Text → Option Text
after_braces brace [] = none
after_braces brace (c ∷ []) = none
after_braces brace (c ∷ (d ∷ s)) = if nat_beq c brace && nat_beq d brace then some s else none

abbrev pub word_of : Text → Option Text
word_of s = if not (is_empty s) && all is_word_char s then some s else none

abbrev pub until_braces : Option Text → Option Text
until_braces none = none
until_braces (some s) = word_of (strip (reverse s))

abbrev pub between_braces : Option Text → Option Text
between_braces none = none
between_braces (some s) = until_braces (after_braces b'}' (reverse s))

-- The group of _PLACEHOLDER_PATTERN in a text without white space around it.
unfoldable pub placeholder_key : Text → Option Text
unfolding strip all
placeholder_key s = between_braces (after_braces b'{' s)

abbrev pub value_of_key : Dict Text Value → Value → Option Text → Value
value_of_key runtime_inputs value none = value
value_of_key runtime_inputs value (some key) = get_or value (lookup key runtime_inputs)

-- _resolve_value
unfoldable pub resolve_value : Dict Text Value → Value → Value
unfolding placeholder_key strip lookup
resolve_value runtime_inputs (str s) =
    value_of_key runtime_inputs (str s) (placeholder_key (strip s))
resolve_value runtime_inputs value = value

abbrev pub resolve_entries : Dict Text Value → Dict Text Value → Dict Text Value
resolve_entries params [] = params
resolve_entries params ((k, v) ∷ runtime_inputs) =
    map (λ (e : Text × Value). (e.0, resolve_value ((k, v) ∷ runtime_inputs) e.1)) params

unfoldable pub resolve_template_placeholders :
    Dict Text Value → Option (Dict Text Value) → Dict Text Value
unfolding resolve_value
resolve_template_placeholders params none = params
resolve_template_placeholders params (some runtime_inputs) = resolve_entries params runtime_inputs

-- text.isdigit(), for the digits of ASCII
abbrev pub is_digits : Text → Bool
is_digits s = not (is_empty s) && all is_digit s

abbrev pub or_invalid_literal : Text → Option ℤ → Result Text (Option ℤ)
or_invalid_literal s (some n) = ok (some n)
or_invalid_literal s none =
    raise (text "invalid literal for int() with base 10: '" ++ s ++ text "'")

-- int() of a text of digits with minus signs before them raises if these are more than one.
abbrev pub int_of_text : Text → Result Text (Option ℤ)
int_of_text s =
    if is_digits (drop_while (λ c. nat_beq c b'-') s)
    then or_invalid_literal s (parse_int s)
    else ok none

unfoldable pub coerce_optional_int : Value → Result Text (Option ℤ)
unfolding all strip drop_while parse_int
coerce_optional_int (int n) = ok (some n)
coerce_optional_int (str s) = int_of_text (strip s)
coerce_optional_int _ = ok none

abbrev pub is_below : ℕ → Option ℤ → Bool
is_below count none = false
is_below count (some n) = not (int_leb n (pos count))

abbrev pub is_above : ℕ → Option ℤ → Bool
is_above count none = false
is_above count (some n) = not (int_leb (pos count) n)

abbrev pub show_bound : Option ℤ → Text
show_bound none = text "None"
show_bound (some n) = show_int n

unfoldable pub validate_data_count_assertion : ℕ → Option ℤ → Option ℤ → Result Text (Unit {0})
unfolding show_int show_nat
validate_data_count_assertion count expected_min expected_max =
    if is_below count expected_min
    then raise (
        text "data_count_assertion_failed: expected at least "
        ++ show_bound expected_min
        ++ text ", got "
        ++ show_nat count)
    else if is_above count expected_max
    then raise (
        text "data_count_assertion_failed: expected at most "
        ++ show_bound expected_max
        ++ text ", got "
        ++ show_nat count)
    else ok tt

-- _coerce_params
abbrev pub coerce_params : Value → Dict Text Value
coerce_params (dict _ fields) = from_fields fields
coerce_params _ = []

-- _coerce_optional_dict
abbrev pub coerce_optional_dict : Value → Option (Dict Text Value)
coerce_optional_dict (dict _ fields) = some (from_fields fields)
coerce_optional_dict _ = none

unfoldable pub texts_of : List Value → List Text
unfolding py_str
texts_of [] = []
texts_of (null ∷ items) = texts_of items
texts_of (item ∷ items) = py_str item ∷ texts_of items

-- _coerce_menu_chain
unfoldable pub coerce_menu_chain : Value → List Text
unfolding texts_of from_items
coerce_menu_chain (list _ items) = texts_of (from_items items)
coerce_menu_chain _ = []
