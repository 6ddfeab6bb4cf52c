-- ===== src/Assets/Reconcile/Dependencies.antt =====
-- build_blocking_dependency_json and _normalize_dependency_json of reconciliation.py.
use runlet.Prelude.{
  Bool, true, false, ◌||◌, ◌&&◌, not, Option, List, [], ◌∷◌, ◌++◌, map, Text, text, is_empty,
  if◌then◌else◌, ◌==◌, filter, dedupe, lookup, get_or, Value, Result, ok, ◌>>=◌, list_eq, nat_eq,
}
use runlet.Prelude.Values.{
  field_of, Fields, str, list, dict, end, field, TypeError, normalize_text, iterate, from_fields,
  to_items,
}
use runlet.Assets.Reconcile.Rows.{ElementRow, row_eq}

-- {"menu_chain": …, "required_elements": …}
pub record Dependencies : Type 0 where
  pub menu_chain : List Text
  pub required_elements : List ElementRow

-- value.get(key, [])
abbrev pub list_field : Text → Value → Value
list_field key (dict shown fields) =
    get_or (list (text "[]") (to_items [])) (lookup key (from_fields fields))
list_field key _ = list (text "[]") (to_items [])

-- [_normalize_text(label) for label in labels if _normalize_text(label)]
unfoldable pub labels : List Value → List Text
labels xs = filter (λ label. not (is_empty label)) (map normalize_text xs)

abbrev pub descriptor : Value → ElementRow
descriptor item = record {
  kind = normalize_text (field_of (text "kind") item);
  role = normalize_text (field_of (text "role") item);
  element_text = normalize_text (field_of (text "text") item);
}

-- bool(compacted)
abbrev pub has_text : ElementRow → Bool
has_text row =
    not (is_empty row.kind) || (not (is_empty row.role) || not (is_empty row.element_text))

abbrev pub is_dict : Value → Bool
is_dict (dict _ _) = true
is_dict _ = false

-- The loop over "required_elements": items that are no dict and empty descriptors are skipped.
unfoldable pub descriptors : List Value → List ElementRow
descriptors [] = []
descriptors (item ∷ items) =
    let rest = descriptors items in
    if is_dict item
    then (if has_text (descriptor item) then descriptor item ∷ rest else rest)
    else rest

abbrev pub table_element : ElementRow
table_element = record { kind = text "table"; role = text "table"; element_text = [] }

abbrev pub dialog_element : ElementRow
dialog_element = record { kind = text "dialog"; role = text "dialog"; element_text = [] }

-- The menu chain after a step: that of a "nav.menu_chain" step whose params are a dict.
unfoldable pub next_chain : Text → Value → List Text → Result TypeError (List Text)
unfolding labels
next_chain module_name params menu_chain =
    if module_name == text "nav.menu_chain" && is_dict params
    then iterate (list_field (text "menu_chain") params) >>= (λ found. ok (labels found))
    else ok menu_chain

-- One round of the loop over the steps: a step that is no dict is skipped.
unfoldable pub scan_step :
    List Text → List ElementRow → Value → Result TypeError (List Text × List ElementRow)
unfolding next_chain
scan_step menu_chain derived step =
    let module_name = normalize_text (field_of (text "module") step) in
    let params = field_of (text "params") step in
    if not (is_dict step)
    then ok (menu_chain, derived)
    else next_chain module_name params menu_chain >>= λ chain. ok (
      chain,
      if module_name == text "assert.table_visible" then derived ++ table_element ∷ [] else derived,
    )

-- The last menu chain, and what the steps that assert a table derive.
unfoldable pub scan_steps :
    List Text → List ElementRow → List Value → Result TypeError (List Text × List ElementRow)
unfolding scan_step
scan_steps menu_chain derived [] = ok (menu_chain, derived)
scan_steps menu_chain derived (step ∷ steps) = do
  (chain, derived') ← scan_step menu_chain derived step
  scan_steps chain derived' steps

-- What the assertion schema asks for: its own elements, and those that its name derives.
unfoldable pub scan_assertion : Value → Result TypeError (List ElementRow × List ElementRow)
unfolding descriptors
scan_assertion (dict shown fields) = do
  let assertion_name = normalize_text (field_of (text "assertion") (dict shown fields))
  items ← iterate (list_field (text "required_elements") (dict shown fields))
  ok (
    descriptors items,
    (if assertion_name == text "table_visible" then table_element ∷ [] else [])
        ++ (if assertion_name == text "modal_visible" then dialog_element ∷ [] else []),
  )
scan_assertion _ = ok ([], [])

abbrev pub assemble : List Text × List ElementRow → List ElementRow × List ElementRow → Dependencies
assemble (menu_chain, derived) (required, asserted) = record {
  menu_chain = menu_chain;
  required_elements = dedupe (required ++ (derived ++ asserted));
}

-- steps_json is None or a list, assertion_schema is None or a dict.
unfoldable pub build_blocking_dependency_json :
    Option (List Value) → Value → Result TypeError Dependencies
unfolding scan_steps scan_assertion labels
build_blocking_dependency_json steps_json assertion_schema = do
  scanned ← scan_steps [] [] (get_or [] steps_json)
  asserted ← scan_assertion assertion_schema
  ok (assemble scanned asserted)

unfoldable pub normalize_dependency_json : Value → Result TypeError Dependencies
unfolding labels descriptors
normalize_dependency_json (dict shown fields) = do
  chain ← iterate (list_field (text "menu_chain") (dict shown fields))
  items ← iterate (list_field (text "required_elements") (dict shown fields))
  ok (record { menu_chain = labels chain; required_elements = descriptors items })
normalize_dependency_json _ = ok (record { menu_chain = []; required_elements = [] })

-- A text under its key, unless it is empty: {key: value for … if value}
abbrev pub compact_field : Text → Text → Fields → Fields
compact_field key [] rest = rest
compact_field key (c ∷ s) rest = field key (str (c ∷ s)) rest

-- The records as the JSON that is stored; `shown` is what `str()` would give for a container.
unfoldable pub row_value : Text → ElementRow → Value
row_value shown row = dict shown (
    compact_field (text "kind") row.kind
      (compact_field (text "role") row.role (compact_field (text "text") row.element_text end)))

unfoldable pub dependency_value : Text → Dependencies → Value
unfolding row_value
dependency_value shown deps = dict shown (
    field (text "menu_chain") (list shown (to_items (map str deps.menu_chain))) (
      field (text "required_elements")
        (list shown (to_items (map (row_value shown) deps.required_elements))) end))
