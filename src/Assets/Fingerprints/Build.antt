-- ===== src/Assets/Fingerprints/Build.antt =====
-- build_page_fingerprint of asset_compiler/fingerprints.py. SHA-256 is a parameter: a function from
-- texts to the hexadecimal texts of their hashes.
use runlet.Prelude.{
  Bool, true, false, ◌&&◌, ◌||◌, not, Option, none, some, List, [], ◌∷◌, map, Text, text, is_empty,
  if◌then◌else◌, ◌==◌, nat_eq, list_eq, length, lookup, sort, text_leb, Value,
}
use runlet.Prelude.Values.{
  ℤ, pos, bool, int, str, list, dict, normalize_text, field_of, from_items, from_fields, new_dict,
  new_list,
}
use runlet.Prelude.Orders.{lex, int_leb, int_eq}

-- payload if isinstance(payload, dict) else {}
abbrev pub text_of : Text → Value → Text
text_of key value = normalize_text (field_of key value)

abbrev pub clean_int : Value → ℤ
clean_int (bool true) = pos 1
clean_int (bool false) = pos 0
clean_int (int n) = n
clean_int _ = pos 0

pub record PageText : Type 0 where
  pub route_path : Text
  pub page_title : Text
  pub page_summary : Text

unfoldable pub normalize_page : Value → PageText
unfolding normalize_text lookup
normalize_page page = record {
  route_path = text_of (text "route_path") page;
  page_title = text_of (text "page_title") page;
  page_summary = text_of (text "page_summary") page;
}

pub record MenuText : Type 0 where
  pub label : Text
  pub route_path : Text
  pub depth : ℤ
  pub sort_order : ℤ

abbrev pub is_dict : Value → Bool
is_dict (dict _ _) = true
is_dict _ = false

-- An item that is no dict is skipped.
unfoldable pub read_menu : Value → Option MenuText
unfolding normalize_text lookup
read_menu item =
    if is_dict item
    then some (record {
      label = text_of (text "label") item;
      route_path = text_of (text "route_path") item;
      depth = clean_int (field_of (text "depth") item);
      sort_order = clean_int (field_of (text "sort_order") item);
    })
    else none

abbrev pub cons_some {ℓ} : {A : Type ℓ} → Option A → List A → List A
cons_some none xs = xs
cons_some (some x) xs = x ∷ xs

unfoldable pub read_menus : List Value → List MenuText
unfolding read_menu
read_menus [] = []
read_menus (item ∷ items) = cons_some (read_menu item) (read_menus items)

abbrev pub menu_key : MenuText → ℤ × (ℤ × (Text × Text))
menu_key menu = (menu.depth, (menu.sort_order, (menu.label, menu.route_path)))

abbrev pub menu_leb : MenuText → MenuText → Bool
menu_leb a b = lex int_leb (lex int_leb (lex text_leb text_leb)) (menu_key a) (menu_key b)

-- What a list holds; any other value holds nothing.
abbrev pub items_of : Value → List Value
items_of (list _ xs) = from_items xs
items_of _ = []

unfoldable pub normalize_menus : Value → List MenuText
unfolding read_menus
normalize_menus menus = sort menu_leb (read_menus (items_of menus))

pub record Candidate : Type 0 where
  pub strategy_type : Text
  pub selector : Text

unfoldable pub read_candidates : List Value → List Candidate
unfolding normalize_text lookup
read_candidates [] = []
read_candidates (item ∷ items) =
    let rest = read_candidates items in
    let strategy_type = text_of (text "strategy_type") item in
    let selector = text_of (text "selector") item in
    if not (is_dict item) || is_empty strategy_type && is_empty selector
    then rest
    else record { strategy_type = strategy_type; selector = selector } ∷ rest

unfoldable pub normalize_locator_bundle_summary : Value → Value
unfolding read_candidates
normalize_locator_bundle_summary bundle =
    let candidates = read_candidates (items_of (field_of (text "candidates") bundle)) in
    new_dict (
      (text "candidate_count", int (pos (length candidates)))
      ∷ (text "strategies", new_list (map (λ (c : Candidate). str c.strategy_type) candidates))
      ∷ (text "selectors", new_list (map (λ (c : Candidate). str c.selector) candidates))
      ∷ [])

abbrev field_leb : Text × Value → Text × Value → Bool
field_leb (key, _) (other, _) = text_leb key other

-- {str(key): value[key] for key in sorted(value)}
unfoldable pub normalize_attributes : Value → Value
normalize_attributes (dict _ fs) = new_dict (sort field_leb (from_fields fs))
normalize_attributes _ = new_dict []

pub record ElementText : Type 0 where
  pub element_type : Text
  pub element_role : Text
  pub element_text : Text
  pub playwright_locator : Text
  pub state_signature : Text
  pub usage_description : Text
  pub attributes : Value
  pub locator_bundle_summary : Value

unfoldable pub read_elements : List Value → List ElementText
unfolding normalize_text lookup normalize_attributes normalize_locator_bundle_summary
read_elements [] = []
read_elements (item ∷ items) =
    let rest = read_elements items in
    if is_dict item
    then record {
      element_type = text_of (text "element_type") item;
      element_role = text_of (text "element_role") item;
      element_text = text_of (text "element_text") item;
      playwright_locator = text_of (text "playwright_locator") item;
      state_signature = text_of (text "state_signature") item;
      usage_description = text_of (text "usage_description") item;
      attributes = normalize_attributes (field_of (text "attributes") item);
      locator_bundle_summary =
          normalize_locator_bundle_summary (field_of (text "locator_bundle") item);
    }
      ∷ rest
    else rest

abbrev pub texts_leb : List Text → List Text → Bool
texts_leb [] t = true
texts_leb (a ∷ s) [] = false
texts_leb (a ∷ s) (b ∷ t) = let rest = texts_leb s t in if a == b then rest else text_leb a b

-- The projection to the fields that fingerprints had before, in an order of its own.
unfoldable pub legacy_elements_projection : List ElementText → List ElementText
legacy_elements_projection elements =
    sort
      (λ a b.
        texts_leb (a.element_type ∷ a.element_role ∷ a.element_text ∷ a.playwright_locator ∷ [])
          (b.element_type ∷ b.element_role ∷ b.element_text ∷ b.playwright_locator ∷ []))
      elements

abbrev pub page_value : PageText → Value
page_value page = new_dict (
    (text "route_path", str page.route_path)
    ∷ (text "page_title", str page.page_title)
    ∷ (text "page_summary", str page.page_summary)
    ∷ [])

abbrev pub menu_value : MenuText → Value
menu_value menu = new_dict (
    (text "label", str menu.label)
    ∷ (text "route_path", str menu.route_path)
    ∷ (text "depth", int menu.depth)
    ∷ (text "sort_order", int menu.sort_order)
    ∷ [])
