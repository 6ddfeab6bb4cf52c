-- ===== src/Assets/Switch/Load.antt =====
-- _load_snapshot_semantic_state of current_state_switch.py.
use runlet.Prelude.{
  ℕ, Bool, not, Option, none, some, List, [], ◌∷◌, ◌++◌, map, Text, text, is_empty, strip,
  if◌then◌else◌, ◌==◌, list_eq, nat_eq, option_eq, filter, Dict, lookup, append_to, get_or, sort,
  text_leb, Value,
}
use runlet.Prelude.Values.{str, dict, field, normalize_text, column}
use runlet.Prelude.Json.{dumps_compact_ascii}
use runlet.Assets.Semantic.Fingerprints.{PageSemanticFingerprint, new_fingerprint, mapping}
use runlet.Assets.Switch.Rows.{Page, MenuNode, PageElement, Db}

-- "" unless the value is a dict with an entry
abbrev pub normalize_state_context : Value → Text
normalize_state_context (dict shown (field k v fs)) =
    dumps_compact_ascii (dict shown (field k v fs))
normalize_state_context _ = []

unfoldable pub build_element_semantic_text : PageElement → Text
build_element_semantic_text element =
    normalize_text (column element.element_text)
    ++ (text "|state="
        ++ (normalize_text (column element.state_signature)
            ++ (text "|context=" ++ normalize_state_context element.state_context)))

-- ORDER BY route_path, id
abbrev page_leb : Page → Page → Bool
page_leb a b =
    if a.route_path == b.route_path
    then text_leb (a.id ∷ []) (b.id ∷ [])
    else text_leb a.route_path b.route_path

-- ORDER BY page_id, depth, sort_order, id; the nodes with no page are dropped below.
abbrev menu_leb : MenuNode → MenuNode → Bool
menu_leb a b =
    text_leb (get_or 0 a.page_id ∷ a.depth ∷ a.sort_order ∷ a.id ∷ [])
      (get_or 0 b.page_id ∷ b.depth ∷ b.sort_order ∷ b.id ∷ [])

-- ORDER BY page_id, element_type, id
abbrev element_leb : PageElement → PageElement → Bool
element_leb a b =
    text_leb (a.page_id ∷ (a.element_type ++ 0 ∷ a.id ∷ []))
      (b.page_id ∷ (b.element_type ++ 0 ∷ b.id ∷ []))

-- A node with no page is passed over.
abbrev add_menu : Dict ℕ (List MenuNode) → MenuNode → Option ℕ → Dict ℕ (List MenuNode)
add_menu d menu none = d
add_menu d menu (some page_id) = append_to page_id menu d

unfoldable pub menus_by_page : Dict ℕ (List MenuNode) → List MenuNode → Dict ℕ (List MenuNode)
menus_by_page d [] = d
menus_by_page d (menu ∷ menus) = menus_by_page (add_menu d menu menu.page_id) menus

unfoldable pub elements_by_page :
    Dict ℕ (List PageElement) → List PageElement → Dict ℕ (List PageElement)
elements_by_page d [] = d
elements_by_page d (element ∷ elements) =
    elements_by_page (append_to element.page_id element d) elements

unfoldable pub page_fingerprint :
    Dict ℕ (List MenuNode) → Dict ℕ (List PageElement) → Page → PageSemanticFingerprint
unfolding build_element_semantic_text
page_fingerprint menus elements page =
    new_fingerprint (str page.route_path) (column page.page_title)
      (map (λ menu. str menu.label)
        (filter (λ menu. not (is_empty (strip menu.label))) (get_or [] (lookup page.id menus))))
      (map
        (λ element.
          mapping (str element.element_type) (column element.element_role)
            (str (build_element_semantic_text element)))
        (get_or [] (lookup page.id elements)))

unfoldable pub load_snapshot_semantic_state : Db → ℕ → List PageSemanticFingerprint
unfolding page_fingerprint menus_by_page elements_by_page
load_snapshot_semantic_state db snapshot_id =
    let pages = sort page_leb (filter (λ page. page.snapshot_id == some snapshot_id) db.pages) in
    let menus = sort menu_leb (filter (λ menu. menu.snapshot_id == snapshot_id) db.menu_nodes) in
    let elements =
      sort element_leb (filter (λ element. element.snapshot_id == snapshot_id) db.page_elements) in
    map (page_fingerprint (menus_by_page [] menus) (elements_by_page [] elements)) pages
