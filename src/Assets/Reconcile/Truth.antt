-- ===== src/Assets/Reconcile/Truth.antt =====
-- build_current_snapshot_truth of reconciliation.py.
use runlet.Prelude.{
  ℕ, not, Option, none, some, List, [], ◌∷◌, Text, if◌then◌else◌, filter, Dict, values, lookup,
  insert, append_to, get_or, sort, text_leb, list_eq, nat_eq, is_empty,
}
use runlet.Prelude.Values.{normalize_text, column}
use runlet.Assets.Reconcile.Rows.{ElementRow, SnapshotTruth}

-- The rows of the crawl that the snapshot's truth is read from.
pub record PageRow : Type 0 where
  pub id : ℕ
  pub route_path : Option Text

pub record MenuRow : Type 0 where
  pub id : ℕ
  pub page_id : Option ℕ
  pub label : Option Text
  pub depth : ℕ
  pub sort_order : ℕ

pub record PageElementRow : Type 0 where
  pub page_id : Option ℕ
  pub element_type : Option Text
  pub element_role : Option Text
  pub element_text : Option Text

-- {page.id: _normalize_text(page.route_path) for page in pages}
unfoldable pub route_by_page_id : Dict ℕ Text → List PageRow → Dict ℕ Text
route_by_page_id d [] = d
route_by_page_id d (page ∷ pages) =
    route_by_page_id (insert page.id (normalize_text (column page.route_path)) d) pages

abbrev pub route_of_page : Dict ℕ Text → Option ℕ → Text
route_of_page d none = []
route_of_page d (some page_id) = get_or [] (lookup page_id d)

-- The tuple that the menus are sorted by; a missing page comes last.
abbrev pub menu_key : MenuRow → List ℕ
menu_key row = elim row.page_id [
  | none ↦ 1 ∷ 0 ∷ row.depth ∷ row.sort_order ∷ row.id ∷ []
  | some page_id ↦ 0 ∷ page_id ∷ row.depth ∷ row.sort_order ∷ row.id ∷ []
]

unfoldable pub menu_chains :
    Dict ℕ Text → Dict Text (List Text) → List MenuRow → Dict Text (List Text)
menu_chains routes d [] = d
menu_chains routes d (menu ∷ menus) =
    let route_path = route_of_page routes menu.page_id in
    let label = normalize_text (column menu.label) in
    menu_chains routes
      (if is_empty route_path
        then d
        else if is_empty label
        then d
        else append_to route_path label d)
      menus

unfoldable pub element_rows :
    Dict ℕ Text → Dict Text (List ElementRow) → List PageElementRow → Dict Text (List ElementRow)
element_rows routes d [] = d
element_rows routes d (element ∷ elements) =
    let route_path = route_of_page routes element.page_id in
    element_rows routes
      (if is_empty route_path
        then d
        else append_to route_path
            (record {
              kind = normalize_text (column element.element_type);
              role = normalize_text (column element.element_role);
              element_text = normalize_text (column element.element_text);
            })
            d)
      elements

unfoldable pub build_current_snapshot_truth :
    List PageRow → List MenuRow → List PageElementRow → SnapshotTruth
unfolding route_by_page_id menu_chains element_rows
build_current_snapshot_truth pages menus elements =
    let routes = route_by_page_id [] pages in
    record {
      route_paths = filter (λ route_path. not (is_empty route_path)) (values routes);
      menu_chain_by_route =
          menu_chains routes [] (sort (λ a b. text_leb (menu_key a) (menu_key b)) menus);
      elements_by_route = element_rows routes [] elements;
    }
