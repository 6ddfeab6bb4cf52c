-- ===== src/Assets/Reconcile/Decisions.antt =====
-- reconcile_retirement_decisions of reconciliation.py, and the tests that it calls.
use runlet.Prelude.{
  option_eq, ℕ, ◌+◌, Bool, true, false, ◌&&◌, ◌||◌, not, Option, none, some, List, [], ◌∷◌, ◌++◌,
  map, Text, strip, is_empty, if◌then◌else◌, leb, ◌==◌, filter, any, all, contains, dedupe, length,
  get_elem?, Dict, lookup, insert, append_to, get_or, Result, ok, ◌>>=◌, sort, list_eq, nat_eq,
  pair_eq,
}
use runlet.Prelude.Values.{TypeError}
use runlet.Assets.Reconcile.Rows.{
  Reason, missing_page, missing_menu_chain, missing_key_element, reason_eq, ElementRow,
  ActivePageTruth, ActiveCheckTruth, SnapshotTruth, RetirementDecision,
}
use runlet.Assets.Reconcile.Gate.{QualityGateDecision}
use runlet.Assets.Reconcile.Dependencies.{Dependencies, normalize_dependency_json}

-- The loop of _menu_chain_satisfied, from `index` on.
unfoldable pub menu_chain_loop : List Text → ℕ → List Text → Bool
menu_chain_loop expected index [] = false
menu_chain_loop expected index (label ∷ current) =
    let matches = get_elem? expected index == some label in
    let rest = menu_chain_loop expected (if matches then index + 1 else index) current in
    if matches && (index + 1 == length expected) then true else rest

unfoldable pub menu_chain_satisfied : List Text → List Text → Bool
unfolding menu_chain_loop
menu_chain_satisfied expected current =
    if is_empty expected
    then true
    else if is_empty current
    then false
    else menu_chain_loop expected 0 current

-- A key whose expected text is empty is not compared.
abbrev pub text_matches : Text → Text → Bool
text_matches expected current = is_empty (strip expected) || strip current == strip expected

unfoldable pub element_matches : ElementRow → ElementRow → Bool
element_matches descriptor current =
    text_matches descriptor.kind current.kind
    && (text_matches descriptor.role current.role
        && text_matches descriptor.element_text current.element_text)

unfoldable pub required_elements_satisfied : List ElementRow → List ElementRow → Bool
unfolding element_matches
required_elements_satisfied expected current =
    all (λ descriptor. any (element_matches descriptor) current) expected

unfoldable pub route_by_asset : Dict ℕ Text → List ActivePageTruth → Dict ℕ Text
route_by_asset d [] = d
route_by_asset d (row ∷ rows) = route_by_asset (insert row.page_asset_id row.route_path d) rows

unfoldable pub checks_by_asset : Dict ℕ (List ℕ) → List ActiveCheckTruth → Dict ℕ (List ℕ)
checks_by_asset d [] = d
checks_by_asset d (row ∷ rows) =
    checks_by_asset (append_to row.page_asset_id row.page_check_id d) rows

-- The page has a route, and the crawl did not find it.
abbrev pub is_missing : SnapshotTruth → ActivePageTruth → Bool
is_missing truth row =
    not (is_empty row.route_path) && not (contains row.route_path truth.route_paths)

unfoldable pub missing_asset_ids : SnapshotTruth → List ActivePageTruth → List ℕ
missing_asset_ids truth pages = map (λ row. row.page_asset_id) (filter (is_missing truth) pages)

-- The reason that a check's own dependencies give on a page that is there.
unfoldable pub dependency_reason : SnapshotTruth → Text → Dependencies → Option Reason
unfolding menu_chain_satisfied required_elements_satisfied
dependency_reason truth route_path deps =
    if not (is_empty deps.menu_chain)
      && not (
          menu_chain_satisfied deps.menu_chain
            (get_or [] (lookup route_path truth.menu_chain_by_route)))
    then some missing_menu_chain
    else if not (is_empty deps.required_elements)
        && not (
            required_elements_satisfied deps.required_elements
              (get_or [] (lookup route_path truth.elements_by_route)))
    then some missing_key_element
    else none

-- One round of the loop over the checks: the group that the check falls into, if any.
unfoldable pub check_reason :
    SnapshotTruth → Dict ℕ Text → List ℕ → ActiveCheckTruth → Result TypeError (Option Reason)
unfolding dependency_reason
check_reason truth routes missing row =
    let route_path = get_or [] (lookup row.page_asset_id routes) in
    if contains row.page_asset_id missing
    then ok none
    else if is_empty route_path || not (contains route_path truth.route_paths)
    then ok none
    else do
      deps ← normalize_dependency_json row.blocking_dependency_json
      ok (dependency_reason truth route_path deps)

abbrev pub add_check :
    ActiveCheckTruth → Option Reason → Dict (ℕ × Reason) (List ℕ) → Dict (ℕ × Reason) (List ℕ)
add_check row none groups = groups
add_check row (some reason) groups = append_to (row.page_asset_id, reason) row.page_check_id groups

unfoldable pub group_checks :
    SnapshotTruth
    → Dict ℕ Text
    → List ℕ
    → Dict (ℕ × Reason) (List ℕ)
    → List ActiveCheckTruth
    → Result TypeError (Dict (ℕ × Reason) (List ℕ))
unfolding check_reason
group_checks truth routes missing groups [] = ok groups
group_checks truth routes missing groups (row ∷ rows) = do
  reason ← check_reason truth routes missing row
  group_checks truth routes missing (add_check row reason groups) rows

unfoldable pub page_decisions : Dict ℕ (List ℕ) → List ℕ → List RetirementDecision
page_decisions checks [] = []
page_decisions checks (page_asset_id ∷ ids) =
    record {
      page_asset_id = page_asset_id;
      page_check_ids = get_or [] (lookup page_asset_id checks);
      reason = missing_page;
    }
    ∷ page_decisions checks ids

unfoldable pub group_decisions : Dict (ℕ × Reason) (List ℕ) → List RetirementDecision
group_decisions [] = []
group_decisions (((page_asset_id, reason), check_ids) ∷ groups) =
    record {
      page_asset_id = page_asset_id;
      page_check_ids = sort leb (dedupe check_ids);
      reason = reason;
    }
    ∷ group_decisions groups

unfoldable pub reconcile_retirement_decisions :
    List ActivePageTruth
    → List ActiveCheckTruth
    → SnapshotTruth
    → QualityGateDecision
    → Result TypeError (List RetirementDecision)
unfolding route_by_asset checks_by_asset missing_asset_ids group_checks page_decisions
    group_decisions
reconcile_retirement_decisions pages checks truth gate =
    if not gate.allow_retirement then ok [] else do
      let missing = missing_asset_ids truth pages
      groups ← group_checks truth (route_by_asset [] pages) missing [] checks
      ok (page_decisions (checks_by_asset [] checks) missing ++ group_decisions groups)
