-- ===== src/Assets/Reconcile/Blame.antt =====
-- Which checks reconciliation retires, in terms of the crawl: a missing page, a menu chain that is no
-- subsequence of the current one, an element that no current element matches.
use runlet.Prelude.{
  ℕ, Bool, true, false, ◌&&◌, ◌||◌, not, ◌≡◌, refl, ap, ◌∙◌, List, [], ◌∷◌, Text, is_empty, ◌==◌,
  list_eq, nat_eq, any, all, contains, Dict, lookup, get_or, Result, ok, raise, arith,
}
use runlet.Prelude.Values.{TypeError}
use runlet.Assets.Reconcile.Rows.{
  Reason, missing_page, missing_menu_chain, missing_key_element, reason_eq, ElementRow,
  ActivePageTruth, ActiveCheckTruth, SnapshotTruth, RetirementDecision,
}
use runlet.Assets.Reconcile.Gate.{QualityGateDecision}
use runlet.Assets.Reconcile.Dependencies.{Dependencies, normalize_dependency_json}
use runlet.Assets.Reconcile.Decisions.{
  menu_chain_satisfied, element_matches, required_elements_satisfied, route_by_asset,
  missing_asset_ids, dependency_reason, check_reason, reconcile_retirement_decisions,
}
use runlet.Assets.Reconcile.Chain.{is_subsequence, satisfied-is_subsequence}
use runlet.Assets.Reconcile.Retired.{retires, gives, blamed, attached, retires-reconcile_rounds}

-- The dependencies are not met, and this is the reason: the menu chain goes before the elements.
abbrev pub is_unmet : Reason → Dependencies → List Text → List ElementRow → Bool
is_unmet missing_page deps chain elements = false
is_unmet missing_menu_chain deps chain elements = not (is_subsequence deps.menu_chain chain)
is_unmet missing_key_element deps chain elements =
    is_subsequence deps.menu_chain chain
    && any (λ descriptor. not (any (element_matches descriptor) elements)) deps.required_elements

abbrev pub is_unmet_record :
    Reason → Result TypeError Dependencies → List Text → List ElementRow → Bool
is_unmet_record r (ok deps) chain elements = is_unmet r deps chain elements
is_unmet_record r (raise e) chain elements = false

-- The page of the check was found again, and the stored dependencies are not met on it.
unfoldable pub is_due : SnapshotTruth → Dict ℕ Text → List ℕ → Reason → ActiveCheckTruth → Bool
is_due truth routes missing r row =
    let route = get_or [] (lookup row.page_asset_id routes) in
    (not (contains row.page_asset_id missing)
      && (not (is_empty route) && contains route truth.route_paths))
    && is_unmet_record r (normalize_dependency_json row.blocking_dependency_json)
        (get_or [] (lookup route truth.menu_chain_by_route))
        (get_or [] (lookup route truth.elements_by_route))

-- A row of the check on the asset is due for the reason.
unfoldable pub is_due_for :
    List ActivePageTruth → List ActiveCheckTruth → SnapshotTruth → ℕ → Reason → ℕ → Bool
unfolding is_due
is_due_for pages checks truth a r k =
    any
      (λ row.
        (row.page_asset_id == a && k == row.page_check_id)
        && is_due truth (route_by_asset [] pages) (missing_asset_ids truth pages) r row)
      checks

not-all :
    (current : List ElementRow) (expected : List ElementRow)
    → not (required_elements_satisfied expected current)
      ≡ any (λ descriptor. not (any (element_matches descriptor) current)) expected
unfolding required_elements_satisfied all any
not-all current [] = refl
not-all current (x ∷ xs) = ground (arith, not-all current xs)

-- An empty list of demands is met: the tests for emptiness change nothing.
no_chain-satisfied :
    (expected current : List Text)
    → is_empty expected ≡ true
    → menu_chain_satisfied expected current ≡ true
unfolding menu_chain_satisfied
no_chain-satisfied [] current h = refl
no_chain-satisfied (x ∷ xs) current h = cc

no_elements-satisfied :
    (expected current : List ElementRow)
    → is_empty expected ≡ true
    → required_elements_satisfied expected current ≡ true
unfolding required_elements_satisfied all
no_elements-satisfied [] current h = refl
no_elements-satisfied (x ∷ xs) current h = cc

gives-dependency_reason :
    (truth : SnapshotTruth) (route : Text) (deps : Dependencies) (r : Reason)
    → gives r (ok (dependency_reason truth route deps))
      ≡ is_unmet r deps
          (get_or [] (lookup route truth.menu_chain_by_route))
          (get_or [] (lookup route truth.elements_by_route))
unfolding dependency_reason
gives-dependency_reason truth route deps r =
    let chain = get_or [] (lookup route truth.menu_chain_by_route) in
    let elements = get_or [] (lookup route truth.elements_by_route) in
    ground (
      arith,
      satisfied-is_subsequence deps.menu_chain chain,
      not-all elements deps.required_elements,
      no_chain-satisfied deps.menu_chain chain,
      no_elements-satisfied deps.required_elements elements,
    )

gives-check_reason :
    (truth : SnapshotTruth) (routes : Dict ℕ Text) (missing : List ℕ) (r : Reason)
    (row : ActiveCheckTruth)
    → gives r (check_reason truth routes missing row) ≡ is_due truth routes missing r row
unfolding check_reason is_due
gives-check_reason truth routes missing r row =
    go (normalize_dependency_json row.blocking_dependency_json) refl
  where
    route : Text
    route = get_or [] (lookup row.page_asset_id routes)

    go :
        (deps : Result TypeError Dependencies)
        → normalize_dependency_json row.blocking_dependency_json ≡ deps
        → gives r (check_reason truth routes missing row) ≡ is_due truth routes missing r row
    go (ok deps) e = rw e (ground (arith, gives-dependency_reason truth route deps r))
    go (raise x) e = rw e (ground arith)

blamed-is_due :
    (truth : SnapshotTruth) (routes : Dict ℕ Text) (missing : List ℕ) (a : ℕ) (r : Reason) (k : ℕ)
    (checks : List ActiveCheckTruth)
    → blamed truth routes missing a r k checks
      ≡ any
          (λ row.
            (row.page_asset_id == a && k == row.page_check_id) && is_due truth routes missing r row)
          checks
unfolding blamed any
blamed-is_due truth routes missing a r k [] = refl
blamed-is_due truth routes missing a r k (row ∷ rows) = ground (
  arith,
  gives-check_reason truth routes missing r row,
  blamed-is_due truth routes missing a r k rows,
)

-- If the gate is open and no dependency record raises, the decisions retire a check of an asset for a
-- reason exactly when either the reason is a missing page, the asset is that of an active page whose
-- route the crawl did not find, and the check is attached to it; or the page was found again and a
-- row of this check on this asset demands a menu chain that is no subsequence of the current one, or,
-- if its chain is one, an element that no current element matches.
pub retires-reconcile :
    (pages : List ActivePageTruth) (checks : List ActiveCheckTruth) (truth : SnapshotTruth)
    (gate : QualityGateDecision) (a : ℕ) (r : Reason) (k : ℕ) {ds : List RetirementDecision}
    → gate.allow_retirement ≡ true
    → reconcile_retirement_decisions pages checks truth gate ≡ ok ds
    → retires a r k ds
      ≡ (contains a (missing_asset_ids truth pages) && missing_page == r) && attached a k checks
        || is_due_for pages checks truth a r k
unfolding is_due_for
retires-reconcile pages checks truth gate a r k {ds} allowed h =
    let missing = missing_asset_ids truth pages in
    retires-reconcile_rounds pages checks truth gate a r k {ds = ds} allowed h
    ∙ ap (λ b. (contains a missing && missing_page == r) && attached a k checks || b)
        (blamed-is_due truth (route_by_asset [] pages) missing a r k checks)
