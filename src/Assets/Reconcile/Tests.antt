-- ===== src/Assets/Reconcile/Tests.antt =====
-- A crawl that finds one of two pages, with a check whose menu chain is gone.
use runlet.Prelude.{
  ℕ, ◌≡◌, ◌↔◌, ◌||◌, ◌&&◌, refl, Bool, true, false, Option, none, some, List, [], ◌∷◌, contains,
  text, Text, Value, Result, ok, raise, ◌==◌, nat_eq, arith,
}
use mathlib.Core.List.{Sublist}
use runlet.Prelude.Values.{TypeError, nil, cons, end, field, null, str, list, dict}
use runlet.Assets.Reconcile.Rows.{
  missing_page, missing_menu_chain, reason_eq, RetirementDecision, ActivePageTruth,
  ActiveCheckTruth, SnapshotTruth,
}
use runlet.Assets.Reconcile.Gate.{QualityGateDecision, evaluate_retirement_quality_gate}
use runlet.Assets.Reconcile.Dependencies.{
  Dependencies, build_blocking_dependency_json, normalize_dependency_json, dependency_value,
}
use runlet.Assets.Reconcile.Decisions.{
  menu_chain_satisfied, missing_asset_ids, reconcile_retirement_decisions,
}
use runlet.Assets.Reconcile.Chain.{menu_chain_satisfied-iff-Sublist}
use runlet.Assets.Reconcile.Retired.{retires, attached}
use runlet.Assets.Reconcile.Blame.{is_due_for, retires-reconcile}
use runlet.Assets.Reconcile.Stored.{normalize-build}
use runlet.Assets.Reconcile.Safety.{IsTrusted, gate-iff-IsTrusted, reconcile-IsTrusted}

abbrev pages : List ActivePageTruth
pages =
    record { page_asset_id = 1; route_path = text "/users" }
    ∷ record { page_asset_id = 2; route_path = text "/roles" }
    ∷ []

abbrev needs_menu : Value
needs_menu = dict [] (
    field (text "menu_chain") (list [] (cons (str (text "System")) (cons (str (text "Users")) nil)))
      end)

abbrev checks : List ActiveCheckTruth
checks =
    record { page_check_id = 10; page_asset_id = 1; blocking_dependency_json = needs_menu }
    ∷ record { page_check_id = 20; page_asset_id = 2; blocking_dependency_json = null }
    ∷ []

abbrev truth : SnapshotTruth
truth = record {
  route_paths = text "/users" ∷ [];
  menu_chain_by_route = (text "/users", text "Users" ∷ []) ∷ [];
  elements_by_route = [];
}

abbrev gate : QualityGateDecision
gate = evaluate_retirement_quality_gate (text "full") false (some 9000) 1 2

abbrev decisions : List RetirementDecision
decisions =
    record { page_asset_id = 2; page_check_ids = 20 ∷ []; reason = missing_page }
    ∷ record { page_asset_id = 1; page_check_ids = 10 ∷ []; reason = missing_menu_chain }
    ∷ []

retires-reconcile_example :
    retires 1 missing_menu_chain 10 decisions
    ≡ (contains 1 (missing_asset_ids truth pages) && missing_page == missing_menu_chain)
        && attached 1 10 checks
      || is_due_for pages checks truth 1 missing_menu_chain 10
unfolding reconcile_retirement_decisions evaluate_retirement_quality_gate runlet.Prelude.list_beq
    contains runlet.Prelude.filter runlet.Prelude.lookup runlet.Prelude.insert
    normalize_dependency_json runlet.Prelude.Values.iterate runlet.Prelude.append_to
    runlet.Prelude.Values.normalize_text runlet.Prelude.get_elem? runlet.Prelude.sort
    runlet.Prelude.dedupe
retires-reconcile_example =
    retires-reconcile pages checks truth gate 1 missing_menu_chain 10 {ds = decisions} refl refl

reconcile-IsTrusted_example : IsTrusted (text "full") false (some 9000) 1 2
unfolding reconcile_retirement_decisions evaluate_retirement_quality_gate runlet.Prelude.list_beq
    contains runlet.Prelude.filter runlet.Prelude.lookup runlet.Prelude.insert
    normalize_dependency_json runlet.Prelude.Values.iterate runlet.Prelude.append_to
    runlet.Prelude.Values.normalize_text runlet.Prelude.get_elem? runlet.Prelude.sort
    runlet.Prelude.dedupe
reconcile-IsTrusted_example =
    reconcile-IsTrusted (text "full") false (some 9000) 1 2 pages checks truth
      {d = record { page_asset_id = 2; page_check_ids = 20 ∷ []; reason = missing_page }}
      {ds = record { page_asset_id = 1; page_check_ids = 10 ∷ []; reason = missing_menu_chain }
        ∷ []}
      refl

gate-iff-IsTrusted_example :
    ((evaluate_retirement_quality_gate (text "full") false (some 9000) 1 3).allow_retirement ≡ true)
    ↔ IsTrusted (text "full") false (some 9000) 1 3
gate-iff-IsTrusted_example = gate-iff-IsTrusted (text "full") false (some 9000) 1 3

menu_chain_satisfied-iff-Sublist_example :
    (menu_chain_satisfied (text "Users" ∷ []) (text "System" ∷ text "Users" ∷ []) ≡ true)
    ↔ Sublist (text "Users" ∷ []) (text "System" ∷ text "Users" ∷ [])
menu_chain_satisfied-iff-Sublist_example =
    menu_chain_satisfied-iff-Sublist (text "Users" ∷ []) (text "System" ∷ text "Users" ∷ [])

-- A step that opens a menu, then one that asserts a table.
abbrev steps : List Value
steps =
    dict []
      (field (text "module") (str (text "nav.menu_chain")) (field (text "params") needs_menu end))
    ∷ dict [] (field (text "module") (str (text "assert.table_visible")) end)
    ∷ []

abbrev built : Dependencies
built = record {
  menu_chain = text "System" ∷ text "Users" ∷ [];
  required_elements = record { kind = text "table"; role = text "table"; element_text = [] } ∷ [];
}

normalize-build_example : normalize_dependency_json (dependency_value [] built) ≡ ok built
unfolding build_blocking_dependency_json runlet.Prelude.list_beq
    runlet.Prelude.Values.normalize_text runlet.Prelude.lookup runlet.Prelude.Values.from_fields
    runlet.Prelude.Values.iterate runlet.Prelude.filter runlet.Prelude.dedupe contains
normalize-build_example = normalize-build (some steps) null [] {deps = built} refl
