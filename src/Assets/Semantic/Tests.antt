-- ===== src/Assets/Semantic/Tests.antt =====
-- A comparison of two states that hold the same two pages in another order.
use runlet.Prelude.{◌≡◌, ◌↔◌, refl, Bool, true, false, List, [], ◌∷◌, text, Text}
use runlet.Assets.Semantic.Fingerprints.{PageSemanticFingerprint}
use runlet.Assets.Semantic.Diff.{SemanticStateDiff, has_changes, compare_semantic_states}
use runlet.Assets.Semantic.Changes.{SameState, no_changes-iff-SameState}

abbrev titled : Text → Text → PageSemanticFingerprint
titled route_path page_title = record {
  route_path = route_path;
  page_title = page_title;
  menu_chain = [];
  key_elements = [];
}

abbrev users_first : List PageSemanticFingerprint
users_first = titled (text "/users") (text "Users") ∷ titled (text "/roles") (text "Roles") ∷ []

abbrev roles_first : List PageSemanticFingerprint
roles_first = titled (text "/roles") (text "Roles") ∷ titled (text "/users") (text "Users") ∷ []

abbrev no_change : SemanticStateDiff
no_change = record { added_routes = []; deleted_routes = []; changed_routes = [] }

no_changes-iff-SameState_example :
    (has_changes no_change ≡ false) ↔ SameState users_first roles_first
unfolding compare_semantic_states runlet.Prelude.contains runlet.Prelude.insert
    runlet.Prelude.list_beq runlet.Prelude.filter runlet.Prelude.lookup
no_changes-iff-SameState_example =
    no_changes-iff-SameState users_first roles_first {diff = no_change} refl
