-- ===== src/Crawler/Navigation/Tests.antt =====
-- A registry with room for one target of a kind, and three targets, two of them with one key.
use runlet.Prelude.{
  ℕ, zero, suc, list_eq, ◌+◌, ◌≡◌, ◌↔◌, ◌++◌, refl, Bool, true, false, Option, none, some, List, [],
  ◌∷◌, map, length, contains, text, Text, nat_eq, ◌==◌,
}
use runlet.Prelude.Values.{pos, null, str}
use runlet.Crawler.Navigation.Targets.{NavigationTarget, new_target}
use runlet.Crawler.Navigation.Sources.{prefer_discovery_source-comm_assoc}
use runlet.Crawler.Navigation.Merge.{prefer_discovery_source, dedupe_key}
use runlet.Crawler.Navigation.Registry.{Store, NavigationTargetRegistry, new_registry, add, extend}
use runlet.Crawler.Navigation.Budgets.{Shape, shape, shapes, IsConsistent}
use runlet.Crawler.Navigation.Room.{HasRoom}
use runlet.Crawler.Navigation.Extend.{
  new_registry-IsConsistent, extend-IsConsistent, add-accepts_iff, Interleaves, extend-targets,
}

abbrev page_target : Text → NavigationTarget
page_target route = new_target (record {
  target_kind = str (text "page_route");
  route_hint = str route;
  locator_candidates = null;
  state_context = null;
  parent_target_key = null;
  discovery_source = null;
  safety_level = null;
  materialization_status = null;
  rejection_reason = null;
  rejection_detail = null;
  metadata = null;
})

abbrev store : Store
store zero = page_target (text "/users/?page=2")
store (suc zero) = page_target (text "/users")
store _ = page_target (text "/roles")

abbrev registry : NavigationTargetRegistry
registry = new_registry (pos 10) (pos 10) (pos 1) (pos 10)

abbrev references : List ℕ
references = 0 ∷ 1 ∷ 2 ∷ []

extend_accepts_one : (extend registry store references).0 ≡ 0 ∷ []
unfolding extend new_registry new_target runlet.Prelude.list_beq runlet.Prelude.sort
    runlet.Prelude.Values.to_fields runlet.Prelude.text_leb
extend_accepts_one = refl

extend-IsConsistent_example :
    IsConsistent (extend registry store references).1 (extend registry store references).2
extend-IsConsistent_example =
    extend-IsConsistent registry store references
      (new_registry-IsConsistent (pos 10) (pos 10) (pos 1) (pos 10) store)

add-accepts_iff_example : ((add registry store 0).0.accepted ≡ true) ↔ (
    (contains (dedupe_key (store 0)) (map (λ (x : Shape). x.key) (shapes store registry.targets))
      ≡ false)
    × HasRoom registry (shapes store registry.targets) (shape (store 0)))
add-accepts_iff_example =
    add-accepts_iff registry store 0
      (new_registry-IsConsistent (pos 10) (pos 10) (pos 1) (pos 10) store)

extend-targets_example :
    (rejected : List ℕ) × ((extend registry store references).1.targets
      ≡ registry.targets ++ (extend registry store references).0)
    × ((extend registry store references).1.rejected_targets
        ≡ registry.rejected_targets ++ rejected)
    × Interleaves (extend registry store references).0 rejected references
extend-targets_example = extend-targets registry store references

prefer_discovery_source-comm_assoc_example :
    (prefer_discovery_source (some (text "dom_menu_tree")) (some (text "network_request"))
      ≡ prefer_discovery_source (some (text "network_request")) (some (text "dom_menu_tree")))
    × (prefer_discovery_source
          (prefer_discovery_source (some (text "dom_menu_tree")) (some (text "network_request")))
          none
        ≡ prefer_discovery_source
            (some (text "dom_menu_tree"))
            (prefer_discovery_source (some (text "network_request")) none))
prefer_discovery_source-comm_assoc_example =
    prefer_discovery_source-comm_assoc (some (text "dom_menu_tree")) (some (text "network_request"))
      none
