-- ===== src/Crawler/Navigation/Merge.antt =====
-- The keys and the marks of a target, and how a duplicate is merged into the target that is there.
use runlet.Prelude.{
  ℕ, Bool, true, false, Option, none, some, List, [], ◌∷◌, ◌++◌, map, Text, text, if◌then◌else◌,
  ltb, ◌==◌, nat_eq, list_eq, Dict, lookup, insert, get_or, contains, Value, text_leb,
}
use runlet.Prelude.Values.{
  new_dict, new_list, to_fields, Fields, null, str, list, dict, nil, end, field, from_items,
  from_fields, column,
}
use runlet.Prelude.Json.{dumps_plain}
use runlet.Crawler.Navigation.Targets.{
  LocatorCandidate, candidate_value, candidates_from, NavigationTarget, normalize_text,
}

-- The parts of a target that its key is made of.
unfoldable pub dedupe_key : NavigationTarget → Text
unfolding dumps_plain
dedupe_key target = dumps_plain (
    new_dict (
      (text "target_kind", str target.target_kind)
      ∷ ((text "route_hint", column target.route_hint)
          ∷ ((text "state_context", new_dict target.state_context)
              ∷ ((text "parent_target_key", column target.parent_target_key) ∷ [])))))

unfoldable pub target_key : NavigationTarget → Text
unfolding dedupe_key
target_key target =
    if target.target_kind == text "page_route"
    then elim target.route_hint [ none ↦ dedupe_key target | some route ↦ text "page:" ++ route ]
    else dedupe_key target

abbrev pub mark : Text → Option Text → Option Text → NavigationTarget → NavigationTarget
mark status reason detail target = record target {
  materialization_status = status;
  rejection_reason = reason;
  rejection_detail = detail;
}

abbrev pub mark_queued : NavigationTarget → NavigationTarget
mark_queued = mark (text "queued") none none

abbrev pub mark_applied : NavigationTarget → NavigationTarget
mark_applied = mark (text "applied") none none

abbrev pub mark_duplicate : Text → NavigationTarget → NavigationTarget
mark_duplicate reason = mark (text "duplicate") (some reason) none

abbrev pub mark_blocked : Text → NavigationTarget → NavigationTarget
mark_blocked reason = mark (text "blocked") (some reason) none

unfoldable pub mark_not_applied : Text → Value → NavigationTarget → NavigationTarget
unfolding normalize_text
mark_not_applied reason detail = mark (text "not_applied") (some reason) (normalize_text detail)

unfoldable pub merge_locator_candidates :
    List LocatorCandidate → List LocatorCandidate → List LocatorCandidate
unfolding candidates_from
merge_locator_candidates existing incoming =
    candidates_from [] (map candidate_value existing ++ map candidate_value incoming)

-- existing_value in (None, "", [], {})
abbrev pub is_blank : Option Value → Bool
is_blank none = true
is_blank (some null) = true
is_blank (some (str [])) = true
is_blank (some (list _ nil)) = true
is_blank (some (dict _ end)) = true
is_blank _ = false

unfoldable pub merge_items : List Text → List Value → List Value
unfolding dumps_plain
merge_items seen [] = []
merge_items seen (item ∷ rest) =
    let serialized = dumps_plain item in
    let skipped = merge_items seen rest in
    let taken = item ∷ merge_items (serialized ∷ seen) rest in
    if contains serialized seen then skipped else taken

unfoldable mutual
  unfolding insert merge_items

  pub merge_metadata : Dict Text Value → Fields → Dict Text Value
  merge_metadata merged end = merged
  merge_metadata merged (field key value rest) =
      merge_metadata (merge_metadatum merged key (lookup key merged) value) rest

  pub merge_metadatum : Dict Text Value → Text → Option Value → Value → Dict Text Value
  merge_metadatum merged key (some (dict _ es)) (dict _ fs) =
      insert key (new_dict (merge_metadata (from_fields es) fs)) merged
  merge_metadatum merged key (some (list _ xs)) (list _ ys) =
      insert key (new_list (merge_items [] (from_items xs ++ from_items ys))) merged
  merge_metadatum merged key existing value =
      if is_blank existing then insert key value merged else merged

-- _DISCOVERY_SOURCE_PRIORITY
abbrev pub discovery_source_priority : Dict Text ℕ
discovery_source_priority =
    (text "runtime_route_hints", 0)
    ∷ ((text "dom_menu_tree", 1)
        ∷ ((text "network_route_config", 2)
            ∷ ((text "network_resource", 3)
                ∷ ((text "network_request", 4) ∷ ((text "reachability_probe", 5) ∷ [])))))

abbrev pub priority : Text → ℕ
priority source = get_or 100 (lookup source discovery_source_priority)

unfoldable pub prefer_discovery_source : Option Text → Option Text → Option Text
prefer_discovery_source none incoming = incoming
prefer_discovery_source (some existing) none = some existing
prefer_discovery_source (some existing) (some incoming) =
    if ltb (priority incoming) (priority existing)
    then some incoming
    else if ltb (priority existing) (priority incoming)
    then some existing
    else if text_leb existing incoming
    then some existing
    else some incoming

unfoldable pub merge_from : NavigationTarget → NavigationTarget → NavigationTarget
unfolding merge_locator_candidates prefer_discovery_source merge_metadata
merge_from target other = record target {
  locator_candidates = merge_locator_candidates target.locator_candidates other.locator_candidates;
  discovery_source = prefer_discovery_source target.discovery_source other.discovery_source;
  metadata = merge_metadata target.metadata (to_fields other.metadata);
}
