-- ===== src/Assets/Semantic/Diff.antt =====
-- compare_semantic_states of current_state_diff.py. A frozenset is a list, read through membership.
use runlet.Prelude.{
  Bool, ◌&&◌, not, List, [], ◌∷◌, Text, is_empty, if◌then◌else◌, ◌==◌, list_eq, nat_eq, option_eq,
  filter, contains, Dict, keys, lookup, insert, Result, ok, raise, ◌>>=◌,
}
use runlet.Assets.Semantic.Fingerprints.{PageSemanticFingerprint, fingerprint_eq}

-- The two messages of the ValueError.
pub data IndexError : Type 0 where
  empty_route : IndexError
  duplicate_route : Text → IndexError

-- route_path in index
abbrev pub has_key {ℓ} : {V : Type ℓ} → Text → Dict Text V → Bool
has_key k d = contains k (keys d)

unfoldable pub index_from :
    Dict Text PageSemanticFingerprint
    → List PageSemanticFingerprint
    → Result IndexError (Dict Text PageSemanticFingerprint)
index_from index [] = ok index
index_from index (fingerprint ∷ fingerprints) =
    let rest = index_from (insert fingerprint.route_path fingerprint index) fingerprints in
    if is_empty fingerprint.route_path
    then raise empty_route
    else if has_key fingerprint.route_path index
    then raise (duplicate_route fingerprint.route_path)
    else rest

unfoldable pub index_by_route :
    List PageSemanticFingerprint → Result IndexError (Dict Text PageSemanticFingerprint)
unfolding index_from
index_by_route fingerprints = index_from [] fingerprints

pub record SemanticStateDiff : Type 0 where
  pub added_routes : List Text
  pub deleted_routes : List Text
  pub changed_routes : List Text

unfoldable pub has_changes : SemanticStateDiff → Bool
has_changes diff =
    not
      (is_empty diff.added_routes && (is_empty diff.deleted_routes && is_empty diff.changed_routes))

-- The three comprehensions, on the indexed states.
unfoldable pub diff_of_indexes :
    Dict Text PageSemanticFingerprint → Dict Text PageSemanticFingerprint → SemanticStateDiff
diff_of_indexes active draft = record {
  added_routes = filter (λ route. not (has_key route active)) (keys draft);
  deleted_routes = filter (λ route. not (has_key route draft)) (keys active);
  changed_routes =
      filter (λ route. not (lookup route active == lookup route draft))
        (filter (λ route. has_key route draft) (keys active));
}

unfoldable pub compare_semantic_states :
    List PageSemanticFingerprint
    → List PageSemanticFingerprint
    → Result IndexError SemanticStateDiff
unfolding index_by_route diff_of_indexes
compare_semantic_states active draft = do
  active_by_route ← index_by_route active
  draft_by_route ← index_by_route draft
  ok (diff_of_indexes active_by_route draft_by_route)
