-- ===== src/Assets/Fingerprints/Compare.antt =====
-- compare_fingerprints and map_diff_score_to_status. The floats of the source are hundredths: for each
-- of the sixteen sets of components, in any order, the float sum stands on the same side of 0.2 and
-- 0.6 as the sum in hundredths stands of 20 and 60.
use runlet.Prelude.{
  ℕ, ◌+◌, Bool, true, false, Option, none, some, List, [], ◌∷◌, Text, text, is_empty, if◌then◌else◌,
  leb, ◌==◌, nat_eq, list_eq, filter, Dict, lookup, get_or, Value,
}
use runlet.Prelude.Values.{null, normalize_text}

-- AssetStatus
pub data AssetStatus : Type 0 where
  safe suspect stale : AssetStatus

-- The keys of _DIFF_WEIGHTS.
pub data Component : Type 0 where
  navigation_hash key_locator_hash semantic_summary_hash structure_hash : Component

abbrev pub component_name : Component → Text
component_name navigation_hash = text "navigation_hash"
component_name key_locator_hash = text "key_locator_hash"
component_name semantic_summary_hash = text "semantic_summary_hash"
component_name structure_hash = text "structure_hash"

abbrev pub diff_weight : Component → ℕ
diff_weight navigation_hash = 20
diff_weight key_locator_hash = 45
diff_weight semantic_summary_hash = 15
diff_weight structure_hash = 20

abbrev pub components : List Component
components = navigation_hash ∷ (key_locator_hash ∷ (semantic_summary_hash ∷ (structure_hash ∷ [])))

abbrev pub safe_max_diff_score : ℕ
safe_max_diff_score = 20

abbrev pub suspect_max_diff_score : ℕ
suspect_max_diff_score = 60

abbrev pub Fingerprint : Type 0
Fingerprint = Dict Text Value

abbrev pub legacy_field_for_component : Component → Option Text
legacy_field_for_component key_locator_hash = some (text "legacy_key_locator_hash")
legacy_field_for_component structure_hash = some (text "legacy_structure_hash")
legacy_field_for_component _ = none

-- _clean_text(fingerprint.get(name))
unfoldable pub field_text : Text → Fingerprint → Text
unfolding lookup normalize_text
field_text name fingerprint = normalize_text (get_or null (lookup name fingerprint))

-- The legacy field of the new fingerprint has the old value.
unfoldable pub matches_legacy : Option Text → Text → Fingerprint → Bool
unfolding field_text
matches_legacy none old_value new = false
matches_legacy (some name) old_value new = old_value == field_text name new

unfoldable pub component_changed : Fingerprint → Fingerprint → Component → Bool
unfolding field_text matches_legacy
component_changed old new component =
    let old_value = field_text (component_name component) old in
    if old_value == field_text (component_name component) new
    then false
    else if matches_legacy (legacy_field_for_component component) old_value new
    then false
    else true

unfoldable pub map_diff_score_to_status : ℕ → AssetStatus
map_diff_score_to_status score =
    if leb score safe_max_diff_score
    then safe
    else if leb score suspect_max_diff_score
    then suspect
    else stale

unfoldable pub total_weight : List Component → ℕ
total_weight [] = 0
total_weight (component ∷ rest) = diff_weight component + total_weight rest

pub record FingerprintDiff : Type 0 where
  pub score : ℕ
  pub changed_components : List Component
  pub status : AssetStatus

abbrev pub diff_of : List Component → FingerprintDiff
diff_of changed = record {
  score = total_weight changed;
  changed_components = changed;
  status = map_diff_score_to_status (total_weight changed);
}

-- No fingerprint before, or an empty one, is no change.
unfoldable pub compare_fingerprints : Option Fingerprint → Fingerprint → FingerprintDiff
unfolding component_changed map_diff_score_to_status total_weight filter
compare_fingerprints none new = record { score = 0; changed_components = []; status = safe }
compare_fingerprints (some old) new =
    if is_empty old
    then record { score = 0; changed_components = []; status = safe }
    else diff_of (filter (component_changed old new) components)
