-- ===== src/Crawler/Navigation/Targets.antt =====
-- NavigationTarget of navigation_targets.py: how a target is normalised, its keys and its marks.
use runlet.Prelude.{
  ℕ, Bool, true, false, not, Option, none, some, List, [], ◌∷◌, Text, text, strip, is_empty,
  if◌then◌else◌, ◌==◌, nat_eq, list_eq, option_eq, filter, Dict, lookup, insert, get_or, contains,
  Value,
}
use mathlib.Core.List.{reverse}
use runlet.Prelude.Texts.{drop_while}
use runlet.Prelude.Values.{
  new_dict, new_list, Fields, null, bool, int, float, str, list, dict, end, field, from_items,
  from_fields,
}
use runlet.Prelude.Json.{dumps_plain}

-- A text that is not white space alone, stripped.
unfoldable pub normalize_text : Value → Option Text
normalize_text (str s) = if is_empty (strip s) then none else some (strip s)
normalize_text _ = none

-- The text before the first such code point: s.split(c, 1)[0]
unfoldable pub before : ℕ → Text → Text
before c [] = []
before c (d ∷ s) = let rest = before c s in if d == c then [] else d ∷ rest

-- s.rstrip(c)
abbrev pub rstrip : ℕ → Text → Text
rstrip c s = reverse (drop_while (λ d. d == c) (reverse s))

abbrev pub starts_with : ℕ → Text → Bool
starts_with c [] = false
starts_with c (d ∷ s) = d == c

abbrev pub or_root : Text → Text
or_root [] = text "/"
or_root (c ∷ s) = c ∷ s

unfoldable pub normalize_route : Value → Option Text
unfolding before drop_while
normalize_route (str s) =
    if not (starts_with b'/' (strip s))
    then none
    else some (or_root (rstrip b'/' (before b'#' (before b'?' (strip s)))))
normalize_route _ = none

-- One pair of `_normalize_state_context`: only texts, numbers and Booleans are kept.
unfoldable pub add_state : Option Text → Value → Dict Text Value → Dict Text Value
unfolding insert strip
add_state none value d = d
add_state (some key) (str s) d = if is_empty (strip s) then d else insert key (str (strip s)) d
add_state (some key) (int n) d = insert key (int n) d
add_state (some key) (float r) d = insert key (float r) d
add_state (some key) (bool b) d = insert key (bool b) d
add_state (some key) _ d = d

unfoldable pub add_states : Dict Text Value → List (Text × Value) → Dict Text Value
unfolding add_state normalize_text
add_states d [] = d
add_states d ((key, value) ∷ rest) = add_states (add_state (normalize_text (str key)) value d) rest

unfoldable pub normalize_state_context : Value → Dict Text Value
unfolding add_states
normalize_state_context (dict _ fs) = add_states [] (from_fields fs)
normalize_state_context _ = []

pub record LocatorCandidate : Type 0 where
  pub strategy_type : Text
  pub selector : Text

abbrev pub candidate_value : LocatorCandidate → Value
candidate_value c =
    new_dict
      ((text "strategy_type", str c.strategy_type) ∷ ((text "selector", str c.selector) ∷ []))

abbrev pub new_candidate : Option Text → Option Text → Option LocatorCandidate
new_candidate (some strategy_type) (some selector) =
    some (record { strategy_type = strategy_type; selector = selector })
new_candidate _ _ = none

unfoldable pub read_candidate : Value → Option LocatorCandidate
unfolding normalize_text
read_candidate (dict _ fs) =
    let d = from_fields fs in
    new_candidate (normalize_text (get_or null (lookup (text "strategy_type") d)))
      (normalize_text (get_or null (lookup (text "selector") d)))
read_candidate _ = none

-- The loop of `_normalize_locator_candidates` over the candidates and the serialised ones seen.
unfoldable pub candidates_from : List Text → List Value → List LocatorCandidate
unfolding read_candidate dumps_plain
candidates_from seen [] = []
candidates_from seen (value ∷ rest) = elim (read_candidate value) [
  | none ↦ candidates_from seen rest
  | some c ↦
      let serialized = dumps_plain (candidate_value c) in
      let skipped = candidates_from seen rest in
      let taken = c ∷ candidates_from (serialized ∷ seen) rest in
      if contains serialized seen then skipped else taken
]

unfoldable pub normalize_locator_candidates : Value → List LocatorCandidate
unfolding candidates_from
normalize_locator_candidates (list _ xs) = candidates_from [] (from_items xs)
normalize_locator_candidates _ = []

-- isinstance(item, (str, int, float, bool, dict))
abbrev pub is_metadata_item : Value → Bool
is_metadata_item null = false
is_metadata_item (list _ _) = false
is_metadata_item _ = true

abbrev pub insert_unless_empty : Text → Dict Text Value → Dict Text Value → Dict Text Value
insert_unless_empty key [] d = d
insert_unless_empty key (e ∷ es) d = insert key (new_dict (e ∷ es)) d

abbrev pub insert_items : Text → List Value → Dict Text Value → Dict Text Value
insert_items key [] d = d
insert_items key (x ∷ xs) d = insert key (new_list (x ∷ xs)) d

-- The loop of `_normalize_metadata`, and what it does with one pair.
unfoldable mutual
  unfolding normalize_text insert filter

  pub add_metadata : Dict Text Value → Fields → Dict Text Value
  add_metadata d end = d
  add_metadata d (field key value rest) =
      add_metadata (add_metadatum d (normalize_text (str key)) value) rest

  pub add_metadatum : Dict Text Value → Option Text → Value → Dict Text Value
  add_metadatum d none value = d
  add_metadatum d (some key) (dict _ fs) = insert_unless_empty key (add_metadata [] fs) d
  add_metadatum d (some key) (list _ xs) =
      insert_items key (filter is_metadata_item (from_items xs)) d
  add_metadatum d (some key) (str s) =
      if is_empty (strip s) then d else insert key (str (strip s)) d
  add_metadatum d (some key) (int n) = insert key (int n) d
  add_metadatum d (some key) (float r) = insert key (float r) d
  add_metadatum d (some key) (bool b) = insert key (bool b) d
  add_metadatum d (some key) null = d

unfoldable pub normalize_metadata : Value → Dict Text Value
unfolding add_metadata
normalize_metadata (dict _ fs) = add_metadata [] fs
normalize_metadata _ = []

pub record NavigationTarget : Type 0 where
  pub target_kind : Text
  pub route_hint : Option Text
  pub locator_candidates : List LocatorCandidate
  pub state_context : Dict Text Value
  pub parent_target_key : Option Text
  pub discovery_source : Option Text
  pub safety_level : Text
  pub materialization_status : Text
  pub rejection_reason : Option Text
  pub rejection_detail : Option Text
  pub metadata : Dict Text Value

-- The arguments of the constructor.
pub record TargetInput : Type 0 where
  pub target_kind : Value
  pub route_hint : Value
  pub locator_candidates : Value
  pub state_context : Value
  pub parent_target_key : Value
  pub discovery_source : Value
  pub safety_level : Value
  pub materialization_status : Value
  pub rejection_reason : Value
  pub rejection_detail : Value
  pub metadata : Value

-- __post_init__
unfoldable pub new_target : TargetInput → NavigationTarget
unfolding normalize_text normalize_route normalize_state_context normalize_locator_candidates
    normalize_metadata
new_target input = record {
  target_kind = get_or (text "unknown") (normalize_text input.target_kind);
  route_hint = normalize_route input.route_hint;
  locator_candidates = normalize_locator_candidates input.locator_candidates;
  state_context = normalize_state_context input.state_context;
  parent_target_key = normalize_text input.parent_target_key;
  discovery_source = normalize_text input.discovery_source;
  safety_level = get_or (text "readonly") (normalize_text input.safety_level);
  materialization_status = get_or (text "discovered") (normalize_text input.materialization_status);
  rejection_reason = normalize_text input.rejection_reason;
  rejection_detail = normalize_text input.rejection_detail;
  metadata = normalize_metadata input.metadata;
}
