-- ===== src/Assets/Switch/Tests.antt =====
-- A switch of a draft that differs from the active snapshot in a page title.
use runlet.Prelude.{
  ℕ, ◌≡◌, refl, arith, Bool, true, false, Option, none, some, List, [], ◌∷◌, text, Result, ok,
  raise, Value,
}
use runlet.Prelude.Values.{null}
use runlet.Assets.Switch.Promoted.{IsCurrent, apply_current_state_switch-IsCurrent}
use runlet.Assets.Switch.Rows.{SnapshotState, draft, active, CrawlSnapshot, Page, Db}
use runlet.Assets.Switch.Apply.{
  promoted, CurrentStateSwitchResult, SwitchError, apply_current_state_switch,
}
use runlet.Assets.Switch.OneActive.{
  IsConsistent, count_id, count_active, apply_current_state_switch-IsConsistent,
}

abbrev snapshot : ℕ → SnapshotState → Option ℕ → CrawlSnapshot
snapshot id state activated_at = record {
  id = id;
  system_id = 7;
  crawl_type = text "full";
  framework_detected = none;
  quality_score = some 9500;
  degraded = false;
  state = state;
  activated_at = activated_at;
  discarded_at = none;
  failure_reason = none;
  warning_messages = [];
  structure_hash = none;
  started_at = id;
  finished_at = none;
}

abbrev page : ℕ → ℕ → Option (List ℕ) → Page
page id snapshot_id title = record {
  id = id;
  snapshot_id = some snapshot_id;
  route_path = text "/users";
  page_title = title;
  carried = null;
}

abbrev two_snapshots : Db
two_snapshots = record {
  snapshots = snapshot 1 active (some 10) ∷ snapshot 2 draft none ∷ [];
  pages = page 3 1 (some (text "Users")) ∷ page 4 2 (some (text "All users")) ∷ [];
  menu_nodes = [];
  page_elements = [];
  snapshots_hist = [];
  pages_hist = [];
  menu_nodes_hist = [];
  page_elements_hist = [];
}

two_snapshots-IsConsistent : IsConsistent two_snapshots.snapshots
unfolding count_id count_active
two_snapshots-IsConsistent = record {
  unique_id = λ id. ground arith;
  one_active = λ system_id. ground arith;
}

abbrev switch : Result SwitchError (CurrentStateSwitchResult × Db)
switch = apply_current_state_switch two_snapshots 100 50 2

abbrev after : Result SwitchError (CurrentStateSwitchResult × Db) → Db
after (ok (result, db)) = db
after (raise e) = two_snapshots

abbrev promotion : CurrentStateSwitchResult
promotion = record {
  outcome = promoted;
  active_snapshot_id = some 2;
  archived_snapshot_id = some 50;
}

apply_current_state_switch-IsConsistent_example : IsConsistent (after switch).snapshots
unfolding apply_current_state_switch runlet.Prelude.list_beq runlet.Prelude.sort
    runlet.Prelude.filter runlet.Assets.Semantic.Diff.compare_semantic_states
    runlet.Assets.Switch.Load.load_snapshot_semantic_state
    runlet.Assets.Semantic.Fingerprints.new_fingerprint runlet.Prelude.Values.normalize_text
    runlet.Prelude.contains runlet.Assets.Semantic.Diff.has_changes runlet.Prelude.insert
    runlet.Prelude.lookup
apply_current_state_switch-IsConsistent_example =
    apply_current_state_switch-IsConsistent two_snapshots 100 50 2 {result = promotion}
      {db' = after switch} two_snapshots-IsConsistent refl

apply_current_state_switch-IsCurrent_example :
    (promotion.active_snapshot_id ≡ some 2) × IsCurrent 2 (after switch)
unfolding apply_current_state_switch runlet.Prelude.list_beq runlet.Prelude.sort
    runlet.Prelude.filter runlet.Assets.Semantic.Diff.compare_semantic_states
    runlet.Assets.Switch.Load.load_snapshot_semantic_state
    runlet.Assets.Semantic.Fingerprints.new_fingerprint runlet.Prelude.Values.normalize_text
    runlet.Prelude.contains runlet.Assets.Semantic.Diff.has_changes runlet.Prelude.insert
    runlet.Prelude.lookup
apply_current_state_switch-IsCurrent_example =
    apply_current_state_switch-IsCurrent two_snapshots 100 50 2 {result = promotion}
      {db' = after switch} refl refl
