-- ===== src/Assets/Switch/Apply.antt =====
-- apply_current_state_switch of current_state_switch.py, as a function of the tables, the time and
-- the id of a new history row.
use runlet.Prelude.{
  ℕ, Bool, true, false, ◌&&◌, not, Option, none, some, List, [], ◌∷◌, ◌++◌, text, if◌then◌else◌,
  leb, ◌==◌, list_eq, nat_eq, option_eq, filter, first, sort, text_leb, Result, ok, raise, ◌>>=◌,
}
use runlet.Assets.Semantic.Diff.{IndexError, has_changes, compare_semantic_states}
use runlet.Assets.Switch.Rows.{
  SnapshotState, active, discarded, is_active, is_draft, CrawlSnapshot, Db,
}
use runlet.Assets.Switch.Load.{load_snapshot_semantic_state}

pub data Outcome : Type 0 where
  promoted discarded_low_quality discarded_no_change : Outcome

pub record CurrentStateSwitchResult : Type 0 where
  pub outcome : Outcome
  pub active_snapshot_id : Option ℕ
  pub archived_snapshot_id : Option ℕ

-- The ValueErrors of the module, and those of the comparison.
pub data SwitchError : Type 0 where
  snapshot_not_found : ℕ → SwitchError
  not_draft_or_active : SnapshotState → SwitchError
  bad_state : IndexError → SwitchError

-- session.get(CrawlSnapshot, id)
unfoldable pub get_snapshot : ℕ → List CrawlSnapshot → Option CrawlSnapshot
get_snapshot id [] = none
get_snapshot id (s ∷ rest) = if s.id == id then some s else get_snapshot id rest

-- The flush of a snapshot that was changed: its row is written.
unfoldable pub put_snapshot : CrawlSnapshot → List CrawlSnapshot → List CrawlSnapshot
put_snapshot s [] = []
put_snapshot s (t ∷ rest) = (if t.id == s.id then s else t) ∷ put_snapshot s rest

-- 0.9 in ten-thousandths
abbrev pub high_quality_min_score : ℕ
high_quality_min_score = 9000

abbrev pub scores_high : Option ℕ → Bool
scores_high none = false
scores_high (some score) = leb high_quality_min_score score

unfoldable pub is_high_quality_snapshot : CrawlSnapshot → Bool
is_high_quality_snapshot snapshot =
    if not (snapshot.crawl_type == text "full")
    then false
    else if snapshot.degraded
    then false
    else scores_high snapshot.quality_score

-- A NULL time is the greatest, as in PostgreSQL.
abbrev pub time_key : Option ℕ → List ℕ
time_key none = 1 ∷ 0 ∷ []
time_key (some t) = 0 ∷ t ∷ []

-- ORDER BY activated_at DESC, started_at DESC, id DESC
abbrev pub newest_first : CrawlSnapshot → CrawlSnapshot → Bool
newest_first a b =
    text_leb (time_key b.activated_at ++ b.started_at ∷ b.id ∷ [])
      (time_key a.activated_at ++ a.started_at ∷ a.id ∷ [])

abbrev pub is_rival : ℕ → ℕ → CrawlSnapshot → Bool
is_rival system_id exclude_id s =
    s.system_id == system_id && (is_active s.state && not (s.id == exclude_id))

unfoldable pub load_active_snapshot : Db → ℕ → ℕ → Option CrawlSnapshot
load_active_snapshot db system_id exclude_snapshot_id =
    first (sort newest_first (filter (is_rival system_id exclude_snapshot_id) db.snapshots))

-- The facts of the active snapshot are copied to the history tables, each in the order of its ids.
unfoldable pub archive_active_snapshot_facts : Db → ℕ → Db
archive_active_snapshot_facts db active_id = record db {
  pages_hist =
      db.pages_hist
      ++ sort (λ a b. leb a.id b.id) (filter (λ page. page.snapshot_id == some active_id) db.pages);
  menu_nodes_hist =
      db.menu_nodes_hist
      ++ sort (λ a b. leb a.id b.id) (filter (λ menu. menu.snapshot_id == active_id) db.menu_nodes);
  page_elements_hist =
      db.page_elements_hist
      ++ sort (λ a b. leb a.id b.id)
          (filter (λ element. element.snapshot_id == active_id) db.page_elements);
}

-- draft.state = "discarded"
abbrev pub discard : ℕ → CrawlSnapshot → CrawlSnapshot
discard now s = record s { state = discarded; discarded_at = some now }

-- draft.state = "active"
abbrev pub activate : ℕ → CrawlSnapshot → CrawlSnapshot
activate now s = record s { state = active; activated_at = some now; discarded_at = none }

abbrev pub write : CrawlSnapshot → Db → Db
write s db = record db { snapshots = put_snapshot s db.snapshots }

-- From the archive row on: the active snapshot goes, the draft takes its place.
unfoldable pub replace_active : Db → ℕ → ℕ → CrawlSnapshot → CrawlSnapshot → Db
unfolding archive_active_snapshot_facts
replace_active db now hist_id draft_snapshot active_snapshot =
    let archived = record db {
      snapshots_hist =
          db.snapshots_hist
          ++ record {
            id = hist_id;
            snapshot = active_snapshot;
            source_active_snapshot_id = some active_snapshot.id;
            replaced_by_snapshot_id = some draft_snapshot.id;
            archive_reason = some (text "semantic_change");
          }
            ∷ [];
    } in
    write (activate now draft_snapshot) (
      write (discard now active_snapshot)
        (archive_active_snapshot_facts archived active_snapshot.id))

abbrev pub lift {ℓ} : {A : Type ℓ} → Result IndexError A → Result SwitchError A
lift (ok a) = ok a
lift (raise e) = raise (bad_state e)

-- `if not diff.has_changes`: the draft is discarded, or it replaces the active snapshot.
unfoldable pub settle :
    Db → ℕ → ℕ → CrawlSnapshot → CrawlSnapshot → Bool → CurrentStateSwitchResult × Db
unfolding replace_active
settle db now hist_id draft_snapshot active_snapshot false = (
  record {
    outcome = discarded_no_change;
    active_snapshot_id = some active_snapshot.id;
    archived_snapshot_id = none;
  },
  write (discard now draft_snapshot) db,
)
settle db now hist_id draft_snapshot active_snapshot true = (
  record {
    outcome = promoted;
    active_snapshot_id = some draft_snapshot.id;
    archived_snapshot_id = some hist_id;
  },
  replace_active db now hist_id draft_snapshot active_snapshot,
)

-- The switch of a draft of high quality, against the active snapshot if there is one.
unfoldable pub switch_draft :
    Db
    → ℕ
    → ℕ
    → CrawlSnapshot
    → Option CrawlSnapshot
    → Result SwitchError (CurrentStateSwitchResult × Db)
unfolding settle
switch_draft db now hist_id draft_snapshot none = ok (
  record {
    outcome = promoted;
    active_snapshot_id = some draft_snapshot.id;
    archived_snapshot_id = none;
  },
  write (activate now draft_snapshot) db,
)
switch_draft db now hist_id draft_snapshot (some active_snapshot) = do
  diff ← lift (
      compare_semantic_states (load_snapshot_semantic_state db active_snapshot.id)
        (load_snapshot_semantic_state db draft_snapshot.id))
  ok (settle db now hist_id draft_snapshot active_snapshot (has_changes diff))

abbrev pub switch_found :
    Db → ℕ → ℕ → ℕ → Option CrawlSnapshot → Result SwitchError (CurrentStateSwitchResult × Db)
switch_found db now hist_id id none = raise (snapshot_not_found id)
switch_found db now hist_id id (some draft_snapshot) =
    if is_active draft_snapshot.state
    then ok (
      record {
        outcome = promoted;
        active_snapshot_id = some draft_snapshot.id;
        archived_snapshot_id = none;
      },
      db,
    )
    else if not (is_draft draft_snapshot.state)
    then raise (not_draft_or_active draft_snapshot.state)
    else if not (is_high_quality_snapshot draft_snapshot)
    then ok (
      record {
        outcome = discarded_low_quality;
        active_snapshot_id = none;
        archived_snapshot_id = none;
      },
      write (discard now draft_snapshot) db,
    )
    else switch_draft db now hist_id draft_snapshot
        (load_active_snapshot db draft_snapshot.system_id draft_snapshot.id)

unfoldable pub apply_current_state_switch :
    Db → ℕ → ℕ → ℕ → Result SwitchError (CurrentStateSwitchResult × Db)
unfolding get_snapshot switch_draft is_high_quality_snapshot load_active_snapshot put_snapshot
apply_current_state_switch db now hist_id draft_snapshot_id =
    switch_found db now hist_id draft_snapshot_id (get_snapshot draft_snapshot_id db.snapshots)
