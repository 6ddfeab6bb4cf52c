-- ===== src/Assets/Switch/Rows.antt =====
-- The rows of infrastructure/db/models/crawl.py and crawl_history.py that the switch reads and
-- writes. UUIDs and times are numbers. `carried` stands for the columns that the archive copies
-- without looking at them; a quality score is a number of ten-thousandths.
use runlet.Prelude.{ℕ, Bool, true, false, Option, List, Text, Value}

-- The texts of the column `state`.
pub data SnapshotState : Type 0 where
  draft active discarded : SnapshotState
  other_state : Text → SnapshotState

abbrev pub is_active : SnapshotState → Bool
is_active active = true
is_active _ = false

abbrev pub is_draft : SnapshotState → Bool
is_draft draft = true
is_draft _ = false

pub record CrawlSnapshot : Type 0 where
  pub id : ℕ
  pub system_id : ℕ
  pub crawl_type : Text
  pub framework_detected : Option Text
  pub quality_score : Option ℕ
  pub degraded : Bool
  pub state : SnapshotState
  pub activated_at : Option ℕ
  pub discarded_at : Option ℕ
  pub failure_reason : Option Text
  pub warning_messages : List Text
  pub structure_hash : Option Text
  pub started_at : ℕ
  pub finished_at : Option ℕ

pub record Page : Type 0 where
  pub id : ℕ
  pub snapshot_id : Option ℕ
  pub route_path : Text
  pub page_title : Option Text
  pub carried : Value

pub record MenuNode : Type 0 where
  pub id : ℕ
  pub snapshot_id : ℕ
  pub page_id : Option ℕ
  pub label : Text
  pub depth : ℕ
  pub sort_order : ℕ
  pub carried : Value

pub record PageElement : Type 0 where
  pub id : ℕ
  pub snapshot_id : ℕ
  pub page_id : ℕ
  pub element_type : Text
  pub element_role : Option Text
  pub element_text : Option Text
  pub state_signature : Option Text
  pub state_context : Value
  pub carried : Value

-- A history row copies the columns of the snapshot it archives, and says what replaced it.
pub record CrawlSnapshotHist : Type 0 where
  pub id : ℕ
  pub snapshot : CrawlSnapshot
  pub source_active_snapshot_id : Option ℕ
  pub replaced_by_snapshot_id : Option ℕ
  pub archive_reason : Option Text

-- The tables. A history row of a page, a menu node or an element is the row that it copies.
pub record Db : Type 0 where
  pub snapshots : List CrawlSnapshot
  pub pages : List Page
  pub menu_nodes : List MenuNode
  pub page_elements : List PageElement
  pub snapshots_hist : List CrawlSnapshotHist
  pub pages_hist : List Page
  pub menu_nodes_hist : List MenuNode
  pub page_elements_hist : List PageElement
