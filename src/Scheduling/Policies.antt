-- ===== src/Scheduling/Policies.antt =====
-- The policies of infrastructure/db/models/runtime_policies.py, and the tables that the scheduler
-- reads and writes. The columns on the last success and failure, and those of the login, are left
-- out: nothing here reads them. The queued jobs of policies stand in a table of their own.
use runlet.Prelude.{
  ℕ, Bool, Option, none, some, List, [], ◌∷◌, Text, text, if◌then◌else◌, ◌==◌, nat_eq, list_eq,
}
use runlet.Scheduling.Clock.{DateTime}
use runlet.Scheduling.Jobs.Rows.{QueuedJobStatus, Db}

-- RuntimePolicyState.ACTIVE; the column is a text.
abbrev pub active_state : Text
active_state = text "active"

pub record SystemAuthPolicy : Type 0 where
  pub id : ℕ
  pub system_id : ℕ
  pub enabled : Bool
  pub state : Text
  pub schedule_expr : Text
  pub last_triggered_at : Option DateTime

pub record SystemCrawlPolicy : Type 0 where
  pub id : ℕ
  pub system_id : ℕ
  pub enabled : Bool
  pub state : Text
  pub schedule_expr : Text
  pub crawl_scope : Text
  pub last_triggered_at : Option DateTime

-- The payload of an "auth_refresh" job or, with a scope, of a "crawl" job.
pub record PolicyPayload : Type 0 where
  pub system_id : ℕ
  pub crawl_scope : Option Text
  pub policy_id : ℕ
  pub trigger_source : Text
  pub scheduled_at : DateTime

pub record PolicyJob : Type 0 where
  pub id : ℕ
  pub job_type : Text
  pub payload : PolicyPayload
  pub policy_id : Option ℕ
  pub trigger_source : Option Text
  pub scheduled_at : Option DateTime
  pub status : QueuedJobStatus

pub record Tables : Type 0 where
  pub jobs : Db
  pub auth_policies : List SystemAuthPolicy
  pub crawl_policies : List SystemCrawlPolicy
  pub policy_jobs : List PolicyJob

-- session.get(model, id), and a selection by another column: the first row with the number.
module _ {ℓ} {A : Type ℓ} (column : A → ℕ) where
  unfoldable pub find_row : ℕ → List A → Option A
  find_row id [] = none
  find_row id (row ∷ rows) = if column row == id then some row else find_row id rows
