-- ===== src/PolicyJobs/Rows.antt =====
-- The rows that the handlers of "crawl" and "auth_refresh" jobs read and write, the policy of a job
-- and the fields of a job that are copied from its payload.
use runlet.Prelude.{
  ℕ, Option, none, some, List, Text, text, strip, is_empty, if◌then◌else◌, nat_eq, Value,
}
use runlet.Prelude.Values.{str, field_of}
use runlet.Scheduling.Clock.{DateTime}
use runlet.Scheduling.Jobs.Rows.{QueuedJobStatus}
use runlet.Scheduling.Uuids.Parse.{parse_uuid}
use runlet.Scheduling.Policies.{find_row}
use runlet.Scheduling.Runtime.Trigger.{normalize_time, or_else}
use runlet.Assets.Switch.Rows.{CrawlSnapshot}
use runlet.RunCheck.Marks.{change_row}

pub record QueuedJob : Type 0 where
  pub id : ℕ
  pub job_type : Text
  pub payload : Value
  pub result_payload : Option Value
  pub policy_id : Option ℕ
  pub trigger_source : Option Text
  pub scheduled_at : Option DateTime
  pub status : QueuedJobStatus
  pub started_at : Option ℕ
  pub finished_at : Option ℕ
  pub failure_message : Option Text

-- SystemAuthPolicy for one handler and SystemCrawlPolicy for the other, by the columns that both have
-- and the handlers read or write.
pub record Policy : Type 0 where
  pub id : ℕ
  pub system_id : ℕ
  pub last_succeeded_at : Option ℕ
  pub last_failed_at : Option ℕ
  pub last_failure_message : Option Text

-- The policies of the handler's kind; the snapshots are those of the crawls.
pub record Tables : Type 0 where
  pub queued_jobs : List QueuedJob
  pub policies : List Policy
  pub snapshots : List CrawlSnapshot

-- What the clock says each time that a handler reads it after a call of its service: for the columns
-- started_at and finished_at of the job, for those of its policy, and for a snapshot that it discards.
pub record Readings : Type 0 where
  pub started : ℕ
  pub finished : ℕ
  pub reported : ℕ
  pub discarded : ℕ → ℕ

abbrev pub job_id : QueuedJob → ℕ
job_id j = j.id

-- A value that is a text.
abbrev pub text_value : Value → Option Text
text_value (str s) = some s
text_value _ = none

abbrev pub uuid_of : Option Text → Option ℕ
uuid_of none = none
uuid_of (some s) = parse_uuid s

-- _parse_uuid
unfoldable pub parse_uuid_value : Value → Option ℕ
unfolding parse_uuid
parse_uuid_value value = uuid_of (text_value value)

abbrev pub by_system_id : List Policy → Option ℕ → Option Policy
by_system_id policies none = none
by_system_id policies (some system_id) = find_row (λ (p : Policy). p.system_id) system_id policies

abbrev pub by_policy_id : List Policy → Option ℕ → Option Policy
by_policy_id policies none = none
by_policy_id policies (some policy_id) =
    or_else (find_row (λ (p : Policy). p.id) policy_id policies)
      (by_system_id policies (some policy_id))

-- _resolve_policy
unfoldable pub resolve_policy : List Policy → Value → Option Policy
unfolding parse_uuid_value find_row
resolve_policy policies payload =
    or_else (by_policy_id policies (parse_uuid_value (field_of (text "policy_id") payload)))
      (by_system_id policies (parse_uuid_value (field_of (text "system_id") payload)))

module _ (fromisoformat : Text → Option DateTime) where
  abbrev pub normalized : Option DateTime → Option DateTime
  normalized none = none
  normalized (some parsed) = some (normalize_time parsed)

  abbrev pub time_of : Option Text → Option DateTime
  time_of none = none
  time_of (some s) = normalized (fromisoformat s)

  -- _parse_datetime, with datetime.fromisoformat as a parameter: None where it raises.
  unfoldable pub parse_datetime : Value → Option DateTime
  unfolding normalize_time
  parse_datetime value = time_of (text_value value)

  abbrev pub given_source : Option Text → Option Text
  given_source none = none
  given_source (some s) = if is_empty (strip s) then none else some (strip s)

  -- _apply_queue_audit_fields
  unfoldable pub apply_queue_audit_fields : QueuedJob → QueuedJob
  unfolding parse_uuid_value parse_datetime strip
  apply_queue_audit_fields job = record job {
    policy_id = or_else (parse_uuid_value (field_of (text "policy_id") job.payload)) job.policy_id;
    trigger_source =
        or_else (given_source (text_value (field_of (text "trigger_source") job.payload)))
          job.trigger_source;
    scheduled_at =
        or_else (parse_datetime (field_of (text "scheduled_at") job.payload)) job.scheduled_at;
  }

  unfoldable pub audit : ℕ → Tables → Tables
  unfolding change_row apply_queue_audit_fields
  audit id t = record t {
    queued_jobs = change_row job_id id apply_queue_audit_fields t.queued_jobs;
  }
