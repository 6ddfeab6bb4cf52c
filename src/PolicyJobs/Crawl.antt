-- ===== src/PolicyJobs/Crawl.antt =====
-- CrawlJobHandler.run of backend/src/app/jobs/crawl_job.py.
use runlet.Prelude.{
  ℕ, Bool, ◌&&◌, not, Option, none, some, List, [], ◌∷◌, ◌++◌, Text, text, strip, is_empty,
  if◌then◌else◌, ◌==◌, nat_eq, list_eq, option_eq, contains, Result, ok, raise, Value, get_or,
  lookup,
}
use runlet.Prelude.Values.{null, str, field_of, from_fields, new_dict, dict}
use runlet.Scheduling.Clock.{DateTime}
use runlet.Scheduling.Jobs.Rows.{accepted, completed}
use runlet.Scheduling.Jobs.Publish.{uuid_text}
use runlet.Scheduling.Policies.{find_row}
use runlet.Assets.Switch.Rows.{CrawlSnapshot, discarded, is_draft}
use runlet.RunCheck.Marks.{text_or}
use runlet.PolicyJobs.Rows.{
  QueuedJob, Policy, Tables, Readings, job_id, text_value, uuid_of, parse_uuid_value,
  resolve_policy, audit,
}
use runlet.PolicyJobs.Marks.{change_job, change_policy, succeeded_policy, mark_running, mark_failed}
use runlet.PolicyJobs.AuthRefresh.{HandlerError, job_not_found, badly_formed_uuid, ended_job}

abbrev pub asset_compile_job_type : Text
asset_compile_job_type = text "asset_compile"

-- The fields of CrawlRunResult that are read.
pub record CrawlRunResult : Type 0 where
  pub status : Text
  pub snapshot_id : Option ℕ
  pub message : Option Text

pub data Crawled : Type 0 where
  returned : CrawlRunResult → Crawled
  raised : Text → Crawled

-- The crawler service, which writes snapshots, over what else it changes (W); W holds the clock too.
pub record Services (W : Type 0) : Type 0 where
  pub utcnow : W → Readings
  pub fromisoformat : Text → Option DateTime
  pub run_crawl : ℕ → Text → List CrawlSnapshot → W → Crawled × (List CrawlSnapshot × W)

-- payload.get("crawl_scope", "full"), if it is a text and not blank
abbrev pub not_blank : Option Text → Option Text
not_blank none = none
not_blank (some scope) = if is_empty (strip scope) then none else some scope

abbrev pub scope_value : Value → Value
scope_value (dict _ fields) =
    get_or (str (text "full")) (lookup (text "crawl_scope") (from_fields fields))
scope_value _ = null

abbrev pub read_scope : Value → Option Text
read_scope payload = not_blank (text_value (scope_value payload))

abbrev pub if_given : Option ℕ → List ℕ → List ℕ
if_given none ids = ids
if_given (some id) ids = id ∷ ids

-- The ids of the snapshots that have a job to compile them.
unfoldable pub queued_snapshot_ids : List QueuedJob → List ℕ
unfolding parse_uuid_value
queued_snapshot_ids [] = []
queued_snapshot_ids (job ∷ jobs) =
    let rest = queued_snapshot_ids jobs in
    if job.job_type == asset_compile_job_type
    then if_given (parse_uuid_value (field_of (text "snapshot_id") job.payload)) rest
    else rest

abbrev pub is_superseded : ℕ → ℕ → List ℕ → CrawlSnapshot → Bool
is_superseded system_id keep_snapshot_id queued snapshot =
    snapshot.system_id == system_id
    && is_draft snapshot.state
    && not (snapshot.id == keep_snapshot_id)
    && not (contains snapshot.id queued)

abbrev pub discard : ℕ → CrawlSnapshot → CrawlSnapshot
discard now snapshot = record snapshot {
  state = discarded;
  discarded_at = some now;
  failure_reason = some (text "superseded_by_newer_draft");
}

-- _discard_superseded_uncompiled_drafts; the rows are changed in place, in whichever order.
unfoldable pub discard_superseded :
    (ℕ → ℕ) → ℕ → ℕ → List ℕ → List CrawlSnapshot → List CrawlSnapshot
unfolding contains
discard_superseded now system_id keep_snapshot_id queued [] = []
discard_superseded now system_id keep_snapshot_id queued (snapshot ∷ snapshots) =
    (if is_superseded system_id keep_snapshot_id queued snapshot
      then discard (now snapshot.id) snapshot
      else snapshot)
    ∷ discard_superseded now system_id keep_snapshot_id queued snapshots

-- The job that is added, under its new id.
abbrev pub compile_job : ℕ → ℕ → QueuedJob
compile_job new_id snapshot_id = record {
  id = new_id;
  job_type = asset_compile_job_type;
  payload = new_dict (
      (text "snapshot_id", str (uuid_text snapshot_id))
      ∷ (text "compile_scope", str (text "impacted_pages_only"))
      ∷ []);
  result_payload = none;
  policy_id = none;
  trigger_source = none;
  scheduled_at = none;
  status = accepted;
  started_at = none;
  finished_at = none;
  failure_message = none;
}

abbrev pub crawled_job : ℕ → ℕ → QueuedJob → QueuedJob
crawled_job snapshot_id now job = record (ended_job completed none now job) {
  result_payload = some (
      new_dict (
        (text "status", str (text "success"))
        ∷ (text "snapshot_id", str (uuid_text snapshot_id))
        ∷ []));
}

-- The discarded drafts, and the job that is added to the queue.
unfoldable pub queue_compile : ℕ → (ℕ → ℕ) → ℕ → ℕ → Tables → Tables
unfolding discard_superseded queued_snapshot_ids
queue_compile new_id now system_id snapshot_id t = record t {
  snapshots =
      discard_superseded now system_id snapshot_id (queued_snapshot_ids t.queued_jobs) t.snapshots;
  queued_jobs = t.queued_jobs ++ compile_job new_id snapshot_id ∷ [];
}

unfoldable pub mark_crawled : ℕ → ℕ → Readings → ℕ → ℕ → Option Policy → Tables → Tables
unfolding queue_compile change_job change_policy uuid_text
mark_crawled id new_id now system_id snapshot_id policy t =
    change_policy policy (succeeded_policy now.reported) (
      change_job id (crawled_job snapshot_id now.finished)
        (queue_compile new_id now.discarded system_id snapshot_id t))

abbrev pub with_snapshots : Tables → List CrawlSnapshot → Tables
with_snapshots t snapshots = record t { snapshots = snapshots }

-- The snapshot of a crawl that succeeded.
abbrev pub crawled_snapshot : CrawlRunResult → Option ℕ
crawled_snapshot result = if result.status == text "success" then result.snapshot_id else none

module _ {W : Type 0} (services : Services W) where
  abbrev pub settle_snapshot :
      ℕ → ℕ → ℕ → Option Policy → Tables → CrawlRunResult → W → Option ℕ → Tables × W
  settle_snapshot id new_id system_id policy t result w none =
      (mark_failed id (services.utcnow w) (text_or result.message (some result.status)) policy t, w)
  settle_snapshot id new_id system_id policy t result w (some snapshot_id) =
      (mark_crawled id new_id (services.utcnow w) system_id snapshot_id policy t, w)

  abbrev pub settle :
      ℕ → ℕ → ℕ → Option Policy → Tables → Crawled × (List CrawlSnapshot × W) → Tables × W
  settle id new_id system_id policy t (raised message, (snapshots, w)) =
      (mark_failed id (services.utcnow w) (some message) policy (with_snapshots t snapshots), w)
  settle id new_id system_id policy t (returned result, (snapshots, w)) =
      settle_snapshot id new_id system_id policy (with_snapshots t snapshots) result w
        (crawled_snapshot result)

  -- run_crawl(system_id=UUID(system_id), ...) and what follows it
  abbrev pub crawl : ℕ → ℕ → Option Policy → Tables → W → Text → Option ℕ → Tables × W
  crawl id new_id policy t w scope none =
      (mark_failed id (services.utcnow w) (some badly_formed_uuid) policy t, w)
  crawl id new_id policy t w scope (some system_id) =
      settle id new_id system_id policy t (services.run_crawl system_id scope t.snapshots w)

  abbrev pub handle_payload :
      ℕ → ℕ → Option Policy → Tables → W → Option Text → Option Text → Tables × W
  handle_payload id new_id policy t w none scope = (
    mark_failed id (services.utcnow w) (some (text "missing system_id in crawl job payload")) policy
        t,
    w,
  )
  handle_payload id new_id policy t w (some system_id) none = (
    mark_failed id (services.utcnow w) (some (text "missing crawl_scope in crawl job payload"))
        policy t,
    w,
  )
  handle_payload id new_id policy t w (some system_id) (some scope) =
      crawl id new_id policy (mark_running id (services.utcnow w) t) w scope
        (uuid_of (some system_id))

  abbrev pub handle_found : ℕ → ℕ → Tables → W → Option QueuedJob → Result HandlerError (Tables × W)
  handle_found id new_id t w none = raise (job_not_found id)
  handle_found id new_id t w (some job) = ok (
      handle_payload id new_id (resolve_policy t.policies job.payload)
        (audit services.fromisoformat id t) w (text_value (field_of (text "system_id") job.payload))
        (read_scope job.payload))

  -- CrawlJobHandler.run; new_id is the id of the row that it may add.
  unfoldable pub run : Tables → ℕ → ℕ → W → Result HandlerError (Tables × W)
  unfolding find_row audit resolve_policy mark_running mark_failed mark_crawled strip lookup
      runlet.Scheduling.Uuids.Parse.parse_uuid
  run t id new_id w = handle_found id new_id t w (find_row job_id id t.queued_jobs)
