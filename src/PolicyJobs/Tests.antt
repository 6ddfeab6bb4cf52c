-- ===== src/PolicyJobs/Tests.antt =====
-- A crawl and a refresh of one system, with a clock that counts the calls of the service.
use runlet.Prelude.{
  ℕ, ◌+◌, ◌<◌, Bool, true, false, ◌≡◌, refl, Option, none, some, List, [], ◌∷◌, map, Text, text,
  nat_eq, Value, Result, ok, raise, arith,
}
use runlet.Prelude.Values.{str, field_of, new_dict}
use runlet.Scheduling.Clock.{DateTime}
use runlet.Scheduling.Jobs.Rows.{accepted}
use runlet.Scheduling.Policies.{find_row}
use runlet.Scheduling.Uuids.Digits.{pow16}
use runlet.Assets.Switch.Rows.{CrawlSnapshot, SnapshotState, draft, discarded}
use runlet.PolicyJobs.Rows.{
  QueuedJob, Policy, Tables, Readings, job_id, parse_uuid_value, resolve_policy,
}
use runlet.PolicyJobs.AuthRefresh
use runlet.PolicyJobs.AuthRefresh.{HandlerError}
use runlet.PolicyJobs.Crawl
use runlet.PolicyJobs.Refresh.{IsSettled, run-IsSettled}
use runlet.PolicyJobs.Drafts.{IsSwept}
use runlet.PolicyJobs.Sweep.{run-IsSwept}

abbrev no_time : Text → Option DateTime
no_time s = none

abbrev system_text : Text
system_text = text "00000000-0000-0000-0000-000000000007"

abbrev queued_job : QueuedJob
queued_job = record {
  id = 1;
  job_type = text "crawl";
  payload = new_dict (
      (text "system_id", str system_text) ∷ (text "trigger_source", str (text " scheduler ")) ∷ []);
  result_payload = none;
  policy_id = none;
  trigger_source = none;
  scheduled_at = none;
  status = accepted;
  started_at = none;
  finished_at = none;
  failure_message = none;
}

abbrev policy : Policy
policy = record {
  id = 3;
  system_id = 7;
  last_succeeded_at = none;
  last_failed_at = none;
  last_failure_message = none;
}

abbrev snapshot_of : ℕ → CrawlSnapshot
snapshot_of id = record {
  id = id;
  system_id = 7;
  crawl_type = text "full";
  framework_detected = none;
  quality_score = none;
  degraded = false;
  state = draft;
  activated_at = none;
  discarded_at = none;
  failure_reason = none;
  warning_messages = [];
  structure_hash = none;
  started_at = 0;
  finished_at = none;
}

abbrev tables : Tables
tables = record {
  queued_jobs = queued_job ∷ [];
  policies = policy ∷ [];
  snapshots = snapshot_of 4 ∷ [];
}

-- Each reading of the clock is later than the one before.
abbrev readings : ℕ → Readings
readings w = record {
  started = w;
  finished = w + 1;
  reported = w + 2;
  discarded = λ id. w + 3 + id;
}

abbrev auth_services : AuthRefresh.Services ℕ
auth_services = record {
  utcnow = readings;
  fromisoformat = no_time;
  refresh_auth_state = λ id w. (
    AuthRefresh.returned
        (record { status = text "retryable_failed"; message = some (text "captcha") }),
    w + 1,
  );
}

abbrev crawl_result : Crawl.CrawlRunResult
crawl_result = record { status = text "success"; snapshot_id = some 5; message = none }

abbrev crawl_services : Crawl.Services ℕ
crawl_services = record {
  utcnow = readings;
  fromisoformat = no_time;
  run_crawl =
      λ id scope snapshots w. (Crawl.returned crawl_result, (snapshot_of 5 ∷ snapshots, w + 1));
}

found : find_row job_id 1 tables.queued_jobs ≡ some queued_job
unfolding find_row
found = refl

system_read : parse_uuid_value (field_of (text "system_id") queued_job.payload) ≡ some 7
unfolding parse_uuid_value runlet.Prelude.lookup runlet.Prelude.Values.from_fields
    runlet.Prelude.Values.to_fields runlet.Prelude.list_beq runlet.Prelude.take
system_read = refl

scope_read : Crawl.read_scope queued_job.payload ≡ some (text "full")
unfolding runlet.Prelude.lookup runlet.Prelude.Values.from_fields runlet.Prelude.Values.to_fields
    runlet.Prelude.list_beq runlet.Prelude.strip
scope_read = refl

small : 5 < pow16 32
small = omega arith

run-IsSettled_example :
    (x : Tables × ℕ) × (AuthRefresh.run auth_services tables 1 8 ≡ ok x)
    × IsSettled auth_services 1 (resolve_policy tables.policies queued_job.payload) x
run-IsSettled_example = run-IsSettled auth_services tables 1 8 queued_job found

run-IsSwept_example :
    (x : Tables × ℕ) × (Crawl.run crawl_services tables 1 2 8 ≡ ok x)
    × IsSwept 7 (snapshot_of 5 ∷ snapshot_of 4 ∷ []) x.0
unfolding runlet.Prelude.list_beq
run-IsSwept_example =
    run-IsSwept crawl_services tables 1 2 8 queued_job 7 (text "full") crawl_result
      (snapshot_of 5 ∷ snapshot_of 4 ∷ []) 9 5 found system_read scope_read refl refl small

abbrev states_after : Result HandlerError (Tables × ℕ) → List SnapshotState
states_after (ok (t, w)) = map (λ (s : CrawlSnapshot). s.state) t.snapshots
states_after (raise e) = []

-- The draft of the crawl before is discarded.
states : states_after (Crawl.run crawl_services tables 1 2 8) ≡ draft ∷ discarded ∷ []
unfolding Crawl.run runlet.Prelude.Values.from_fields runlet.Prelude.Values.to_fields
    runlet.Prelude.list_beq
states = refl
