-- ===== src/Scheduling/Registry/Tests.antt =====
-- Tables with an active and a paused job and a policy of each kind, loaded into a scheduler that
-- still holds the paused job and a job of a deleted row.
use runlet.Prelude.{
  ℕ, Bool, true, false, ◌≡◌, refl, Option, none, some, List, [], ◌∷◌, Text, text, Result, ok, arith,
}
use runlet.Scheduling.Jobs.Rows.{active, paused, PublishedJobState, PublishedJob}
use runlet.Scheduling.Policies.{active_state, SystemAuthPolicy, SystemCrawlPolicy, Tables}
use runlet.Scheduling.Registry.Scheduler.{ScheduledJob}
use runlet.Scheduling.Registry.Upsert.{
  build_published_job_id, build_crawl_policy_job_id, new_scheduled_job, load_all_from_db,
}
use runlet.Scheduling.Registry.Planned.{planned_job, crawl_entry}
use runlet.Scheduling.Registry.Refines.{load_all_from_db-refines}
use runlet.Scheduling.Registry.InMemory.{Jobs, in_memory}

abbrev job_row : ℕ → PublishedJobState → PublishedJob
job_row id state = record {
  id = id;
  job_key = text "pub";
  page_check_id = 5;
  script_render_id = some 6;
  asset_version = none;
  runtime_policy = text "published";
  schedule_expr = text "* * * * *";
  timezone = text "UTC";
  state = state;
  pause_reason = none;
  paused_by_snapshot_id = none;
  paused_by_asset_id = none;
  paused_by_page_check_id = none;
  updated_at = 0;
}

abbrev login : SystemAuthPolicy
login = record {
  id = 21;
  system_id = 7;
  enabled = false;
  state = active_state;
  schedule_expr = text "0 * * * *";
  last_triggered_at = none;
}

abbrev crawl : SystemCrawlPolicy
crawl = record {
  id = 31;
  system_id = 7;
  enabled = true;
  state = active_state;
  schedule_expr = text "30 2 * * *";
  crawl_scope = text "full";
  last_triggered_at = none;
}

abbrev tables : Tables
tables = record {
  jobs = record {
    script_renders = [];
    published_jobs = job_row 1 active ∷ job_row 2 paused ∷ [];
    job_runs = [];
    queued_jobs = [];
  };
  auth_policies = login ∷ [];
  crawl_policies = crawl ∷ [];
  policy_jobs = [];
}

abbrev old_job : ℕ → Text × ScheduledJob
old_job id = (
  build_published_job_id id,
  new_scheduled_job (text "* * * * *") (text "UTC") (text "published_job") id,
)

abbrev before : Jobs
before = old_job 2 ∷ old_job 9 ∷ []

load_all_from_db-refines_example :
    (s' : Jobs) × (load_all_from_db in_memory tables before ≡ ok s')
    × ((j : Text) → in_memory.get_job j s' ≡ planned_job tables j (in_memory.get_job j before))
unfolding runlet.Prelude.contains runlet.Prelude.distinct runlet.Prelude.list_beq
load_all_from_db-refines_example =
    load_all_from_db-refines in_memory tables before
      (record {
        published_distinct = refl;
        published_uuids = omega arith;
        auth_distinct = refl;
        auth_systems = refl;
        auth_uuids = omega arith;
        crawl_distinct = refl;
        crawl_systems = refl;
        crawl_uuids = omega arith;
      })
      (record { published = (refl, (refl, tt)); auth = (refl, tt); crawl = (refl, tt) })

-- The job of the deleted row stays.
loaded_jobs :
    load_all_from_db in_memory tables before
    ≡ ok (old_job 9 ∷ old_job 1 ∷ (build_crawl_policy_job_id 7, crawl_entry crawl) ∷ [])
unfolding load_all_from_db runlet.Prelude.list_beq runlet.Prelude.insert
    runlet.Scheduling.Registry.InMemory.remove runlet.Scheduling.Jobs.Publish.uuid_text
loaded_jobs = refl
