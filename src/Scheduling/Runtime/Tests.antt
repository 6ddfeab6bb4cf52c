-- ===== src/Scheduling/Runtime/Tests.antt =====
-- A policy triggered twice in a minute, and the event of a published job.
use runlet.Prelude.{
  ℕ, Bool, true, false, ◌≡◌, refl, inl, Option, none, some, List, [], ◌∷◌, Text, text, Result, ok,
  arith,
}
use runlet.Scheduling.Clock.{DateTime, minute_key}
use runlet.Scheduling.Jobs.Rows.{active, PublishedJob}
use runlet.Scheduling.Jobs.Service.{trigger_scheduled_job}
use runlet.Scheduling.Policies.{active_state, SystemAuthPolicy, SystemCrawlPolicy, Tables}
use runlet.Scheduling.Registry.Upsert.{build_published_job_id}
use runlet.Scheduling.Registry.InMemory.{in_memory}
use runlet.Scheduling.Runtime.Trigger.{
  normalize_time, with_db, trigger_auth, trigger_crawl, trigger_auth_policy_now,
  trigger_crawl_policy_now,
}
use runlet.Scheduling.Runtime.Callbacks.{on_scheduler_job_event}
use runlet.Scheduling.Runtime.AuthOnce.{trigger_auth_policy_now-once}
use runlet.Scheduling.Runtime.CrawlOnce.{trigger_crawl_policy_now-once}
use runlet.Scheduling.Runtime.Target.{on_scheduler_job_event-published}

abbrev login : SystemAuthPolicy
login = record {
  id = 21;
  system_id = 7;
  enabled = true;
  state = active_state;
  schedule_expr = text "0 * * * *";
  last_triggered_at = none;
}

abbrev crawl : SystemCrawlPolicy
crawl = record {
  id = 31;
  system_id = 7;
  enabled = true;
  state = active_state;
  schedule_expr = text "30 2 * * *";
  crawl_scope = text "full";
  last_triggered_at = none;
}

abbrev hourly : PublishedJob
hourly = record {
  id = 1;
  job_key = text "pub";
  page_check_id = 5;
  script_render_id = some 6;
  asset_version = none;
  runtime_policy = text "published";
  schedule_expr = text "0 * * * *";
  timezone = text "UTC";
  state = active;
  pause_reason = none;
  paused_by_snapshot_id = none;
  paused_by_asset_id = none;
  paused_by_page_check_id = none;
  updated_at = 0;
}

abbrev tables : Tables
tables = record {
  jobs = record {
    script_renders = [];
    published_jobs = hourly ∷ [];
    job_runs = [];
    queued_jobs = [];
  };
  auth_policies = login ∷ [];
  crawl_policies = crawl ∷ [];
  policy_jobs = [];
}

abbrev at_ten : DateTime
at_ten = record { wall = 36_000_000_000; utc_offset = none }

abbrev at_ten_and_a_half : DateTime
at_ten_and_a_half = record { wall = 36_030_000_000; utc_offset = none }

abbrev with_login : Tables
with_login = (trigger_auth tables (normalize_time at_ten) 50 (some login)).1

abbrev with_crawl : Tables
with_crawl = (trigger_crawl tables (normalize_time at_ten) 50 (some crawl)).1

trigger_auth_policy_now-once_example :
    trigger_auth_policy_now with_login
      (text "00000000-0000-0000-0000-000000000015")
      at_ten_and_a_half
      51
    ≡ ok (false, with_login)
unfolding trigger_auth_policy_now minute_key runlet.Prelude.list_beq runlet.Prelude.take
trigger_auth_policy_now-once_example =
    trigger_auth_policy_now-once tables with_login (text "00000000-0000-0000-0000-000000000015")
      at_ten at_ten_and_a_half 50 51 refl refl

-- Found by the id of the system.
trigger_crawl_policy_now-once_example :
    trigger_crawl_policy_now with_crawl
      (text "00000000-0000-0000-0000-000000000007")
      at_ten_and_a_half
      51
    ≡ ok (false, with_crawl)
unfolding trigger_crawl_policy_now minute_key runlet.Prelude.list_beq runlet.Prelude.take
trigger_crawl_policy_now-once_example =
    trigger_crawl_policy_now-once tables with_crawl (text "00000000-0000-0000-0000-000000000007")
      at_ten at_ten_and_a_half 50 51 refl refl

on_scheduler_job_event-published_example :
    on_scheduler_job_event in_memory [] tables (build_published_job_id 1) at_ten 100 200
    ≡ ok (with_db tables (trigger_scheduled_job tables.jobs 1 (normalize_time at_ten) 100 200))
unfolding runlet.Prelude.lookup
on_scheduler_job_event-published_example =
    on_scheduler_job_event-published in_memory tables at_ten 100 200 1 [] (omega arith) (inl refl)
