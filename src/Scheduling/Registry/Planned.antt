-- ===== src/Scheduling/Registry/Planned.antt =====
-- What the tables ask of the scheduler, said without the order of the calls.
use runlet.Prelude.{
  Bool, true, ◌&&◌, ◌||◌, not, ◌≡◌, Option, none, some, map, Text, text, if◌then◌else◌, ◌==◌,
  nat_eq, list_eq, distinct, All,
}
use runlet.Scheduling.Jobs.Rows.{is_active, PublishedJob}
use runlet.Scheduling.Policies.{active_state, SystemAuthPolicy, SystemCrawlPolicy, Tables}
use runlet.Scheduling.Registry.Scheduler.{ScheduledJob, Scheduler}
use runlet.Scheduling.Registry.Upsert.{
  build_published_job_id, build_auth_policy_job_id, build_crawl_policy_job_id, new_scheduled_job,
}
use runlet.Scheduling.Registry.Keys.{IsUuid}
use runlet.Scheduling.Registry.Overlay.{owned}

-- The job that a row asks for.
abbrev pub published_entry : PublishedJob → ScheduledJob
published_entry r = new_scheduled_job r.schedule_expr r.timezone (text "published_job") r.id

abbrev pub auth_entry : SystemAuthPolicy → ScheduledJob
auth_entry p = new_scheduled_job p.schedule_expr (text "UTC") (text "auth_policy") p.id

abbrev pub crawl_entry : SystemCrawlPolicy → ScheduledJob
crawl_entry p = new_scheduled_job p.schedule_expr (text "UTC") (text "crawl_policy") p.id

abbrev pub wanted : Bool → ScheduledJob → Option ScheduledJob
wanted runs entry = if runs then some entry else none

abbrev pub auth_runs : SystemAuthPolicy → Bool
auth_runs p = p.enabled && p.state == active_state

abbrev pub crawl_runs : SystemCrawlPolicy → Bool
crawl_runs p = p.enabled && p.state == active_state

-- The job that the tables ask for under an id, given the one that the scheduler had.
abbrev pub planned_job : Tables → Text → Option ScheduledJob → Option ScheduledJob
planned_job t j before =
    owned (λ p. build_crawl_policy_job_id p.system_id) (λ p. wanted (crawl_runs p) (crawl_entry p))
      t.crawl_policies j
      (owned (λ p. build_auth_policy_job_id p.system_id) (λ p. wanted (auth_runs p) (auth_entry p))
        t.auth_policies j
        (owned (λ r. build_published_job_id r.id)
          (λ r. wanted (is_active r.state) (published_entry r)) t.jobs.published_jobs j before))

-- The keys of the tables: ids are UUIDs and distinct, and a system has one policy of each kind.
pub record IsKeyed (t : Tables) : Type 0 where
  pub published_distinct : distinct (map (λ (r : PublishedJob). r.id) t.jobs.published_jobs) ≡ true
  pub published_uuids : All IsUuid (map (λ (r : PublishedJob). r.id) t.jobs.published_jobs)
  pub auth_distinct : distinct (map (λ (p : SystemAuthPolicy). p.id) t.auth_policies) ≡ true
  pub auth_systems : distinct (map (λ (p : SystemAuthPolicy). p.system_id) t.auth_policies) ≡ true
  pub auth_uuids : All IsUuid (map (λ (p : SystemAuthPolicy). p.system_id) t.auth_policies)
  pub crawl_distinct : distinct (map (λ (p : SystemCrawlPolicy). p.id) t.crawl_policies) ≡ true
  pub crawl_systems :
      distinct (map (λ (p : SystemCrawlPolicy). p.system_id) t.crawl_policies) ≡ true
  pub crawl_uuids : All IsUuid (map (λ (p : SystemCrawlPolicy). p.system_id) t.crawl_policies)

module _ {S : Type 0} (scheduler : Scheduler S) where
  -- The crontab of an entry is accepted, or its row is not to run.
  abbrev pub IsAccepted : Bool → ScheduledJob → Type 0
  IsAccepted runs e = not runs || scheduler.accepts_crontab e.schedule_expr e.timezone ≡ true

  -- Every schedule that the scheduler is to take is one that it accepts.
  pub record AllAccepted (t : Tables) : Type 0 where
    pub published :
        All
          (λ (r : PublishedJob). IsAccepted (is_active r.state) (published_entry r))
          t.jobs.published_jobs
    pub auth : All (λ p. IsAccepted (auth_runs p) (auth_entry p)) t.auth_policies
    pub crawl : All (λ p. IsAccepted (crawl_runs p) (crawl_entry p)) t.crawl_policies
