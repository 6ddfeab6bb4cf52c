-- ===== src/Scheduling/Registry/Upsert.antt =====
-- The methods of SchedulerRegistry, which bring the scheduler's jobs in line with the tables. A call
-- that raises leaves the scheduler as it is at that moment. The sessions and the two kinds of them
-- are left out.
use runlet.Prelude.{
  ℕ, ◌||◌, not, Option, none, some, List, [], ◌∷◌, ◌++◌, map, Text, text, if◌then◌else◌, ◌==◌,
  nat_eq, list_eq, Result, ok, raise, ◌>>=◌,
}
use runlet.Prelude.Values.{str, new_dict}
use runlet.Scheduling.Jobs.Rows.{is_active, PublishedJob}
use runlet.Scheduling.Jobs.Service.{get_job}
use runlet.Scheduling.Jobs.Publish.{uuid_text}
use runlet.Scheduling.Policies.{active_state, SystemAuthPolicy, SystemCrawlPolicy, Tables, find_row}
use runlet.Scheduling.Registry.Scheduler.{ScheduledJob, Scheduler}

abbrev pub build_published_job_id : ℕ → Text
build_published_job_id published_job_id = text "published_job:" ++ uuid_text published_job_id

abbrev pub build_auth_policy_job_id : ℕ → Text
build_auth_policy_job_id system_id = text "auth_policy:" ++ uuid_text system_id

abbrev pub build_crawl_policy_job_id : ℕ → Text
build_crawl_policy_job_id system_id = text "crawl_policy:" ++ uuid_text system_id

-- The ValueError of CronTrigger.from_crontab.
pub data CrontabError : Type 0 where
  invalid_crontab : Text → CrontabError

abbrev pub new_scheduled_job : Text → Text → Text → ℕ → ScheduledJob
new_scheduled_job schedule_expr timezone kind entity_id = record {
  schedule_expr = schedule_expr;
  timezone = timezone;
  kwargs = new_dict ((text "kind", str kind) ∷ (text "entity_id", str (uuid_text entity_id)) ∷ []);
}

module _ {S : Type 0} (scheduler : Scheduler S) where
  -- JobLookupError is caught.
  abbrev pub or_unchanged : S → Option S → S
  or_unchanged s none = s
  or_unchanged s (some s') = s'

  unfoldable pub remove_job : Text → S → S
  remove_job job_id s = or_unchanged s (scheduler.remove_job job_id s)

  unfoldable pub upsert_job : Text → ScheduledJob → S → Result (CrontabError × S) S
  upsert_job job_id job s =
      if scheduler.accepts_crontab job.schedule_expr job.timezone
      then ok (scheduler.add_job job_id job s)
      else raise (invalid_crontab job.schedule_expr, s)

  abbrev pub upsert_published_row : ℕ → S → Option PublishedJob → Result (CrontabError × S) S
  unfolding remove_job upsert_job
  upsert_published_row id s none = ok (remove_job (build_published_job_id id) s)
  upsert_published_row id s (some published_job) =
      if not (is_active published_job.state)
      then ok (remove_job (build_published_job_id id) s)
      else upsert_job (build_published_job_id id)
          (new_scheduled_job published_job.schedule_expr published_job.timezone
            (text "published_job") published_job.id)
          s

  unfoldable pub upsert_published_job : Tables → ℕ → S → Result (CrontabError × S) S
  unfolding remove_job upsert_job get_job
  upsert_published_job t id s = upsert_published_row id s (get_job id t.jobs.published_jobs)

  abbrev pub upsert_auth_row : S → Option SystemAuthPolicy → Result (CrontabError × S) S
  unfolding remove_job upsert_job
  upsert_auth_row s none = ok s
  upsert_auth_row s (some policy) =
      if not policy.enabled || not (policy.state == active_state)
      then ok (remove_job (build_auth_policy_job_id policy.system_id) s)
      else upsert_job (build_auth_policy_job_id policy.system_id)
          (new_scheduled_job policy.schedule_expr (text "UTC") (text "auth_policy") policy.id) s

  unfoldable pub upsert_auth_policy : Tables → ℕ → S → Result (CrontabError × S) S
  unfolding remove_job upsert_job find_row
  upsert_auth_policy t id s = upsert_auth_row s (find_row (λ p. p.id) id t.auth_policies)

  abbrev pub upsert_crawl_row : S → Option SystemCrawlPolicy → Result (CrontabError × S) S
  unfolding remove_job upsert_job
  upsert_crawl_row s none = ok s
  upsert_crawl_row s (some policy) =
      if not policy.enabled || not (policy.state == active_state)
      then ok (remove_job (build_crawl_policy_job_id policy.system_id) s)
      else upsert_job (build_crawl_policy_job_id policy.system_id)
          (new_scheduled_job policy.schedule_expr (text "UTC") (text "crawl_policy") policy.id) s

  unfoldable pub upsert_crawl_policy : Tables → ℕ → S → Result (CrontabError × S) S
  unfolding remove_job upsert_job find_row
  upsert_crawl_policy t id s = upsert_crawl_row s (find_row (λ p. p.id) id t.crawl_policies)

  -- for row in rows: the first error ends the loop.
  unfoldable pub for_each :
      (ℕ → S → Result (CrontabError × S) S) → List ℕ → S → Result (CrontabError × S) S
  for_each step [] s = ok s
  for_each step (id ∷ ids) s = step id s >>= for_each step ids

  unfoldable pub load_all_from_db : Tables → S → Result (CrontabError × S) S
  unfolding for_each upsert_published_job upsert_auth_policy upsert_crawl_policy
  load_all_from_db t s = do
    s ← for_each (upsert_published_job t) (map (λ (r : PublishedJob). r.id) t.jobs.published_jobs) s
    s ← for_each (upsert_auth_policy t) (map (λ (p : SystemAuthPolicy). p.id) t.auth_policies) s
    for_each (upsert_crawl_policy t) (map (λ (p : SystemCrawlPolicy). p.id) t.crawl_policies) s
