-- ===== src/Scheduling/Jobs/Service.antt =====
-- PublishedJobService of scheduler.py: triggering, pausing and resuming.
use runlet.Prelude.{
  ℕ, ◌+◌, Bool, true, false, ◌&&◌, ◌||◌, not, Option, none, some, List, [], ◌∷◌, map, Text, text,
  strip, is_empty, if◌then◌else◌, ltb, leb, ◌==◌, nat_eq, list_eq, filter, dedupe, contains, Result,
  ok, raise, ◌>>=◌, sort,
}
use runlet.Scheduling.Clock.{DateTime, to_utc, minute_key}
use runlet.Scheduling.Cron.{cron_matches}
use runlet.Scheduling.Jobs.Rows.{active, paused, is_active, is_paused, PublishedJob, JobRun, Db}
use runlet.Scheduling.Jobs.Trigger.{trigger}

-- The ValueError of an empty text, PublishedJobNotFoundError for a job and for a script render, and
-- InvalidPublishedJobScheduleError. The database's error for a second job with one key is left out.
pub data ServiceError : Type 0 where
  empty_value : ServiceError
  job_not_found : ℕ → ServiceError
  render_not_found : ℕ → ServiceError
  invalid_schedule : Text → ServiceError

unfoldable pub validate_required_text : Text → Result ServiceError Text
validate_required_text value =
    if is_empty (strip value) then raise empty_value else ok (strip value)

unfoldable pub get_job : ℕ → List PublishedJob → Option PublishedJob
get_job id [] = none
get_job id (job ∷ rest) = if job.id == id then some job else get_job id rest

-- ORDER BY scheduled_at DESC, id DESC: the run that comes first.
abbrev pub is_later : JobRun → JobRun → Bool
is_later a b =
    ltb (to_utc b.scheduled_at) (to_utc a.scheduled_at)
    || to_utc a.scheduled_at == to_utc b.scheduled_at && ltb b.id a.id

unfoldable pub latest_of : JobRun → List JobRun → JobRun
latest_of best [] = best
latest_of best (run ∷ runs) = latest_of (if is_later run best then run else best) runs

abbrev pub latest : List JobRun → Option JobRun
latest [] = none
latest (run ∷ runs) = some (latest_of run runs)

abbrev pub runs_of : Db → ℕ → List JobRun
runs_of db published_job_id = filter (λ run. run.published_job_id == published_job_id) db.job_runs

abbrev pub same_minute : Option JobRun → DateTime → Bool
same_minute none at = false
same_minute (some run) at = minute_key run.scheduled_at == minute_key at

unfoldable pub already_triggered_for_minute : Db → ℕ → DateTime → Bool
unfolding latest_of minute_key
already_triggered_for_minute db published_job_id at =
    same_minute (latest (runs_of db published_job_id)) at

abbrev pub scheduled : Db → DateTime → ℕ → ℕ → Option PublishedJob → Bool × Db
scheduled db at run_id queued_id none = (false, db)
scheduled db at run_id queued_id (some job) =
    if not (is_active job.state)
    then (false, db)
    else if not (cron_matches job.schedule_expr at)
    then (false, db)
    else if already_triggered_for_minute db job.id at
    then (false, db)
    else (true, trigger db job (text "scheduler") at run_id queued_id)

unfoldable pub trigger_scheduled_job : Db → ℕ → DateTime → ℕ → ℕ → Bool × Db
unfolding get_job already_triggered_for_minute cron_matches trigger
trigger_scheduled_job db published_job_id at run_id queued_id =
    scheduled db at run_id queued_id (get_job published_job_id db.published_jobs)

abbrev pub triggered :
    Db → ℕ → Text → DateTime → ℕ → ℕ → Option PublishedJob → Result ServiceError Db
triggered db id source now run_id queued_id none = raise (job_not_found id)
triggered db id source now run_id queued_id (some job) =
    ok (trigger db job source now run_id queued_id)

-- A manual trigger, at the time of the call.
unfoldable pub trigger_published_job : Db → ℕ → Text → DateTime → ℕ → ℕ → Result ServiceError Db
unfolding get_job trigger
trigger_published_job db id source now run_id queued_id =
    triggered db id source now run_id queued_id (get_job id db.published_jobs)

unfoldable pub list_published_job_runs : Db → ℕ → Result ServiceError (List JobRun)
unfolding get_job
list_published_job_runs db id = elim (get_job id db.published_jobs) [
  | none ↦ raise (job_not_found id)
  | some job ↦ ok (sort is_later (runs_of db id))
]

-- A write of a row sets updated_at too; `now` gives the time at which the row of an id is written.
abbrev pub pause_job : Text → ℕ → (ℕ → ℕ) → PublishedJob → PublishedJob
pause_job reason snapshot_id now job = record job {
  state = paused;
  pause_reason = some reason;
  paused_by_snapshot_id = some snapshot_id;
  paused_by_page_check_id = some job.page_check_id;
  updated_at = now job.id;
}

abbrev pub resume_job : (ℕ → ℕ) → PublishedJob → PublishedJob
resume_job now job = record job {
  state = active;
  pause_reason = none;
  paused_by_snapshot_id = none;
  paused_by_asset_id = none;
  paused_by_page_check_id = none;
  updated_at = now job.id;
}

-- The rows that a test selects are changed in place, and counted.
unfoldable pub update_jobs :
    (PublishedJob → Bool)
    → (PublishedJob → PublishedJob)
    → List PublishedJob
    → ℕ × List PublishedJob
update_jobs selected change [] = (0, [])
update_jobs selected change (job ∷ rest) =
    let (n, rest') = update_jobs selected change rest in
    if selected job then (n + 1, change job ∷ rest') else (n, job ∷ rest')

abbrev pub with_jobs : Db → ℕ × List PublishedJob → ℕ × Db
with_jobs db (n, jobs) = (n, record db { published_jobs = jobs })

unfoldable pub pause_published_jobs_by_ids :
    Db → List ℕ → ℕ → Text → (ℕ → ℕ) → Result ServiceError (ℕ × Db)
unfolding validate_required_text update_jobs
pause_published_jobs_by_ids db ids snapshot_id reason now = do
  normalized_reason ← validate_required_text reason
  ok (
      if is_empty (dedupe ids)
      then (0, db)
      else with_jobs db (
          update_jobs (λ job. contains job.id (dedupe ids) && is_active job.state)
            (pause_job normalized_reason snapshot_id now) db.published_jobs))

unfoldable pub pause_jobs_for_retired_page_check :
    Db → ℕ → ℕ → Text → (ℕ → ℕ) → Result ServiceError (ℕ × Db)
unfolding pause_published_jobs_by_ids
pause_jobs_for_retired_page_check db page_check_id snapshot_id reason now =
    pause_published_jobs_by_ids db
      (map (λ job. job.id)
        (sort (λ a b. leb a.id b.id)
          (filter (λ job. job.page_check_id == page_check_id && is_active job.state)
            db.published_jobs)))
      snapshot_id reason now

unfoldable pub resume_published_jobs_by_ids : Db → List ℕ → (ℕ → ℕ) → ℕ × Db
unfolding update_jobs
resume_published_jobs_by_ids db ids now =
    if is_empty (dedupe ids)
    then (0, db)
    else with_jobs db (
        update_jobs (λ job. contains job.id (dedupe ids) && is_paused job.state) (resume_job now)
          db.published_jobs)
