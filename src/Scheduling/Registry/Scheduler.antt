-- ===== src/Scheduling/Registry/Scheduler.antt =====
-- What the registry uses of APScheduler, as an interface with the documented behaviour.
use runlet.Prelude.{
  Bool, Option, none, some, ◌≡◌, Text, Value, if◌then◌else◌, ◌==◌, nat_eq, list_eq,
}

-- A job of the scheduler: its trigger, by the crontab expression and the time zone that it was made
-- from, and its keyword arguments.
pub record ScheduledJob : Type 0 where
  pub schedule_expr : Text
  pub timezone : Text
  pub kwargs : Value

-- add_job replaces a job of the same id (replace_existing=True); remove_job raises JobLookupError
-- for an id that is not there; CronTrigger.from_crontab raises ValueError for some texts.
pub record Scheduler (S : Type 0) : Type 0 where
  pub accepts_crontab : Text → Text → Bool
  pub add_job : Text → ScheduledJob → S → S
  pub remove_job : Text → S → Option S
  pub get_job : Text → S → Option ScheduledJob
  pub get_job-add_job :
      (id j : Text) (job : ScheduledJob) (s : S)
      → get_job j (add_job id job s) ≡ (if id == j then some job else get_job j s)
  pub get_job-remove_job :
      (id j : Text) (s s' : S)
      → remove_job id s ≡ some s'
      → get_job j s' ≡ (if id == j then none else get_job j s)
  pub remove_job_absent : (id : Text) (s : S) → remove_job id s ≡ none → get_job id s ≡ none
