-- ===== src/Scheduling/Runtime/Lifecycle.antt =====
-- SchedulerRuntime.start, stop and reload_all. What they ask of APScheduler besides its jobs is an
-- interface without laws.
use runlet.Prelude.{Bool, true, if◌then◌else◌, Result, ok, raise, ◌>>=◌}
use runlet.Scheduling.Policies.{Tables}
use runlet.Scheduling.Registry.Scheduler.{Scheduler}
use runlet.Scheduling.Registry.Upsert.{CrontabError, load_all_from_db}

pub record SchedulerControl (S : Type 0) : Type 0 where
  pub is_running : S → Bool
  pub start : S → S
  pub resume : S → S
  pub shutdown : S → S
  pub add_listener : S → S

pub record RuntimeState (S : Type 0) : Type 0 where
  pub scheduler : S
  pub listener_registered : Bool

module _ {S : Type 0} (jobs : Scheduler S) (control : SchedulerControl S) where
  abbrev pub reloaded :
      RuntimeState S
      → Result (CrontabError × S) S
      → Result (CrontabError × RuntimeState S) (RuntimeState S)
  reloaded r (ok s) = ok (record r { scheduler = s })
  reloaded r (raise (e, s)) = raise (e, record r { scheduler = s })

  unfoldable pub reload_all :
      Tables → RuntimeState S → Result (CrontabError × RuntimeState S) (RuntimeState S)
  unfolding load_all_from_db
  reload_all t r = reloaded r (load_all_from_db jobs t r.scheduler)

  unfoldable pub ensure_job_listener : RuntimeState S → RuntimeState S
  ensure_job_listener r =
      if r.listener_registered
      then r
      else record { scheduler = control.add_listener r.scheduler; listener_registered = true }

  abbrev pub wake : RuntimeState S → RuntimeState S
  wake r =
      if control.is_running r.scheduler
      then record r { scheduler = control.resume r.scheduler }
      else record r { scheduler = control.start r.scheduler }

  unfoldable pub start :
      Tables → RuntimeState S → Result (CrontabError × RuntimeState S) (RuntimeState S)
  unfolding reload_all ensure_job_listener
  start t r = do r ← reload_all t r; ok (wake (ensure_job_listener r))

  unfoldable pub stop : RuntimeState S → RuntimeState S
  stop r =
      if control.is_running r.scheduler
      then record r { scheduler = control.shutdown r.scheduler }
      else r
