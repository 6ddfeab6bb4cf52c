-- ===== src/Scheduling/Jobs/Once.antt =====
-- A scheduled job runs once in a minute.
use mathlib.Core.Path.{subst}
use native.Mathlib.Nat.{le_trans, le_antisymm, le_of_eq}
use runlet.Prelude.{
  ℕ, ◌/◌, ◌≤◌, true, false, ◌≡◌, refl, sym, ap, ◌∙◌, Option, none, some, List, [], ◌∷◌, ◌++◌, text,
  if◌then◌else◌, ◌==◌, nat_eq, nat_beq_iff, beq_refl, filter, filter-append, All, All-append, arith,
}
use runlet.Scheduling.Clock.{DateTime, to_utc, minute_key, microseconds_per_minute}
use runlet.Scheduling.Jobs.Rows.{PublishedJob, JobRun, Db}
use runlet.Scheduling.Jobs.Trigger.{trigger, new_run, enqueue}
use runlet.Scheduling.Jobs.Service.{
  get_job, is_later, latest_of, latest, runs_of, same_minute, already_triggered_for_minute,
  scheduled, trigger_scheduled_job,
}

-- The run is not later than the time.
abbrev pub NotAfter : DateTime → JobRun → Type 0
NotAfter at run = to_utc run.scheduled_at ≤ to_utc at

abbrev later : JobRun → JobRun → JobRun
later run best = if is_later run best then run else best

later-ge :
    (run best : JobRun)
    → (to_utc run.scheduled_at ≤ to_utc (later run best).scheduled_at)
      × (to_utc best.scheduled_at ≤ to_utc (later run best).scheduled_at)
later-ge run best = (ground arith, ground arith)

later-NotAfter :
    (at : DateTime) (run best : JobRun)
    → NotAfter at run
    → NotAfter at best
    → NotAfter at (later run best)
later-NotAfter at run best h k = ground arith

latest_of-NotAfter :
    (at : DateTime) (best : JobRun) (runs : List JobRun)
    → NotAfter at best
    → All (NotAfter at) runs
    → NotAfter at (latest_of best runs)
unfolding latest_of
latest_of-NotAfter at best [] h k = h
latest_of-NotAfter at best (run ∷ runs) h k =
    latest_of-NotAfter at (later run best) runs (later-NotAfter at run best k.0 h) k.1

le-last :
    (best last : JobRun) (runs : List JobRun)
    → to_utc last.scheduled_at ≤ to_utc (latest_of best (runs ++ last ∷ [])).scheduled_at
unfolding latest_of
le-last best last [] = (later-ge last best).0
le-last best last (run ∷ runs) = le-last (later run best) last runs

-- With one more run at the time, and none after it, the latest run is of its minute.
latest_is_same_minute :
    (at at' : DateTime) (runs : List JobRun) (last : JobRun)
    → All (NotAfter at) runs
    → last.scheduled_at ≡ at
    → minute_key at' ≡ minute_key at
    → same_minute (latest (runs ++ last ∷ [])) at' ≡ true
unfolding minute_key latest_of
latest_is_same_minute at at' [] last h e k = (nat_beq_iff _ _).1 (ap minute_key e ∙ sym k)
latest_is_same_minute at at' (run ∷ runs) last h e k =
    let found = latest_of run (runs ++ last ∷ []) in
    let upper : to_utc found.scheduled_at ≤ to_utc at =
      latest_of-NotAfter at run (runs ++ last ∷ []) h.0
        (All-append (NotAfter at) runs (last ∷ []) h.1 (le_of_eq (ap to_utc e), tt)) in
    let lower : to_utc at ≤ to_utc found.scheduled_at =
      le_trans (le_of_eq (ap to_utc (sym e))) (le-last run last runs) in
    (nat_beq_iff _ _).1 (ap (λ n. n / microseconds_per_minute) (le_antisymm upper lower) ∙ sym k)

get_job-id :
    (id : ℕ) (jobs : List PublishedJob) {job : PublishedJob}
    → get_job id jobs ≡ some job
    → job.id ≡ id
unfolding get_job
get_job-id id [] h = cc
get_job-id id (j ∷ jobs) {job} h = ground (arith, get_job-id id jobs {job = job})

trigger-runs :
    (db : Db) (job : PublishedJob) (at : DateTime) (run_id queued_id : ℕ)
    → runs_of (trigger db job (text "scheduler") at run_id queued_id) job.id
      ≡ runs_of db job.id ++ new_run job (text "scheduler") at run_id queued_id ∷ []
unfolding trigger enqueue new_run filter
trigger-runs db job at run_id queued_id =
    filter-append (λ run. run.published_job_id == job.id) db.job_runs
      (new_run job (text "scheduler") at run_id queued_id ∷ [])
    ∙ rw (beq_refl job.id)

trigger-published_jobs :
    (db : Db) (job : PublishedJob) (at : DateTime) (run_id queued_id : ℕ)
    → (trigger db job (text "scheduler") at run_id queued_id).published_jobs ≡ db.published_jobs
unfolding trigger enqueue
trigger-published_jobs db job at run_id queued_id = refl

scheduled_fired :
    (db : Db) (at : DateTime) (run_id queued_id : ℕ) (job : PublishedJob) {db' : Db}
    → scheduled db at run_id queued_id (some job) ≡ (true, db')
    → trigger db job (text "scheduler") at run_id queued_id ≡ db'
scheduled_fired db at run_id queued_id job h = ground arith

scheduled_again :
    (db : Db) (at : DateTime) (run_id queued_id : ℕ) (job : PublishedJob)
    → already_triggered_for_minute db job.id at ≡ true
    → scheduled db at run_id queued_id (some job) ≡ (false, db)
scheduled_again db at run_id queued_id job h = ground arith

-- If a scheduled job was triggered at a time before which no run of it lies later, then a call for
-- any time in the same minute triggers nothing and changes nothing.
pub trigger_scheduled_job-once :
    (db : Db) (id : ℕ) (at at' : DateTime) (run_id queued_id run_id' queued_id' : ℕ) {db' : Db}
    → All (NotAfter at) (runs_of db id)
    → trigger_scheduled_job db id at run_id queued_id ≡ (true, db')
    → minute_key at' ≡ minute_key at
    → trigger_scheduled_job db' id at' run_id' queued_id' ≡ (false, db')
unfolding trigger_scheduled_job
trigger_scheduled_job-once db id at at' run_id queued_id run_id' queued_id' {db'} h fired k =
    go (get_job id db.published_jobs) refl
  where
    after : PublishedJob → Db
    after job = trigger db job (text "scheduler") at run_id queued_id

    seen :
        (job : PublishedJob)
        → job.id ≡ id
        → already_triggered_for_minute (after job) job.id at' ≡ true
    seen job own =
        unfold already_triggered_for_minute new_run in
        rw (trigger-runs db job at run_id queued_id) (
          latest_is_same_minute at at' (runs_of db job.id) _
            (subst (λ (n : ℕ). All (NotAfter at) (runs_of db n)) (sym own) h) refl k)

    go :
        (o : Option PublishedJob)
        → get_job id db.published_jobs ≡ o
        → trigger_scheduled_job db' id at' run_id' queued_id' ≡ (false, db')
    go none e = absurd (ground (arith, e))
    go (some job) e =
        let done : after job ≡ db' = scheduled_fired db at run_id queued_id job (rw e at fired) in
        rw (← done) (
          rw (trigger-published_jobs db job at run_id queued_id, e)
            (scheduled_again (after job) at' run_id' queued_id' job
              (seen job (get_job-id id db.published_jobs e))))
