-- ===== src/RunCheck/Settled.antt =====
-- Every job that the handler is called for ends, and its run with it.
use runlet.Prelude.{
  ℕ, Bool, true, false, ◌≡◌, refl, ap, ◌∙◌, Option, none, some, List, [], ◌∷◌, Text, text, nat_eq,
  list_eq, arith,
}
use runlet.Scheduling.Jobs.Rows.{QueuedJobStatus, completed, failed, skipped}
use runlet.Scheduling.Policies.{find_row}
use runlet.RunCheck.Rows.{RetryPayload, QueuedJob, JobRun, Tables, RunResult}
use runlet.RunCheck.Admission.{Admitted, is_given}
use runlet.RunCheck.Marks.{
  change_row, change_job, change_run, closed_job, closed_run, completed_job, completed_run,
  started_job, started_run, mark_failed, mark_skipped, mark_running, mark_completed,
}
use runlet.RunCheck.Handler.{run}

abbrev pub is_final : QueuedJobStatus → Bool
is_final completed = true
is_final failed = true
is_final skipped = true
is_final _ = false

pub find_row-change_row :
    {A : Type 0} (id_of : A → ℕ) (id : ℕ) (change : A → A) (rows : List A) (row : A)
    → ((r : A) → id_of (change r) ≡ id_of r)
    → find_row id_of id rows ≡ some row
    → find_row id_of id (change_row id_of id change rows) ≡ some (change row)
unfolding find_row change_row
find_row-change_row id_of id change [] row keep e = absurd (ground (arith, e))
find_row-change_row id_of id change (r ∷ rows) row keep e =
    ground (arith, keep r, find_row-change_row id_of id change rows row keep)

abbrev pub job_id : QueuedJob → ℕ
job_id j = j.id

abbrev pub run_id : JobRun → ℕ
run_id r = r.id

-- The row of the run that goes with the job: found before, it is found with this status.
abbrev pub RunEnds : QueuedJobStatus → Option JobRun → Tables → Tables → Type 0
RunEnds status none t t' = Unit
RunEnds status (some linked) t t' =
    (r : JobRun)
    → find_row run_id linked.id t.job_runs ≡ some r
    → (r' : JobRun) × (find_row run_id linked.id t'.job_runs ≡ some r')
      × (r'.run_status ≡ status)
      × (is_given r'.finished_at ≡ true)

-- The job is found with a final status and the time of its end, and its run with the same status.
abbrev pub Ends : ℕ → Option JobRun → Tables → Tables → Type 0
Ends id linked t t' =
    (job' : QueuedJob) × (find_row job_id id t'.queued_jobs ≡ some job')
    × (is_final job'.status ≡ true)
    × (is_given job'.finished_at ≡ true)
    × RunEnds job'.status linked t t'

queued_jobs-change_run :
    (linked : Option JobRun) (g : JobRun → JobRun) (t : Tables)
    → (change_run linked g t).queued_jobs ≡ t.queued_jobs
unfolding change_run
queued_jobs-change_run none g t = refl
queued_jobs-change_run (some r) g t = refl

RunEnds-change_run :
    (status : QueuedJobStatus) (linked : Option JobRun) (g : JobRun → JobRun) (id : ℕ)
    (f : QueuedJob → QueuedJob) (t : Tables)
    → ((r : JobRun)
        → ((g r).id ≡ r.id) × ((g r).run_status ≡ status) × (is_given (g r).finished_at ≡ true))
    → RunEnds status linked t (change_run linked g (change_job id f t))
unfolding change_run change_job
RunEnds-change_run status none g id f t hg = tt
RunEnds-change_run status (some l) g id f t hg = λ r e.
    (g r, find_row-change_row run_id l.id g t.job_runs r (λ q. (hg q).0) e, (hg r).1, (hg r).2)

change-Ends :
    (id : ℕ) (linked : Option JobRun) (status : QueuedJobStatus) (f : QueuedJob → QueuedJob)
    (g : JobRun → JobRun) (t : Tables) (job : QueuedJob)
    → find_row job_id id t.queued_jobs ≡ some job
    → is_final status ≡ true
    → ((j : QueuedJob)
        → ((f j).id ≡ j.id) × ((f j).status ≡ status) × (is_given (f j).finished_at ≡ true))
    → ((r : JobRun)
        → ((g r).id ≡ r.id) × ((g r).run_status ≡ status) × (is_given (g r).finished_at ≡ true))
    → Ends id linked t (change_run linked g (change_job id f t))
unfolding change_run change_job
change-Ends id linked status f g t job e final hf hg = (
  f job,
  ap (find_row job_id id) (queued_jobs-change_run linked g (change_job id f t))
      ∙ find_row-change_row job_id id f t.queued_jobs job (λ j. (hf j).0) e,
  rw (hf job).1 final,
  (hf job).2,
  rw (hf job).1 (RunEnds-change_run status linked g id f t hg),
)

pub find_row-mark_running :
    (id now : ℕ) (linked : Option JobRun) (t : Tables) (job : QueuedJob)
    → find_row job_id id t.queued_jobs ≡ some job
    → find_row job_id id (mark_running id now linked t).queued_jobs ≡ some (started_job now job)
unfolding mark_running change_job
find_row-mark_running id now linked t job e =
    ap (find_row job_id id)
      (queued_jobs-change_run linked (started_run now) (change_job id (started_job now) t))
    ∙ find_row-change_row job_id id (started_job now) t.queued_jobs job (λ j. refl) e

RunEnds-mark_running :
    (status : QueuedJobStatus) (linked : Option JobRun) (id now : ℕ) (t t' : Tables)
    → RunEnds status linked (mark_running id now linked t) t'
    → RunEnds status linked t t'
unfolding mark_running change_run change_job
RunEnds-mark_running status none id now t t' h = tt
RunEnds-mark_running status (some l) id now t t' h = λ r e.
    h (started_run now r)
      (find_row-change_row run_id l.id (started_run now) t.job_runs r (λ q. refl) e)

pub Ends-mark_running :
    (id now : ℕ) (linked : Option JobRun) (t t' : Tables)
    → Ends id linked (mark_running id now linked t) t'
    → Ends id linked t t'
Ends-mark_running id now linked t t' (job', found, final, given, run) =
    (job', found, final, given, RunEnds-mark_running job'.status linked id now t t' run)

pub mark_failed-Ends :
    (id now : ℕ) (message : Text) (linked : Option JobRun) (retry : Option RetryPayload)
    (t : Tables) (job : QueuedJob)
    → find_row job_id id t.queued_jobs ≡ some job
    → Ends id linked t (mark_failed id now message linked retry t)
unfolding mark_failed
mark_failed-Ends id now message linked retry t job e =
    change-Ends id linked failed (closed_job failed (text "failed") now message retry)
      (closed_run failed now message) t job e refl (λ j. (refl, refl, refl))
      (λ r. (refl, refl, refl))

pub mark_skipped-Ends :
    (id now : ℕ) (message : Text) (linked : Option JobRun) (retry : Option RetryPayload)
    (t : Tables) (job : QueuedJob)
    → find_row job_id id t.queued_jobs ≡ some job
    → Ends id linked t (mark_skipped id now message linked retry t)
unfolding mark_skipped
mark_skipped-Ends id now message linked retry t job e =
    change-Ends id linked skipped (closed_job skipped (text "skipped") now message retry)
      (closed_run skipped now message) t job e refl (λ j. (refl, refl, refl))
      (λ r. (refl, refl, refl))

pub mark_completed-Ends :
    (id now : ℕ) (a : Admitted) (result : RunResult) (retry : Option RetryPayload) (t : Tables)
    (job : QueuedJob)
    → find_row job_id id t.queued_jobs ≡ some job
    → Ends id a.job_run t (mark_completed id now a result retry t)
unfolding mark_completed
mark_completed-Ends id now a result retry t job e =
    change-Ends id a.job_run completed (completed_job now a result retry) (completed_run now result)
      t job e refl (λ j. (refl, refl, refl)) (λ r. (refl, refl, refl))
