-- ===== src/Worker/Runner.antt =====
-- WorkerRunner of workers/runner.py. The handlers are an argument, as they are in the code: a handler
-- gives the message of the exception that it raised, if any, and the queue after its work.
use runlet.Prelude.{
  ℕ, zero, suc, Bool, true, false, ◌&&◌, ◌||◌, not, Option, none, some, List, [], ◌∷◌, ◌++◌, Text,
  text, if◌then◌else◌, ltb, ◌==◌, nat_eq, list_eq, filter, first, sort, get_or, Dict, lookup,
}
use runlet.Scheduling.Jobs.Rows.{QueuedJobStatus, accepted, failed, skipped}

-- The columns of QueuedJob that the worker reads and writes.
pub record QueuedJob : Type 0 where
  pub id : ℕ
  pub job_type : Text
  pub status : QueuedJobStatus
  pub created_at : ℕ
  pub started_at : Option ℕ
  pub finished_at : Option ℕ
  pub failure_message : Option Text

abbrev pub is_accepted : QueuedJobStatus → Bool
is_accepted accepted = true
is_accepted _ = false

abbrev pub JobHandler : Type 0
JobHandler = List QueuedJob → ℕ → Option Text × List QueuedJob

-- ORDER BY created_at, id
abbrev pub oldest_first : QueuedJob → QueuedJob → Bool
oldest_first a b =
    ltb a.created_at b.created_at || a.created_at == b.created_at && not (ltb b.id a.id)

unfoldable pub next_accepted_job : List QueuedJob → Option QueuedJob
unfolding filter sort
next_accepted_job jobs = first (sort oldest_first (filter (λ job. is_accepted job.status) jobs))

-- The rows with the id are changed.
unfoldable pub update_row : ℕ → (QueuedJob → QueuedJob) → List QueuedJob → List QueuedJob
update_row id change [] = []
update_row id change (job ∷ rest) =
    (if job.id == id then change job else job) ∷ update_row id change rest

-- What the worker writes of a job that it gives up.
abbrev pub give_up : QueuedJobStatus → ℕ → Text → QueuedJob → QueuedJob
give_up status now message job = record job {
  status = status;
  started_at = some (get_or now job.started_at);
  finished_at = some now;
  failure_message = some message;
}

abbrev pub settled : ℕ → ℕ → Option Text × List QueuedJob → List QueuedJob
settled id now (none, jobs) = jobs
settled id now (some message, jobs) =
    update_row id (give_up failed now (text "handler crashed: " ++ message)) jobs

abbrev pub run_job : Option JobHandler → ℕ → List QueuedJob → QueuedJob → List QueuedJob
run_job none now jobs job =
    update_row job.id
      (give_up skipped now (text "no handler registered for job type: " ++ job.job_type)) jobs
run_job (some handler) now jobs job = settled job.id now (handler jobs job.id)

abbrev pub run_claimed :
    Dict Text JobHandler → ℕ → List QueuedJob → Option QueuedJob → Bool × List QueuedJob
run_claimed handlers now jobs none = (false, jobs)
run_claimed handlers now jobs (some job) =
    (true, run_job (lookup job.job_type handlers) now jobs job)

unfoldable pub run_once : Dict Text JobHandler → ℕ → List QueuedJob → Bool × List QueuedJob
unfolding next_accepted_job update_row lookup
run_once handlers now jobs = run_claimed handlers now jobs (next_accepted_job jobs)

-- The rounds of run_forever up to the first one that finds no job, at the times of a clock.
unfoldable pub run_until_idle : ℕ → Dict Text JobHandler → (ℕ → ℕ) → List QueuedJob → List QueuedJob
unfolding run_once
run_until_idle zero handlers clock jobs = jobs
run_until_idle (suc rounds) handlers clock jobs =
    let (handled, jobs') = run_once handlers (clock rounds) jobs in
    let rest = run_until_idle rounds handlers clock jobs' in if handled then rest else jobs
