-- ===== src/Worker/Drain.antt =====
-- That a worker gets through its queue, with the jobs that its handlers add.

use runlet.Prelude.{
  ℕ, ◌+◌, ◌≤◌, ◌<◌, true, false, ◌&&◌, ◌≡◌, none, some, List, [], ◌∷◌, ◌++◌, Text, if◌then◌else◌,
  ◌==◌, nat_eq, list_eq, any, Dict, lookup,
}
use runlet.Worker.Runner.{QueuedJob, is_accepted, JobHandler, update_row}

-- The sum of the weights of the accepted jobs, by their types.
unfoldable pub load : (Text → ℕ) → List QueuedJob → ℕ
load weight [] = 0
load weight (job ∷ rest) =
    (if is_accepted job.status then weight job.job_type else 0) + load weight rest

abbrev pub KeepsId : (QueuedJob → QueuedJob) → Type 0
KeepsId change = (job : QueuedJob) → (change job).id ≡ job.id

-- The handler of a type of jobs changes no row but that of its job, whose id it keeps, and adds jobs
-- that weigh less together than one of the type; if it returns, the job waits no more.
pub record IsHandler (weight : Text → ℕ) (job_type : Text) (handler : JobHandler) : Type 0 where
  pub change : List QueuedJob → ℕ → QueuedJob → QueuedJob
  pub added : List QueuedJob → ℕ → List QueuedJob
  pub keeps_id : (jobs : List QueuedJob) (id : ℕ) → KeepsId (change jobs id)
  pub own_row :
      (jobs : List QueuedJob) (id : ℕ)
      → (handler jobs id).1 ≡ update_row id (change jobs id) jobs ++ added jobs id
  pub lighter : (jobs : List QueuedJob) (id : ℕ) → load weight (added jobs id) < weight job_type
  pub ends :
      (jobs : List QueuedJob) (id : ℕ) (job : QueuedJob)
      → (handler jobs id).0 ≡ none
      → is_accepted (change jobs id job).status ≡ false

module _ (weight : Text → ℕ) where
  -- The row of an accepted job of the type is changed.
  abbrev Waits : Text → ℕ → List QueuedJob → Type 0
  Waits job_type id jobs =
      any (λ other. (other.id == id && other.job_type == job_type) && is_accepted other.status) jobs
      ≡ true

  abbrev pub AreHandlers : Dict Text JobHandler → Type 0
  AreHandlers handlers =
      (job_type : Text) (handler : JobHandler)
      → lookup job_type handlers ≡ some handler
      → IsHandler weight job_type handler

  abbrev pub IsPositive : Type 0
  IsPositive = (job_type : Text) → 1 ≤ weight job_type
