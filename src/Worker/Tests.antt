-- ===== src/Worker/Tests.antt =====
-- A queue with a crawl, which adds a compilation, and a job of no known type.
use runlet.Prelude.{
  ℕ, ◌+◌, ◌<◌, ◌≤◌, ◌++◌, if◌then◌else◌, ◌≡◌, ◌&&◌, not, refl, true, false, none, List, [], ◌∷◌,
  any, ltb, Dict, text, Text, list_eq, nat_eq, ◌==◌,
}
use runlet.Scheduling.Jobs.Rows.{accepted, completed}
use runlet.Worker.Runner.{QueuedJob, is_accepted, JobHandler, next_accepted_job, update_row}
use runlet.Worker.Oldest.{next_accepted_job-oldest}

abbrev waiting : ℕ → Text → ℕ → QueuedJob
waiting id job_type created_at = record {
  id = id;
  job_type = job_type;
  status = accepted;
  created_at = created_at;
  started_at = none;
  finished_at = none;
  failure_message = none;
}

abbrev queue : List QueuedJob
queue = waiting 1 (text "crawl") 20 ∷ waiting 2 (text "other") 10 ∷ []

abbrev complete : QueuedJob → QueuedJob
complete job = record job { status = completed }

-- Like the handler of crawls, it adds a job to compile what was crawled.
abbrev crawl_handler : JobHandler
crawl_handler jobs id =
    (none, update_row id complete jobs ++ waiting (id + 100) (text "asset_compile") 30 ∷ [])

abbrev compile_handler : JobHandler
compile_handler jobs id = (none, update_row id complete jobs)

abbrev handlers : Dict Text JobHandler
handlers = (text "crawl", crawl_handler) ∷ (text "asset_compile", compile_handler) ∷ []

-- A crawl weighs more than the compilation that it adds.
abbrev weight : Text → ℕ
weight job_type = if text "crawl" == job_type then 2 else 1

next_accepted_job-oldest_example :
    (any (λ other. other.id == 2 && is_accepted other.status) queue ≡ true)
    × (any (λ other. is_accepted other.status && ltb other.created_at 10) queue ≡ false)
    × (any (λ other. is_accepted other.status && other.created_at == 10 && ltb other.id 2) queue
        ≡ false)
unfolding next_accepted_job
next_accepted_job-oldest_example =
    next_accepted_job-oldest queue {job = waiting 2 (text "other") 10} refl
