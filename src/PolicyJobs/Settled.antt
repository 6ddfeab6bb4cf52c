-- ===== src/PolicyJobs/Settled.antt =====
-- Both handlers return for every job that is there: the job ends, and its policy says how.
use runlet.Prelude.{
  ℕ, ◌≡◌, refl, Option, none, some, List, [], ◌∷◌, Text, text, ◌==◌, nat_eq, nat_beq_iff, list_eq,
  Value, Bool-cases, inl, inr, arith,
}
use runlet.Prelude.Values.{field_of}
use runlet.Scheduling.Clock.{DateTime}
use runlet.Scheduling.Jobs.Rows.{QueuedJobStatus, completed, failed, retryable_failed}
use runlet.Scheduling.Policies.{find_row}
use runlet.Scheduling.Runtime.Trigger.{or_else}
use runlet.RunCheck.Settled.{find_row-change_row}
use runlet.PolicyJobs.Rows.{
  QueuedJob, Policy, Tables, Readings, job_id, parse_uuid_value, by_system_id, by_policy_id,
  resolve_policy, audit, apply_queue_audit_fields,
}
use runlet.PolicyJobs.Marks.{
  change_job, change_policy, started_job, failed_policy, failed_job, mark_running, mark_failed,
}

abbrev policy_id : Policy → ℕ
policy_id p = p.id

-- A completed job has no message, and no other status is left than these three.
abbrev pub IsEnded : QueuedJobStatus → Option Text → Type 0
IsEnded completed message = message ≡ none
IsEnded failed message = Unit
IsEnded retryable_failed message = Unit
IsEnded _ message = ⊥

-- The policy says the same as the job, by its own reading of the clock.
abbrev pub Agrees : ℕ → QueuedJobStatus → Option Text → Policy → Type 0
Agrees now completed message p = (p.last_succeeded_at ≡ some now) × (p.last_failure_message ≡ none)
Agrees now _ message p = (p.last_failed_at ≡ some now) × (p.last_failure_message ≡ message)

abbrev pub Reported : ℕ → QueuedJob → Option Policy → List Policy → Type 0
Reported now job none policies = Unit
Reported now job (some p) policies =
    (p' : Policy) × (find_row policy_id p.id policies ≡ some p')
    × Agrees now job.status job.failure_message p'

abbrev pub Settles : ℕ → Option Policy → Readings → Tables → Type 0
Settles id policy now t =
    (job : QueuedJob) × (find_row job_id id t.queued_jobs ≡ some job)
    × (job.finished_at ≡ some now.finished)
    × IsEnded job.status job.failure_message
    × Reported now.reported job policy t.policies

abbrev HasPolicy : Option Policy → List Policy → Type 0
HasPolicy none policies = Unit
HasPolicy (some p) policies = (r : Policy) × (find_row policy_id p.id policies ≡ some r)

-- The job and its policy are there.
abbrev pub IsReady : ℕ → Option Policy → Tables → Type 0
IsReady id policy t =
    ((job : QueuedJob) × (find_row job_id id t.queued_jobs ≡ some job))
    × HasPolicy policy t.policies

HasPolicy-cons :
    (o : Option Policy) (p : Policy) (policies : List Policy)
    → HasPolicy o policies
    → HasPolicy o (p ∷ policies)
unfolding find_row
HasPolicy-cons none p policies h = tt
HasPolicy-cons (some q) p policies (r, found) = elim (Bool-cases (p.id == q.id)) [
  | inl e ↦ rw e (p, refl)
  | inr e ↦ rw e (r, found)
]

HasPolicy-head : (p : Policy) (policies : List Policy) → HasPolicy (some p) (p ∷ policies)
unfolding find_row
HasPolicy-head p policies = (p, ground (arith, nat_beq_iff p.id p.id))

find_row-HasPolicy :
    (column : Policy → ℕ) (k : ℕ) (policies : List Policy)
    → HasPolicy (find_row column k policies) policies
unfolding find_row
find_row-HasPolicy column k [] = tt
find_row-HasPolicy column k (p ∷ policies) = elim (Bool-cases (column p == k)) [
  | inl e ↦ rw e (HasPolicy-head p policies)
  | inr e ↦ rw e (
      HasPolicy-cons (find_row column k policies) p policies (find_row-HasPolicy column k policies))
]

HasPolicy-or_else :
    (o other : Option Policy) (policies : List Policy)
    → HasPolicy o policies
    → HasPolicy other policies
    → HasPolicy (or_else o other) policies
HasPolicy-or_else none other policies h h' = h'
HasPolicy-or_else (some p) other policies h h' = h

by_system_id-HasPolicy :
    (policies : List Policy) (id : Option ℕ) → HasPolicy (by_system_id policies id) policies
by_system_id-HasPolicy policies none = tt
by_system_id-HasPolicy policies (some id) =
    find_row-HasPolicy (λ (p : Policy). p.system_id) id policies

by_policy_id-HasPolicy :
    (policies : List Policy) (id : Option ℕ) → HasPolicy (by_policy_id policies id) policies
by_policy_id-HasPolicy policies none = tt
by_policy_id-HasPolicy policies (some id) =
    HasPolicy-or_else _ _ policies (find_row-HasPolicy policy_id id policies)
      (by_system_id-HasPolicy policies (some id))

pub resolve_policy-HasPolicy :
    (policies : List Policy) (payload : Value)
    → HasPolicy (resolve_policy policies payload) policies
unfolding resolve_policy
resolve_policy-HasPolicy policies payload =
    let policy_id = parse_uuid_value (field_of (text "policy_id") payload) in
    let system_id = parse_uuid_value (field_of (text "system_id") payload) in
    HasPolicy-or_else (by_policy_id policies policy_id) (by_system_id policies system_id) policies
      (by_policy_id-HasPolicy policies policy_id) (by_system_id-HasPolicy policies system_id)

pub change_job-IsReady :
    (id : ℕ) (policy : Option Policy) (f : QueuedJob → QueuedJob) (t : Tables)
    → ((j : QueuedJob) → (f j).id ≡ j.id)
    → IsReady id policy t
    → IsReady id policy (change_job id f t)
unfolding change_job
change_job-IsReady id policy f t keep ((job, found), h) =
    ((f job, find_row-change_row job_id id f t.queued_jobs job keep found), h)

pub change-Settles :
    (id : ℕ) (now : Readings) (policy : Option Policy) (f : QueuedJob → QueuedJob)
    (g : Policy → Policy) (t : Tables)
    → ((j : QueuedJob) → (f j).id ≡ j.id)
    → ((p : Policy) → (g p).id ≡ p.id)
    → ((j : QueuedJob)
        → ((f j).finished_at ≡ some now.finished) × IsEnded (f j).status (f j).failure_message)
    → ((j : QueuedJob) (p : Policy) → Agrees now.reported (f j).status (f j).failure_message (g p))
    → IsReady id policy t
    → Settles id policy now (change_policy policy g (change_job id f t))
unfolding change_policy change_job
change-Settles id now none f g t keep keep' ends agrees ((job, found), h) = (
  f job,
  find_row-change_row job_id id f t.queued_jobs job keep found,
  (ends job).0,
  (ends job).1,
  tt,
)
change-Settles id now (some p) f g t keep keep' ends agrees ((job, found), (r, found')) = (
  f job,
  find_row-change_row job_id id f t.queued_jobs job keep found,
  (ends job).0,
  (ends job).1,
  (g r, find_row-change_row policy_id p.id g t.policies r keep' found', agrees job r),
)

pub mark_failed-Settles :
    (id : ℕ) (now : Readings) (message : Option Text) (policy : Option Policy) (t : Tables)
    → IsReady id policy t
    → Settles id policy now (mark_failed id now message policy t)
unfolding mark_failed
mark_failed-Settles id now message policy t =
    change-Settles id now policy (failed_job now message) (failed_policy now.reported message) t
      (λ j. refl) (λ p. refl) (λ j. (refl, tt)) (λ j p. (refl, refl))

pub audit-IsReady :
    (fromisoformat : Text → Option DateTime) (id : ℕ) (policy : Option Policy) (t : Tables)
    → IsReady id policy t
    → IsReady id policy (audit fromisoformat id t)
unfolding audit apply_queue_audit_fields
audit-IsReady fromisoformat id policy t ((job, found), h) = (
  (
    apply_queue_audit_fields fromisoformat job,
    find_row-change_row job_id id (apply_queue_audit_fields fromisoformat) t.queued_jobs job
        (λ j. refl) found,
  ),
  h,
)

pub mark_running-IsReady :
    (id : ℕ) (now : Readings) (policy : Option Policy) (t : Tables)
    → IsReady id policy t
    → IsReady id policy (mark_running id now t)
unfolding mark_running
mark_running-IsReady id now policy t =
    change_job-IsReady id policy (started_job now.started) t (λ j. refl)
