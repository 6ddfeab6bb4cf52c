-- ===== src/Scheduling/Runtime/Callbacks.antt =====
-- What SchedulerRuntime does when the scheduler reports that a job was run.
use runlet.Prelude.{
  ℕ, Bool, true, false, Option, none, some, [], ◌∷◌, Text, text, if◌then◌else◌, nat_beq, ◌==◌,
  nat_eq, list_eq, Value, Result, ok,
}
use runlet.Prelude.Values.{str, field_of}
use runlet.Scheduling.Clock.{DateTime}
use runlet.Scheduling.Policies.{Tables}
use runlet.Scheduling.Registry.Scheduler.{ScheduledJob, Scheduler}
use runlet.Scheduling.Runtime.Trigger.{
  UuidError, normalize_time, trigger_published_job_now, trigger_auth_policy_now,
  trigger_crawl_policy_now,
}

-- job_id.split(":", 1), if there is a colon.
unfoldable pub split_colon : Text → Option (Text × Text)
split_colon [] = none
split_colon (c ∷ s) = if nat_beq c b':' then some ([], s) else prepend c (split_colon s)
  where
    prepend : ℕ → Option (Text × Text) → Option (Text × Text)
    prepend c none = none
    prepend c (some (a, b)) = some (c ∷ a, b)

abbrev pub both_texts : Value → Value → Option (Text × Text)
both_texts (str kind) (str entity_id) = some (kind, entity_id)
both_texts _ _ = none

-- The kind and the entity that the job was added with.
abbrev pub target_of_job : Option ScheduledJob → Option (Text × Text)
target_of_job none = none
target_of_job (some job) =
    both_texts (field_of (text "kind") job.kwargs) (field_of (text "entity_id") job.kwargs)

-- The keys of kind_map, each of which stands for itself.
abbrev pub known_kind : Text → Bool
known_kind kind_prefix =
    if kind_prefix == text "published_job"
    then true
    else if kind_prefix == text "auth_policy"
    then true
    else kind_prefix == text "crawl_policy"

abbrev pub target_of_id : Option (Text × Text) → Option (Text × Text)
target_of_id none = none
target_of_id (some (kind_prefix, entity_id)) =
    if known_kind kind_prefix then some (kind_prefix, entity_id) else none

abbrev pub first_target : Option (Text × Text) → Text → Option (Text × Text)
unfolding split_colon
first_target none job_id = target_of_id (split_colon job_id)
first_target (some target) job_id = some target

unfoldable pub dispatch_callback :
    Tables → Text → Text → DateTime → ℕ → ℕ → Result UuidError (Bool × Tables)
unfolding trigger_published_job_now trigger_auth_policy_now trigger_crawl_policy_now
dispatch_callback t kind entity_id fire_time run_id queued_id =
    if kind == text "published_job"
    then trigger_published_job_now t entity_id fire_time run_id queued_id
    else if kind == text "auth_policy"
    then trigger_auth_policy_now t entity_id fire_time queued_id
    else if kind == text "crawl_policy"
    then trigger_crawl_policy_now t entity_id fire_time queued_id
    else ok (false, t)

abbrev pub dispatch_target :
    Tables → DateTime → ℕ → ℕ → Option (Text × Text) → Result UuidError (Bool × Tables)
unfolding dispatch_callback normalize_time
dispatch_target t at run_id queued_id none = ok (false, t)
dispatch_target t at run_id queued_id (some (kind, entity_id)) =
    dispatch_callback t kind entity_id (normalize_time at) run_id queued_id

module _ {S : Type 0} (scheduler : Scheduler S) where
  unfoldable pub resolve_callback_target : S → Text → Option (Text × Text)
  unfolding split_colon
  resolve_callback_target s job_id =
      first_target (target_of_job (scheduler.get_job job_id s)) job_id

  -- A JobExecutionEvent gives the id of the job and the time that it was due at. The Boolean says
  -- whether something was triggered.
  unfoldable pub on_scheduler_job_event :
      S → Tables → Text → DateTime → ℕ → ℕ → Result UuidError (Bool × Tables)
  unfolding resolve_callback_target dispatch_callback normalize_time
  on_scheduler_job_event s t job_id scheduled_run_time run_id queued_id =
      dispatch_target t scheduled_run_time run_id queued_id (resolve_callback_target s job_id)
