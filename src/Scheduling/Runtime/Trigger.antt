-- ===== src/Scheduling/Runtime/Trigger.antt =====
-- The three triggers of SchedulerRuntime: of a published job and of the two kinds of policies. The
-- time of the call is an argument, and so are the ids of new rows. Sessions are left out.
use runlet.Prelude.{
  ℕ, Bool, true, false, ◌||◌, not, Option, none, some, List, [], ◌∷◌, ◌++◌, Text, text,
  if◌then◌else◌, ◌==◌, nat_eq, list_eq, Result, ok, raise, ◌>>=◌,
}
use runlet.Prelude.Values.{pos}
use runlet.Scheduling.Clock.{DateTime, to_utc, minute_key}
use runlet.Scheduling.Jobs.Rows.{accepted, Db}
use runlet.Scheduling.Jobs.Service.{trigger_scheduled_job}
use runlet.Scheduling.Uuids.Parse.{parse_uuid}
use runlet.Scheduling.Policies.{
  active_state, SystemAuthPolicy, SystemCrawlPolicy, PolicyPayload, PolicyJob, Tables, find_row,
}

-- _normalize_time
unfoldable pub normalize_time : DateTime → DateTime
unfolding to_utc
normalize_time value = record { wall = to_utc value; utc_offset = some (pos 0) }

-- _minute_key: datetime.min for a policy that was never triggered.
unfoldable pub policy_minute : Option DateTime → ℕ
unfolding minute_key
policy_minute none = 0
policy_minute (some value) = minute_key value

abbrev pub scheduler_source : Text
scheduler_source = text "scheduler"

-- SqlQueueDispatcher.enqueue, on a payload of a policy.
unfoldable pub enqueue : ℕ → Text → PolicyPayload → List PolicyJob → List PolicyJob
enqueue id job_type payload jobs =
    jobs
    ++ record {
      id = id;
      job_type = job_type;
      payload = payload;
      policy_id = none;
      trigger_source = none;
      scheduled_at = none;
      status = accepted;
    }
      ∷ []

-- The changes to the queued job, which is found by its id.
unfoldable pub note_policy : ℕ → ℕ → DateTime → List PolicyJob → List PolicyJob
note_policy id policy_id run_time [] = []
note_policy id policy_id run_time (job ∷ rest) =
    if job.id == id
    then record job {
      policy_id = some policy_id;
      trigger_source = some scheduler_source;
      scheduled_at = some run_time;
    }
      ∷ rest
    else job ∷ note_policy id policy_id run_time rest

unfoldable pub queue_policy : ℕ → Text → PolicyPayload → List PolicyJob → List PolicyJob
unfolding enqueue note_policy
queue_policy id job_type payload jobs =
    note_policy id payload.policy_id payload.scheduled_at (enqueue id job_type payload jobs)

abbrev pub or_else {ℓ} : {A : Type ℓ} → Option A → Option A → Option A
or_else none other = other
or_else (some a) other = some a

-- By the id of the policy, else by the id of its system.
unfoldable pub load_auth_policy : Tables → ℕ → Option SystemAuthPolicy
unfolding find_row
load_auth_policy t identifier =
    or_else (find_row (λ p. p.id) identifier t.auth_policies)
      (find_row (λ p. p.system_id) identifier t.auth_policies)

unfoldable pub load_crawl_policy : Tables → ℕ → Option SystemCrawlPolicy
unfolding find_row
load_crawl_policy t identifier =
    or_else (find_row (λ p. p.id) identifier t.crawl_policies)
      (find_row (λ p. p.system_id) identifier t.crawl_policies)

-- The row of the policy is changed in place.
unfoldable pub stamp_auth : ℕ → DateTime → List SystemAuthPolicy → List SystemAuthPolicy
stamp_auth id run_time [] = []
stamp_auth id run_time (p ∷ rest) =
    (if p.id == id then record p { last_triggered_at = some run_time } else p)
    ∷ stamp_auth id run_time rest

unfoldable pub stamp_crawl : ℕ → DateTime → List SystemCrawlPolicy → List SystemCrawlPolicy
stamp_crawl id run_time [] = []
stamp_crawl id run_time (p ∷ rest) =
    (if p.id == id then record p { last_triggered_at = some run_time } else p)
    ∷ stamp_crawl id run_time rest

abbrev pub auth_payload : SystemAuthPolicy → DateTime → PolicyPayload
auth_payload policy run_time = record {
  system_id = policy.system_id;
  crawl_scope = none;
  policy_id = policy.id;
  trigger_source = scheduler_source;
  scheduled_at = run_time;
}

abbrev pub crawl_payload : SystemCrawlPolicy → DateTime → PolicyPayload
crawl_payload policy run_time = record {
  system_id = policy.system_id;
  crawl_scope = some policy.crawl_scope;
  policy_id = policy.id;
  trigger_source = scheduler_source;
  scheduled_at = run_time;
}

abbrev pub trigger_auth : Tables → DateTime → ℕ → Option SystemAuthPolicy → Bool × Tables
trigger_auth t run_time queued_id none = (false, t)
trigger_auth t run_time queued_id (some policy) =
    if not policy.enabled || not (policy.state == active_state)
    then (false, t)
    else if policy_minute policy.last_triggered_at == policy_minute (some run_time)
    then (false, t)
    else (
      true,
      record t {
        policy_jobs =
            queue_policy queued_id (text "auth_refresh") (auth_payload policy run_time)
              t.policy_jobs;
        auth_policies = stamp_auth policy.id run_time t.auth_policies;
      },
    )

abbrev pub trigger_crawl : Tables → DateTime → ℕ → Option SystemCrawlPolicy → Bool × Tables
trigger_crawl t run_time queued_id none = (false, t)
trigger_crawl t run_time queued_id (some policy) =
    if not policy.enabled || not (policy.state == active_state)
    then (false, t)
    else if policy_minute policy.last_triggered_at == policy_minute (some run_time)
    then (false, t)
    else (
      true,
      record t {
        policy_jobs =
            queue_policy queued_id (text "crawl") (crawl_payload policy run_time) t.policy_jobs;
        crawl_policies = stamp_crawl policy.id run_time t.crawl_policies;
      },
    )

-- The ValueError of UUID(text).
pub data UuidError : Type 0 where
  badly_formed : Text → UuidError

abbrev pub or_badly_formed : Text → Option ℕ → Result UuidError ℕ
or_badly_formed s none = raise (badly_formed s)
or_badly_formed s (some id) = ok id

unfoldable pub read_uuid : Text → Result UuidError ℕ
unfolding parse_uuid
read_uuid s = or_badly_formed s (parse_uuid s)

abbrev pub with_db : Tables → Bool × Db → Bool × Tables
with_db t (fired, db) = (fired, record t { jobs = db })

unfoldable pub trigger_published_job_now :
    Tables → Text → DateTime → ℕ → ℕ → Result UuidError (Bool × Tables)
unfolding read_uuid trigger_scheduled_job normalize_time
trigger_published_job_now t published_job_id at run_id queued_id = do
  id ← read_uuid published_job_id
  ok (with_db t (trigger_scheduled_job t.jobs id (normalize_time at) run_id queued_id))

unfoldable pub trigger_auth_policy_now :
    Tables → Text → DateTime → ℕ → Result UuidError (Bool × Tables)
unfolding read_uuid load_auth_policy normalize_time queue_policy stamp_auth policy_minute
trigger_auth_policy_now t policy_id at queued_id = do
  id ← read_uuid policy_id
  ok (trigger_auth t (normalize_time at) queued_id (load_auth_policy t id))

unfoldable pub trigger_crawl_policy_now :
    Tables → Text → DateTime → ℕ → Result UuidError (Bool × Tables)
unfolding read_uuid load_crawl_policy normalize_time queue_policy stamp_crawl policy_minute
trigger_crawl_policy_now t policy_id at queued_id = do
  id ← read_uuid policy_id
  ok (trigger_crawl t (normalize_time at) queued_id (load_crawl_policy t id))
