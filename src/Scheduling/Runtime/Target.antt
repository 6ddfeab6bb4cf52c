-- ===== src/Scheduling/Runtime/Target.antt =====
-- A scheduler event reaches the row whose job was run.
use runlet.Prelude.{
  ℕ, Bool, true, false, ◌≡◌, refl, sym, ap, ◌∙◌, ◌⊎◌, inl, inr, Option, none, some, List, [], ◌∷◌,
  ◌++◌, Text, text, if◌then◌else◌, ◌==◌, nat_eq, list_eq, Result, ok, raise, ◌>>=◌, arith,
}
use runlet.Prelude.Values.{from_fields}
use runlet.Scheduling.Clock.{DateTime}
use runlet.Scheduling.Jobs.Publish.{uuid_text}
use runlet.Scheduling.Jobs.Service.{trigger_scheduled_job}
use runlet.Scheduling.Uuids.RoundTrip.{parse_uuid-uuid_text}
use runlet.Scheduling.Policies.{Tables}
use runlet.Scheduling.Registry.Scheduler.{Scheduler}
use runlet.Scheduling.Registry.Keys.{IsUuid}
use runlet.Scheduling.Registry.Upsert.{build_published_job_id, new_scheduled_job}
use runlet.Scheduling.Runtime.Minutes.{normalize_time_idem}
use runlet.Scheduling.Runtime.Trigger.{
  normalize_time, read_uuid, with_db, trigger_published_job_now,
}
use runlet.Scheduling.Runtime.Callbacks.{
  split_colon, target_of_job, dispatch_callback, resolve_callback_target, on_scheduler_job_event,
}

read_uuid-uuid_text : (id : ℕ) → IsUuid id → read_uuid (uuid_text id) ≡ ok id
unfolding read_uuid
read_uuid-uuid_text id h = rw (parse_uuid-uuid_text id h)

published_now :
    (t : Tables) (id : ℕ) (at : DateTime) (run_id queued_id : ℕ)
    → IsUuid id
    → trigger_published_job_now t (uuid_text id) (normalize_time at) run_id queued_id
      ≡ ok (with_db t (trigger_scheduled_job t.jobs id (normalize_time at) run_id queued_id))
unfolding trigger_published_job_now
published_now t id at run_id queued_id h = rw (read_uuid-uuid_text id h, normalize_time_idem at)

-- The keyword arguments that the registry gives name the kind and the row.
target_of_new_job :
    (expr timezone kind : Text) (id : ℕ)
    → target_of_job (some (new_scheduled_job expr timezone kind id)) ≡ some (kind, uuid_text id)
unfolding from_fields runlet.Prelude.lookup runlet.Prelude.list_beq runlet.Prelude.Values.to_fields
target_of_new_job expr timezone kind id = refl

module _ {S : Type 0} (scheduler : Scheduler S) (t : Tables) (at : DateTime)
    (run_id queued_id : ℕ) where
  -- The job of a published job's id: gone from the scheduler by then, or as the registry adds it.
  abbrev pub IsOwnJob : ℕ → S → Type 0
  IsOwnJob id s =
      (scheduler.get_job (build_published_job_id id) s ≡ none)
      ⊎ ((expr : Text) × (timezone : Text) × (scheduler.get_job (build_published_job_id id) s
            ≡ some (new_scheduled_job expr timezone (text "published_job") id)))

  resolve_published :
      (id : ℕ) (s : S)
      → IsOwnJob id s
      → resolve_callback_target scheduler s (build_published_job_id id)
        ≡ some (text "published_job", uuid_text id)
  unfolding resolve_callback_target split_colon runlet.Prelude.list_beq
  resolve_published id s (inl e) = rw e
  resolve_published id s (inr (expr, timezone, e)) =
      rw (e, target_of_new_job expr timezone (text "published_job") id)

  -- The event of a published job's id, whether the job is still with the scheduler or not, does
  -- what trigger_scheduled_job does for that id at the time of the event, in UTC.
  pub on_scheduler_job_event-published :
      (id : ℕ) (s : S)
      → IsUuid id
      → IsOwnJob id s
      → on_scheduler_job_event scheduler s t (build_published_job_id id) at run_id queued_id
        ≡ ok (with_db t (trigger_scheduled_job t.jobs id (normalize_time at) run_id queued_id))
  unfolding on_scheduler_job_event dispatch_callback runlet.Prelude.list_beq
  on_scheduler_job_event-published id s h own =
      rw (resolve_published id s own) (published_now t id at run_id queued_id h)
