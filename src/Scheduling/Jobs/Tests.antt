-- ===== src/Scheduling/Jobs/Tests.antt =====
-- A job that runs every minute, triggered, paused and resumed.
use runlet.Prelude.{
  ℕ, ◌+◌, ◌*◌, ◌≡◌, refl, Bool, true, false, Option, none, some, List, [], ◌∷◌, text, Text, Result,
  ok, raise, arith,
}
use runlet.Scheduling.Clock.{DateTime}
use runlet.Scheduling.Jobs.Rows.{active, PublishedJob, Db}
use runlet.Scheduling.Jobs.Trigger.{trigger}
use runlet.Scheduling.Jobs.Service.{
  pause_job, trigger_scheduled_job, pause_published_jobs_by_ids, resume_published_jobs_by_ids,
}
use runlet.Scheduling.Jobs.Once.{trigger_scheduled_job-once}
use runlet.Scheduling.Jobs.Pausing.{timeless_jobs, resume-pause, paused-never-triggered}

abbrev nightly : PublishedJob
nightly = record {
  id = 1;
  job_key = text "pub_1";
  page_check_id = 5;
  script_render_id = some 6;
  asset_version = none;
  runtime_policy = text "published";
  schedule_expr = text "* * * * *";
  timezone = text "Asia/Shanghai";
  state = active;
  pause_reason = none;
  paused_by_snapshot_id = none;
  paused_by_asset_id = none;
  paused_by_page_check_id = none;
  updated_at = 0;
}

abbrev one_job : Db
one_job = record {
  script_renders = [];
  published_jobs = nightly ∷ [];
  job_runs = [];
  queued_jobs = [];
}

-- 30 seconds into the first minute, and 59 seconds into it.
abbrev half_past : DateTime
half_past = record { wall = 30_000_000; utc_offset = none }

abbrev late : DateTime
late = record { wall = 59_000_000; utc_offset = none }

abbrev triggered_once : Db
triggered_once = trigger one_job nightly (text "scheduler") half_past 100 200

trigger_scheduled_job-once_example :
    trigger_scheduled_job triggered_once 1 late 101 201 ≡ (false, triggered_once)
unfolding trigger_scheduled_job runlet.Prelude.filter runlet.Prelude.is_space
    runlet.Prelude.list_beq
trigger_scheduled_job-once_example =
    trigger_scheduled_job-once one_job 1 half_past late 100 200 101 201 {db' = triggered_once} tt
      refl refl

abbrev one_paused : Db
one_paused = record one_job {
  published_jobs = pause_job (text "page retired") 9 (λ id. 5) nightly ∷ [];
}

resume-pause_example :
    ((resume_published_jobs_by_ids one_paused (1 ∷ []) (λ id. 8)).0 ≡ 1)
    × (timeless_jobs (resume_published_jobs_by_ids one_paused (1 ∷ []) (λ id. 8)).1
        ≡ timeless_jobs one_job)
unfolding pause_published_jobs_by_ids runlet.Prelude.strip runlet.Prelude.dedupe
    runlet.Prelude.contains
resume-pause_example =
    resume-pause one_job (1 ∷ []) 9 (text " page retired ") (λ id. 5) (λ id. 8) {n = 1}
      {db' = one_paused}
      (
        (λ h. record {
          state = refl;
          reason = refl;
          snapshot = refl;
          asset = refl;
          page_check = refl;
        }),
        tt,
      )
      refl

paused-never-triggered_example :
    trigger_scheduled_job one_paused 1 late 101 201 ≡ (false, one_paused)
unfolding pause_published_jobs_by_ids runlet.Prelude.contains runlet.Prelude.strip
    runlet.Prelude.dedupe
paused-never-triggered_example =
    paused-never-triggered one_job (1 ∷ []) 9 (text " page retired ") (λ id. 5) 1 late 101 201
      {n = 1} {db' = one_paused} refl refl
