-- ===== src/RunCheck/Tests.antt =====
-- A precompiled check whose first run times out, and the same check after its asset was retired.
use runlet.Prelude.{
  ℕ, ◌+◌, Bool, true, false, ◌≡◌, refl, inl, inr, ◌⊎◌, Option, none, some, List, [], ◌∷◌, Text,
  text, if◌then◌else◌, nat_beq, Value, Result, ok,
}
use runlet.Prelude.Values.{null, str, new_dict}
use runlet.Scheduling.Jobs.Rows.{accepted}
use runlet.RunCheck.Rows.{
  active, retired_missing, QueuedJob, JobRun, Tables, passed, reused, RunResult, Outcome, returned,
  crashed, Services,
}
use runlet.RunCheck.Attempts.{run_precompiled_with_retry}
use runlet.RunCheck.Trace.{EndsWell, run_precompiled_with_retry-EndsWell}
use runlet.RunCheck.Admission.{admit}
use runlet.RunCheck.Handler.{run}
use runlet.RunCheck.Total.{IsEnded, run-IsEnded}
use runlet.RunCheck.Linked.{linked_of, run_to_close}
use runlet.RunCheck.Live.{RanLive, run-RanLive}

abbrev good : RunResult
good = record {
  execution_run_id = 900;
  page_check_id = some 5;
  status = passed;
  auth_status = reused;
  artifact_ids = [];
  failure_category = none;
  step_results = [];
}

-- The state is the time; the runner takes a while and times out when it is called first.
abbrev outcome_at : ℕ → Outcome
outcome_at w = if nat_beq w 0 then crashed (text "Timeout 30000ms exceeded") else returned good

abbrev slow_runner : Services ℕ
slow_runner = record {
  utcnow = λ w. w;
  run_page_check = λ check plan inputs w. (outcome_at w, w + 10);
  run_realtime_probe = λ plan w. (returned good, w + 10);
  persist_feedback = none;
  rollback = λ w. w;
  sleep_ms = λ ms w. w + ms;
}

abbrev job : QueuedJob
job = record {
  id = 1;
  payload = new_dict (
      (text "page_check_id", str (text "00000000-0000-0000-0000-000000000005"))
      ∷ (text "execution_track", str (text "precompiled"))
      ∷ (text "job_run_id", str (text "00000000-0000-0000-0000-000000000007"))
      ∷ []);
  result_payload = none;
  status = accepted;
  started_at = none;
  finished_at = none;
  failure_message = none;
}

abbrev job_run : JobRun
job_run = record {
  id = 7;
  published_job_id = 3;
  execution_run_id = none;
  run_status = accepted;
  started_at = none;
  finished_at = none;
  failure_message = none;
}

abbrev tables : Tables
tables = record {
  queued_jobs = job ∷ [];
  job_runs = job_run ∷ [];
  published_jobs = [];
  page_checks = record { id = 5; page_asset_id = 6; lifecycle_status = active } ∷ [];
  page_assets = record { id = 6; lifecycle_status = active } ∷ [];
  execution_requests = [];
}

abbrev retired : Tables
retired = record tables { page_assets = record { id = 6; lifecycle_status = retired_missing } ∷ [] }

run_precompiled_with_retry-EndsWell_example :
    EndsWell (run_precompiled_with_retry slow_runner (some 5) none null 0).0
run_precompiled_with_retry-EndsWell_example =
    run_precompiled_with_retry-EndsWell slow_runner (some 5) none null 0

-- The second attempt passes, after a wait of 100 ms.
second_passes : (run_precompiled_with_retry slow_runner (some 5) none null 0).1 ≡ 120
unfolding run_precompiled_with_retry runlet.Prelude.list_beq
second_passes = refl

run-IsEnded_example :
    IsEnded slow_runner 1 (run_to_close tables job.payload) tables (run slow_runner tables 1 0)
unfolding runlet.Scheduling.Policies.find_row
run-IsEnded_example = run-IsEnded slow_runner tables 1 0 job refl

run-RanLive_example : RanLive slow_runner tables job 0 120
unfolding run runlet.Prelude.Values.from_fields runlet.Prelude.Values.to_fields
    runlet.Prelude.list_beq
run-RanLive_example = run-RanLive slow_runner tables _ 1 0 120 job refl refl

-- With its asset retired, nothing is run.
retired_not_run : linked_of (admit retired job.payload) ≡ some job_run
unfolding admit runlet.Prelude.Values.from_fields runlet.Prelude.Values.to_fields
    runlet.Prelude.list_beq
retired_not_run = refl
