-- ===== src/Scheduling/Jobs/PublishTests.antt =====
-- A script render of a plan, published as a job that runs every minute.
use runlet.Prelude.{
  ℕ, ◌&&◌, ◌≡◌, refl, Bool, true, false, Option, none, some, List, [], ◌∷◌, any, distinct, text,
  Text, Result, ok, raise, list_eq, nat_eq,
}
use runlet.Prelude.Values.{null}
use runlet.Scheduling.Clock.{DateTime}
use runlet.Scheduling.Cron.{cron_matches}
use runlet.Scheduling.Jobs.Rows.{ScriptRender, PublishedJob, Db}
use runlet.Scheduling.Jobs.Service.{trigger_scheduled_job}
use runlet.Scheduling.Jobs.Publish.{
  CreatePublishedJobRequest, build_job_key, new_job, create_published_job,
  create_published_job_from_execution,
}
use runlet.Scheduling.Jobs.Created.{create_published_job-triggered}
use runlet.Scheduling.Jobs.Rendered.{is_of_plan, create_published_job_from_execution-is_of_plan}

abbrev login_script : ScriptRender
login_script = record {
  id = 6;
  execution_plan_id = some 3;
  render_mode = text "preview";
  render_metadata = null;
  created_at = 1;
}

abbrev unpublished : Db
unpublished = record {
  script_renders = login_script ∷ [];
  published_jobs = [];
  job_runs = [];
  queued_jobs = [];
}

abbrev every_minute : CreatePublishedJobRequest
every_minute = record {
  script_render_id = 6;
  page_check_id = 5;
  schedule_type = text "cron";
  schedule_expr = text "* * * * *";
  trigger_source = text "platform";
  enabled = true;
}

abbrev published : PublishedJob
published = new_job every_minute login_script 1 30

abbrev after_publishing : Db
after_publishing = record unpublished { published_jobs = published ∷ [] }

abbrev accept_all : Text → Bool
accept_all expr = true

-- A renderer that finds its script rendered.
abbrev render_found : Db → ℕ → ℕ × Db
render_found db page_check_id = (6, db)

key_of_one_job : build_job_key 5 6 ≡ text "000000000000_000000000000"
unfolding build_job_key
key_of_one_job = refl

abbrev noon : DateTime
noon = record { wall = 43_200_000_000; utc_offset = none }

create_published_job-triggered_example :
    (trigger_scheduled_job after_publishing 1 noon 100 200).0 ≡ cron_matches (text "* * * * *") noon
unfolding create_published_job runlet.Scheduling.Jobs.Service.get_job runlet.Prelude.filter
    runlet.Prelude.contains
create_published_job-triggered_example =
    create_published_job-triggered accept_all unpublished every_minute 1 30 noon 100 200
      {job = published} {db' = after_publishing} refl refl refl refl

create_published_job_from_execution-is_of_plan_example :
    (render_id : ℕ) × (published.script_render_id ≡ some render_id)
    × (any (is_of_plan render_id 3) after_publishing.script_renders ≡ true)
unfolding create_published_job_from_execution runlet.Prelude.sort runlet.Prelude.filter
    runlet.Prelude.list_beq runlet.Prelude.contains
create_published_job_from_execution-is_of_plan_example =
    create_published_job_from_execution-is_of_plan render_found accept_all unpublished 3 5
      (text " * * * * * ") (text "platform") true 1 30 {job = published} {db' = after_publishing}
      refl
