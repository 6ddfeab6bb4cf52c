-- ===== src/Scheduling/Jobs/Publish.antt =====
-- PublishedJobService of scheduler.py: the creation of published jobs. What CronTrigger.from_crontab
-- accepts and what the script renderer does to the tables are parameters.
use runlet.Prelude.{
  ℕ, zero, suc, ◌/◌, ◌%◌, Bool, false, ◌&&◌, ◌||◌, not, Option, none, some, List, [], ◌∷◌, ◌++◌,
  Text, text, if◌then◌else◌, ltb, ◌==◌, nat_eq, list_eq, option_eq, filter, first, take, drop, sort,
  get_or, Value, Result, ok, raise, ◌>>=◌,
}
use runlet.Prelude.Values.{str, field_of, normalize_text}
use runlet.Prelude.Json.{hex_digit}
use runlet.Scheduling.Jobs.Rows.{active, paused, ScriptRender, PublishedJob, Db}
use runlet.Scheduling.Jobs.Service.{
  ServiceError, render_not_found, invalid_schedule, validate_required_text,
}

-- The last digits of a number in base 16.
unfoldable pub hex_text : ℕ → ℕ → Text
hex_text zero n = []
hex_text (suc width) n = hex_text width (n / 16) ++ hex_digit (n % 16) ∷ []

-- UUID.hex
unfoldable pub uuid_hex : ℕ → Text
unfolding hex_text
uuid_hex id = hex_text 32 id

-- str(UUID)
unfoldable pub uuid_text : ℕ → Text
unfolding uuid_hex take drop
uuid_text id =
    let h = uuid_hex id in
    take 8 h
    ++ (b'-' ∷ take 4 (drop 8 h))
    ++ (b'-' ∷ take 4 (drop 12 h))
    ++ (b'-' ∷ take 4 (drop 16 h))
    ++ (b'-' ∷ drop 20 h)

unfoldable pub build_job_key : ℕ → ℕ → Text
unfolding uuid_hex take
build_job_key page_check_id script_render_id =
    take 12 (uuid_hex page_check_id) ++ (b'_' ∷ take 12 (uuid_hex script_render_id))

abbrev none_if_empty : Text → Option Text
none_if_empty [] = none
none_if_empty (c ∷ s) = some (c ∷ s)

unfoldable pub optional_text : Value → Option Text
unfolding normalize_text
optional_text value = none_if_empty (normalize_text value)

-- The value is this text.
abbrev pub is_text : Text → Value → Bool
is_text t (str s) = s == t
is_text t _ = false

unfoldable pub matches_page_check : ScriptRender → ℕ → Bool
unfolding uuid_text
matches_page_check script_render page_check_id =
    is_text (uuid_text page_check_id)
      (field_of (text "page_check_id") script_render.render_metadata)

-- CreatePublishedJobRequest, with its texts validated; trigger_source is not read.
pub record CreatePublishedJobRequest : Type 0 where
  pub script_render_id : ℕ
  pub page_check_id : ℕ
  pub schedule_type : Text
  pub schedule_expr : Text
  pub trigger_source : Text
  pub enabled : Bool

unfoldable pub new_request :
    ℕ → ℕ → Text → Text → Text → Bool → Result ServiceError CreatePublishedJobRequest
unfolding validate_required_text
new_request script_render_id page_check_id schedule_type schedule_expr trigger_source enabled = do
  type ← validate_required_text schedule_type
  expr ← validate_required_text schedule_expr
  source ← validate_required_text trigger_source
  ok (record {
    script_render_id = script_render_id;
    page_check_id = page_check_id;
    schedule_type = type;
    schedule_expr = expr;
    trigger_source = source;
    enabled = enabled;
  })

unfoldable pub get_render : ℕ → List ScriptRender → Option ScriptRender
get_render id [] = none
get_render id (render ∷ rest) = if render.id == id then some render else get_render id rest

unfoldable pub new_job : CreatePublishedJobRequest → ScriptRender → ℕ → ℕ → PublishedJob
unfolding build_job_key optional_text
new_job request script_render id now = record {
  id = id;
  job_key = build_job_key request.page_check_id request.script_render_id;
  page_check_id = request.page_check_id;
  script_render_id = some request.script_render_id;
  asset_version = optional_text (field_of (text "asset_version") script_render.render_metadata);
  runtime_policy =
      get_or request.schedule_type
        (optional_text (field_of (text "runtime_policy") script_render.render_metadata));
  schedule_expr = request.schedule_expr;
  timezone = text "UTC";
  state = if request.enabled then active else paused;
  pause_reason = none;
  paused_by_snapshot_id = none;
  paused_by_asset_id = none;
  paused_by_page_check_id = none;
  updated_at = now;
}

-- session.add(published_job)
unfoldable pub insert_job : Db → PublishedJob → PublishedJob × Db
insert_job db job = (job, record db { published_jobs = db.published_jobs ++ job ∷ [] })

module _ (accepts_crontab : Text → Bool) where
  unfoldable pub create_published_job :
      Db → CreatePublishedJobRequest → ℕ → ℕ → Result ServiceError (PublishedJob × Db)
  unfolding get_render insert_job new_job
  create_published_job db request id now =
      if not (accepts_crontab request.schedule_expr)
      then raise (invalid_schedule request.schedule_expr)
      else elim (get_render request.script_render_id db.script_renders) [
        | none ↦ raise (render_not_found request.script_render_id)
        | some script_render ↦ ok (insert_job db (new_job request script_render id now))
      ]

-- ORDER BY created_at DESC, id DESC
abbrev pub newest_render : ScriptRender → ScriptRender → Bool
newest_render a b =
    ltb b.created_at a.created_at || a.created_at == b.created_at && not (ltb a.id b.id)

abbrev pub is_published_of : ℕ → ScriptRender → Bool
is_published_of plan_id render =
    render.execution_plan_id == some plan_id && render.render_mode == text "published"

-- The row of the render is written with the plan.
unfoldable pub set_plan : ℕ → ℕ → List ScriptRender → List ScriptRender
set_plan id plan_id [] = []
set_plan id plan_id (render ∷ rest) =
    (if render.id == id then record render { execution_plan_id = some plan_id } else render)
    ∷ set_plan id plan_id rest

-- A render that was found again is written with the plan.
abbrev pub with_plan : ℕ → ℕ → Db → Option ScriptRender → Result ServiceError (ℕ × Db)
with_plan id plan_id db none = raise (render_not_found id)
with_plan id plan_id db (some script_render) =
    ok (id, record db { script_renders = set_plan id plan_id db.script_renders })

-- The renderer gives the id of a script render and the tables after its work.
module _ (render_page_check : Db → ℕ → ℕ × Db) where
  abbrev pub rendered : Db → ℕ → ℕ → Result ServiceError (ℕ × Db)
  rendered db plan_id page_check_id =
      let (id, db') = render_page_check db page_check_id in
      with_plan id plan_id db' (get_render id db'.script_renders)

  abbrev pub reuse_or_render : Db → ℕ → ℕ → Option ScriptRender → Result ServiceError (ℕ × Db)
  reuse_or_render db plan_id page_check_id none = rendered db plan_id page_check_id
  reuse_or_render db plan_id page_check_id (some script_render) =
      if matches_page_check script_render page_check_id
      then ok (script_render.id, db)
      else rendered db plan_id page_check_id

  unfoldable pub get_or_render_published_script : Db → ℕ → ℕ → Result ServiceError (ℕ × Db)
  unfolding matches_page_check set_plan get_render
  get_or_render_published_script db plan_id page_check_id =
      reuse_or_render db plan_id page_check_id
        (first (sort newest_render (filter (is_published_of plan_id) db.script_renders)))

  unfoldable pub create_published_job_from_execution :
      (Text → Bool)
      → Db
      → ℕ
      → ℕ
      → Text
      → Text
      → Bool
      → ℕ
      → ℕ
      → Result ServiceError (PublishedJob × Db)
  unfolding get_or_render_published_script create_published_job new_request
  create_published_job_from_execution accepts_crontab db plan_id page_check_id schedule_expr
        trigger_source enabled id now =
      do
        (script_render_id, db') ← get_or_render_published_script db plan_id page_check_id
        request ←
            new_request script_render_id page_check_id (text "cron") schedule_expr trigger_source
              enabled
        create_published_job accepts_crontab db' request id now
