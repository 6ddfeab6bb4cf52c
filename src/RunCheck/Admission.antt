-- ===== src/RunCheck/Admission.antt =====
-- RunCheckJobHandler.run up to the start of the run: what a payload asks for, and whether the job is
-- refused or skipped.
use runlet.Prelude.{
  ℕ, Bool, true, false, ◌&&◌, ◌||◌, not, Option, none, some, [], ◌++◌, Text, text, strip, is_empty,
  if◌then◌else◌, ◌==◌, nat_eq, list_eq, Value, Result, ok, raise, ◌>>=◌, ◌>>◌, lookup,
}
use runlet.Prelude.Values.{null, str, dict, field_of}
use runlet.Prelude.Search.{lower, has_part, str_or_empty}
use runlet.Scheduling.Jobs.Publish.{uuid_text}
use runlet.Scheduling.Jobs.Rows.{is_paused, PublishedJob}
use runlet.Scheduling.Jobs.Service.{get_job}
use runlet.Scheduling.Uuids.Parse.{parse_uuid}
use runlet.Scheduling.Policies.{find_row}
use runlet.RunCheck.Rows.{
  AssetLifecycleStatus, active, PageAsset, PageCheck, ExecutionRequest, JobRun, Tables,
}

-- The job is marked as failed or as skipped with a message, and so is the run that is given.
pub data Refusal : Type 0 where
  fail skip : Text → Option JobRun → Refusal

abbrev pub asset_retired_failure_message : Text
asset_retired_failure_message = text "asset_retired_missing"

-- raw if isinstance(raw, str) else None
abbrev pub text_or_none : Value → Option Text
text_or_none (str s) = some s
text_or_none _ = none

abbrev pub is_null : Value → Bool
is_null null = true
is_null _ = false

-- _parse_uuid; none for None.
abbrev pub parse_optional : Option Text → Option ℕ
unfolding parse_uuid
parse_optional none = none
parse_optional (some s) = parse_uuid s

-- The id that a text has to be.
abbrev pub required_id : Refusal → Option ℕ → Result Refusal (Option ℕ)
required_id refusal none = raise refusal
required_id refusal (some id) = ok (some id)

-- A value that is None or the text of an id; another value is refused.
unfoldable pub read_published_job_id : Value → Result Refusal (Option ℕ)
unfolding parse_uuid
read_published_job_id raw =
    if is_null raw
    then ok none
    else required_id (fail (text "invalid published_job_id in run_check job payload") none)
        (parse_optional (text_or_none raw))

-- A value that is no text counts as None.
unfoldable pub read_execution_plan_id : Option Text → Result Refusal (Option ℕ)
unfolding parse_uuid
read_execution_plan_id none = ok none
read_execution_plan_id (some s) =
    required_id (fail (text "invalid execution_plan_id in run_check job payload") none)
      (parse_uuid s)

abbrev pub invalid_page_check_id : Refusal
invalid_page_check_id = fail (text "invalid page_check_id in run_check job payload") none

unfoldable pub read_page_check_id : Bool → Value → Result Refusal (Option ℕ)
unfolding parse_uuid
read_page_check_id probe (str s) = required_id invalid_page_check_id (parse_uuid s)
read_page_check_id true null = ok none
read_page_check_id true _ = raise invalid_page_check_id
read_page_check_id false _ =
    raise (fail (text "missing page_check_id in run_check job payload") none)

-- An empty text is refused like one that is no id.
unfoldable pub read_execution_request_id : Option Text → Result Refusal (Option ℕ)
unfolding parse_uuid
read_execution_request_id none = ok none
read_execution_request_id (some s) =
    required_id (fail (text "invalid execution_request_id in run_check job payload") none)
      (if is_empty s then none else parse_uuid s)

-- The parameters of a request, where they are a dict; None is `null`.
abbrev pub dict_or_null : Value → Value
dict_or_null (dict shown fields) = dict shown fields
dict_or_null _ = null

abbrev pub inputs_of_request : ℕ → Option ExecutionRequest → Result Refusal Value
inputs_of_request id none =
    raise (fail (text "execution request " ++ uuid_text id ++ text " not found") none)
inputs_of_request id (some request) = ok (dict_or_null request.template_params)

unfoldable pub runtime_inputs : Tables → Option ℕ → Result Refusal Value
unfolding find_row uuid_text
runtime_inputs t none = ok null
runtime_inputs t (some id) =
    inputs_of_request id (find_row (λ (r : ExecutionRequest). r.id) id t.execution_requests)

-- published_job_id is not None and job_run.published_job_id != published_job_id
abbrev pub is_of_other_job : Option ℕ → JobRun → Bool
is_of_other_job none job_run = false
is_of_other_job (some id) job_run = not (job_run.published_job_id == id)

abbrev pub linked_run : Text → Option ℕ → Option JobRun → Result Refusal (Option JobRun)
linked_run raw published_job_id none =
    raise (fail (text "job run " ++ raw ++ text " not found") none)
linked_run raw published_job_id (some job_run) =
    if is_of_other_job published_job_id job_run
    then raise (fail (text "published_job_id does not match job_run linkage") (some job_run))
    else ok (some job_run)

abbrev pub invalid_job_run_id : Refusal
invalid_job_run_id = fail (text "invalid job_run_id in run_check job payload") none

abbrev pub run_of_id : Tables → Text → Option ℕ → Option ℕ → Result Refusal (Option JobRun)
run_of_id t raw published_job_id none = raise invalid_job_run_id
run_of_id t raw published_job_id (some id) =
    linked_run raw published_job_id (find_row (λ (r : JobRun). r.id) id t.job_runs)

unfoldable pub read_job_run : Tables → Option ℕ → Value → Result Refusal (Option JobRun)
unfolding find_row parse_uuid
read_job_run t published_job_id null = ok none
read_job_run t published_job_id (str raw) = run_of_id t raw published_job_id (parse_uuid raw)
read_job_run t published_job_id _ = raise invalid_job_run_id

-- _retirement_failure_message of a status of the enumeration.
abbrev pub retirement_failure_message : AssetLifecycleStatus → Option Text
retirement_failure_message active = none
retirement_failure_message _ = some asset_retired_failure_message

abbrev pub or_empty : Option Text → Text
or_empty none = []
or_empty (some s) = s

abbrev pub is_given : Option ℕ → Bool
is_given none = false
is_given (some n) = true

unfoldable pub is_retired_pause_marker : PublishedJob → Bool
unfolding lower strip has_part
is_retired_pause_marker job =
    has_part (text "retired") (lower (strip (or_empty job.pause_reason)))
    && (is_given job.paused_by_snapshot_id
        || is_given job.paused_by_asset_id
        || is_given job.paused_by_page_check_id)

abbrev pub paused_reason : Option PublishedJob → Option Text
unfolding is_retired_pause_marker
paused_reason none = none
paused_reason (some job) =
    if is_paused job.state && is_retired_pause_marker job
    then some asset_retired_failure_message
    else none

abbrev pub published_job_reason : Tables → Option ℕ → Option Text
published_job_reason t none = none
published_job_reason t (some id) = paused_reason (get_job id t.published_jobs)

-- The reason of an earlier return, else what follows it.
abbrev pub first_reason : Option Text → Option Text → Option Text
first_reason none other = other
first_reason (some reason) other = some reason

abbrev pub asset_reason : Tables → Option ℕ → Option PageAsset → Option Text
asset_reason t published_job_id none = some asset_retired_failure_message
asset_reason t published_job_id (some asset) =
    first_reason (retirement_failure_message asset.lifecycle_status)
      (published_job_reason t published_job_id)

abbrev pub check_reason : Tables → Option ℕ → Option PageCheck → Option Text
check_reason t published_job_id none = some asset_retired_failure_message
check_reason t published_job_id (some check) =
    first_reason (retirement_failure_message check.lifecycle_status) (
      asset_reason t published_job_id
        (find_row (λ (a : PageAsset). a.id) check.page_asset_id t.page_assets))

unfoldable pub resolve_retirement_skip_reason : Tables → ℕ → Option ℕ → Option Text
unfolding find_row get_job is_retired_pause_marker
resolve_retirement_skip_reason t page_check_id published_job_id =
    check_reason t published_job_id (find_row (λ (c : PageCheck). c.id) page_check_id t.page_checks)

abbrev pub skip_for : Option JobRun → Option Text → Result Refusal (Unit {0})
skip_for job_run none = ok tt
skip_for job_run (some reason) = raise (skip reason job_run)

-- A check is asked whether it is retired, unless it is run as a probe.
unfoldable pub check_retirement :
    Tables → Bool → Option ℕ → Option ℕ → Option JobRun → Result Refusal (Unit {0})
unfolding resolve_retirement_skip_reason
check_retirement t probe none published_job_id job_run = ok tt
check_retirement t true page_check_id published_job_id job_run = ok tt
check_retirement t false (some id) published_job_id job_run =
    skip_for job_run (resolve_retirement_skip_reason t id published_job_id)

pub record Admitted : Type 0 where
  pub execution_track : Text
  pub page_check_id : Option ℕ
  pub execution_plan_id : Option ℕ
  pub runtime_inputs : Value
  pub job_run : Option JobRun
  pub plan_text : Option Text
  pub request_text : Option Text

abbrev pub refuse_if : Bool → Refusal → Result Refusal (Unit {0})
refuse_if true refusal = raise refusal
refuse_if false refusal = ok tt

abbrev pub is_probe : Text → Bool
is_probe execution_track = execution_track == text "realtime_probe"

unfoldable pub admit : Tables → Value → Result Refusal Admitted
unfolding read_published_job_id read_execution_plan_id read_page_check_id read_execution_request_id
    runtime_inputs read_job_run check_retirement lower strip str_or_empty lookup
admit t payload = do
  published_job_id ← read_published_job_id (field_of (text "published_job_id") payload)
  let page_check = field_of (text "page_check_id") payload
  let track = lower (strip (str_or_empty (field_of (text "execution_track") payload)))
  refuse_if (is_null page_check && track == text "realtime")
      (skip (text "realtime execution track is not supported by run_check worker") none)
  let plan_text = text_or_none (field_of (text "execution_plan_id") payload)
  plan_id ← read_execution_plan_id plan_text
  refuse_if (is_probe track && not (is_given plan_id))
      (fail (text "missing execution_plan_id in run_check job payload") none)
  page_check_id ← read_page_check_id (is_probe track) page_check
  let request_text = text_or_none (field_of (text "execution_request_id") payload)
  request_id ← read_execution_request_id request_text
  inputs ← runtime_inputs t request_id
  job_run ← read_job_run t published_job_id (field_of (text "job_run_id") payload)
  check_retirement t (is_probe track) page_check_id published_job_id job_run
  ok (record {
    execution_track = track;
    page_check_id = page_check_id;
    execution_plan_id = plan_id;
    runtime_inputs = inputs;
    job_run = job_run;
    plan_text = plan_text;
    request_text = request_text;
  })
