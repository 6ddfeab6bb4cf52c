-- ===== src/RunCheck/Live.antt =====
-- Only checks that are not retired are run.

use mathlib.Core.Path.{subst}
use runlet.Prelude.{
  ℕ, false, ◌&&◌, not, ◌≡◌, refl, Option, none, some, Text, text, ◌==◌, nat_eq, list_eq, strip,
  Value, Result, ok, raise, ◌>>=◌, arith,
}
use runlet.Prelude.Values.{null, bool, int, float, str, list, dict, field_of}
use runlet.Prelude.Search.{lower, str_or_empty}
use runlet.Scheduling.Policies.{find_row}
use runlet.RunCheck.Rows.{
  AssetLifecycleStatus, active, retired_missing, retired_replaced, retired_manual, PageAsset,
  PageCheck, JobRun, Tables, QueuedJob, Services,
}
use runlet.RunCheck.Admission.{
  Refusal, fail, skip, required_id, invalid_page_check_id, read_published_job_id,
  read_execution_plan_id, read_page_check_id, read_execution_request_id, runtime_inputs,
  read_job_run, retirement_failure_message, first_reason, asset_reason, check_reason, text_or_none,
  is_null, is_given, resolve_retirement_skip_reason, skip_for, check_retirement, Admitted,
  refuse_if, parse_optional, is_probe, admit,
}
use runlet.Scheduling.Uuids.Parse.{parse_uuid}
use runlet.RunCheck.Calls.{Calls, nothing, execute-Calls}
use runlet.RunCheck.Handler.{
  Executed, done, was_blocked, raised, no_result, execute, settle, handle_admitted, run,
}

-- The check with the id and its asset are there and active.
abbrev pub IsLive : Tables → ℕ → Type 0
IsLive t id =
    (check : PageCheck) × (asset : PageAsset) × (find_row (λ (c : PageCheck). c.id) id t.page_checks
      ≡ some check)
    × (check.lifecycle_status ≡ active)
    × (find_row (λ (a : PageAsset). a.id) check.page_asset_id t.page_assets ≡ some asset)
    × (asset.lifecycle_status ≡ active)

-- What holds of a result, if there is one.
Gives : {A : Type 0} → (A → Type 0) → Result Refusal A → Type 0
Gives P (ok a) = P a
Gives P (raise e) = Unit

Gives-bind :
    {A B : Type 0} (P : B → Type 0) (m : Result Refusal A) (f : A → Result Refusal B)
    → ((a : A) → m ≡ ok a → Gives P (f a))
    → Gives P (m >>= f)
unfolding Gives
Gives-bind P (ok a) f h = h a refl
Gives-bind P (raise e) f h = tt

Gives-ok : {A : Type 0} (P : A → Type 0) (m : Result Refusal A) (a : A) → Gives P m → m ≡ ok a → P a
unfolding Gives
Gives-ok P m a h e = rw e at h

first_reason-none :
    (s : AssetLifecycleStatus) (other : Option Text)
    → first_reason (retirement_failure_message s) other ≡ none
    → (s ≡ active) × (other ≡ none)
first_reason-none active other h = (refl, h)
first_reason-none retired_missing other h = absurd (ground (arith, h))
first_reason-none retired_replaced other h = absurd (ground (arith, h))
first_reason-none retired_manual other h = absurd (ground (arith, h))

asset_reason-none :
    (t : Tables) (job_id : Option ℕ) (o : Option PageAsset)
    → asset_reason t job_id o ≡ none
    → (asset : PageAsset) × (o ≡ some asset) × (asset.lifecycle_status ≡ active)
asset_reason-none t job_id none h = absurd (ground (arith, h))
asset_reason-none t job_id (some asset) h =
    (asset, refl, (first_reason-none asset.lifecycle_status _ h).0)

check_reason-none :
    (t : Tables) (id : ℕ) (job_id : Option ℕ) (o : Option PageCheck)
    → find_row (λ (c : PageCheck). c.id) id t.page_checks ≡ o
    → check_reason t job_id o ≡ none
    → IsLive t id
check_reason-none t id job_id none e h = absurd (ground (arith, h))
check_reason-none t id job_id (some check) e h =
    let (check_active, rest) = first_reason-none check.lifecycle_status _ h in
    let (asset, found, asset_active) = asset_reason-none t job_id _ rest in
    (check, asset, e, check_active, found, asset_active)

skip_for-ok : (linked : Option JobRun) (o : Option Text) → skip_for linked o ≡ ok tt → o ≡ none
skip_for-ok linked none h = refl
skip_for-ok linked (some reason) h = absurd (ground (arith, h))

check_retirement-ok :
    (t : Tables) (id : ℕ) (job_id : Option ℕ) (linked : Option JobRun)
    → check_retirement t false (some id) job_id linked ≡ ok tt
    → IsLive t id
unfolding check_retirement resolve_retirement_skip_reason
check_retirement-ok t id job_id linked h =
    check_reason-none t id job_id _ refl (skip_for-ok linked _ h)

required_id-ok :
    (refusal : Refusal) (o : Option ℕ) (p : Option ℕ)
    → required_id refusal o ≡ ok p
    → (id : ℕ) × (p ≡ some id) × (o ≡ some id)
required_id-ok refusal none p h = absurd (ground (arith, h))
required_id-ok refusal (some id) p h = (id, ground (arith, h), refl)

read_page_check_id-ok :
    (v : Value) (p : Option ℕ)
    → read_page_check_id false v ≡ ok p
    → (id : ℕ) × (p ≡ some id) × (parse_optional (text_or_none v) ≡ some id)
unfolding read_page_check_id
read_page_check_id-ok (str s) p h = required_id-ok invalid_page_check_id (parse_uuid s) p h
read_page_check_id-ok null p h = absurd (ground (arith, h))
read_page_check_id-ok (bool b) p h = absurd (ground (arith, h))
read_page_check_id-ok (int n) p h = absurd (ground (arith, h))
read_page_check_id-ok (float r) p h = absurd (ground (arith, h))
read_page_check_id-ok (list s xs) p h = absurd (ground (arith, h))
read_page_check_id-ok (dict s fs) p h = absurd (ground (arith, h))

-- The check that the payload names, which is there and active, on an asset that is there and active.
abbrev pub IsNamedLive : Tables → Value → ℕ → Type 0
IsNamedLive t payload id =
    (parse_optional (text_or_none (field_of (text "page_check_id") payload)) ≡ some id)
    × IsLive t id

-- What is admitted to a run that is no probe is a live check, the one that is named.
abbrev IsForLive : Tables → Value → Admitted → Type 0
IsForLive t payload a =
    is_probe a.execution_track ≡ false
    → (id : ℕ) × (a.page_check_id ≡ some id) × IsNamedLive t payload id

admit-IsForLive : (t : Tables) (payload : Value) → Gives (IsForLive t payload) (admit t payload)
unfolding admit Gives
admit-IsForLive t payload =
    let get = λ (key : Text). field_of key payload in
    let track = lower (strip (str_or_empty (get (text "execution_track")))) in
    let request_text = text_or_none (get (text "execution_request_id")) in
    Gives-bind (IsForLive t payload) (read_published_job_id (get (text "published_job_id"))) _
      λ job_id e1.
        Gives-bind (IsForLive t payload)
          (refuse_if (is_null (get (text "page_check_id")) && track == text "realtime")
            (skip (text "realtime execution track is not supported by run_check worker") none))
          _
          λ u2 e2.
            Gives-bind (IsForLive t payload)
              (read_execution_plan_id (text_or_none (get (text "execution_plan_id")))) _
              λ plan_id e3.
                Gives-bind (IsForLive t payload)
                  (refuse_if (is_probe track && not (is_given plan_id))
                    (fail (text "missing execution_plan_id in run_check job payload") none))
                  _
                  λ u4 e4.
                    Gives-bind (IsForLive t payload)
                      (read_page_check_id (is_probe track) (get (text "page_check_id"))) _
                      λ check_id e5.
                        Gives-bind (IsForLive t payload) (read_execution_request_id request_text) _
                          λ request_id e6.
                            Gives-bind (IsForLive t payload) (runtime_inputs t request_id) _
                              λ inputs e7.
                                Gives-bind (IsForLive t payload)
                                  (read_job_run t job_id (get (text "job_run_id"))) _
                                  λ linked e8.
                                    Gives-bind (IsForLive t payload)
                                      (check_retirement t (is_probe track) check_id job_id linked) _
                                      λ u9 e9 probe.
                                        let (id, same, named) =
                                          read_page_check_id-ok (get (text "page_check_id"))
                                            check_id (rw probe at e5) in
                                        (
                                          id,
                                          same,
                                          (
                                            named,
                                            check_retirement-ok t id job_id linked
                                                (rw (probe, same) at e9),
                                          ),
                                        )

module _ {W : Type 0} (services : Services W) where
  -- What the handler does by the services: it runs no check but the one that is named and live.
  abbrev pub RanLive : Tables → QueuedJob → W → W → Type 0
  RanLive t job = Calls services (IsNamedLive t job.payload)

  settle-state :
      (id : ℕ) (a : Admitted) (t t' : Tables) (x : Executed × W) (w' : W)
      → settle services id a t x ≡ ok (t', w')
      → x.1 ≡ w'
  settle-state id a t t' (done result retry, w) w' h = ground (arith, h)
  settle-state id a t t' (was_blocked retry, w) w' h = ground (arith, h)
  settle-state id a t t' (raised message retry, w) w' h = ground (arith, h)
  settle-state id a t t' (no_result, w) w' h = absurd (ground (arith, h))

  -- A handler that returns has come to its state by calls of the services alone, and each check that
  -- it asked the runner to run is the one that the payload names, which is there and active, on an
  -- asset that is there and active.
  pub run-RanLive :
      (t t' : Tables) (id : ℕ) (w w' : W) (job : QueuedJob)
      → find_row (λ (j : QueuedJob). j.id) id t.queued_jobs ≡ some job
      → run services t id w ≡ ok (t', w')
      → RanLive t job w w'
  unfolding run
  run-RanLive t t' id w w' job e h = go (admit t job.payload) refl (rw e at h)
    where
      go :
          (r : Result Refusal Admitted)
          → admit t job.payload ≡ r
          → handle_admitted services id t w r ≡ ok (t', w')
          → RanLive t job w w'
      go (raise (fail message linked)) same k =
          let unchanged : w ≡ w' = ground (arith, k) in subst (RanLive t job w) unchanged nothing
      go (raise (skip message linked)) same k =
          let unchanged : w ≡ w' = ground (arith, k) in subst (RanLive t job w) unchanged nothing
      go (ok a) same k =
          subst (RanLive t job w) (settle-state id a _ t' (execute services a w) w' k) (
            execute-Calls services (IsNamedLive t job.payload) w a (
              Gives-ok (IsForLive t job.payload) (admit t job.payload) a
                (admit-IsForLive t job.payload) same))
