-- ===== src/RunCheck/Linked.antt =====
-- Which run is closed with a job, read from the payload alone.
use runlet.Prelude.{
  ℕ, Bool, true, false, ◌&&◌, ◌||◌, not, ◌≡◌, refl, sym, ◌∙◌, Option, none, some, [], ◌∷◌, Text,
  text, strip, if◌then◌else◌, ◌==◌, nat_eq, list_eq, Value, Result, ok, raise, ◌>>=◌, Bool-cases,
  inl, inr, arith,
}
use runlet.Prelude.Values.{null, bool, int, float, str, list, dict, field_of}
use runlet.Prelude.Search.{lower, str_or_empty}
use runlet.Scheduling.Policies.{find_row}
use runlet.Scheduling.Uuids.Parse.{parse_uuid}
use runlet.RunCheck.Rows.{JobRun, ExecutionRequest, Tables}
use runlet.RunCheck.Admission.{
  Refusal, fail, skip, text_or_none, is_null, is_given, parse_optional, required_id,
  read_published_job_id, read_execution_plan_id, read_page_check_id, read_execution_request_id,
  runtime_inputs, inputs_of_request, read_job_run, linked_run, run_of_id, is_of_other_job, skip_for,
  check_retirement, resolve_retirement_skip_reason, Admitted, refuse_if, is_probe, admit,
}

-- The run that goes with a job, as far as admission knows it.
abbrev pub linked_of : Result Refusal Admitted → Option JobRun
linked_of (raise (fail message linked)) = linked
linked_of (raise (skip message linked)) = linked
linked_of (ok a) = a.job_run

-- The run of the tables that the payload names.
abbrev run_of : Tables → Option ℕ → Option JobRun
run_of t none = none
run_of t (some id) = find_row (λ (r : JobRun). r.id) id t.job_runs

abbrev named_run : Tables → Value → Option JobRun
named_run t payload =
    run_of t (parse_optional (text_or_none (field_of (text "job_run_id") payload)))

-- A text of a UUID.
abbrev is_id : Value → Bool
is_id v = is_given (parse_optional (text_or_none v))

abbrev is_text_value : Value → Bool
is_text_value (str s) = true
is_text_value _ = false

abbrev is_absent : Option ExecutionRequest → Bool
is_absent none = true
is_absent (some r) = false

abbrev is_missing : Tables → Option ℕ → Bool
is_missing t none = false
is_missing t (some id) =
    is_absent (find_row (λ (r : ExecutionRequest). r.id) id t.execution_requests)

abbrev is_bad_check : Bool → Value → Bool
is_bad_check true v = not (is_null v) && not (is_id v)
is_bad_check false v = not (is_id v)

abbrev track_of : Value → Text
track_of payload = lower (strip (str_or_empty (field_of (text "execution_track") payload)))

abbrev is_bad_published : Value → Bool
is_bad_published v = not (is_null v) && not (is_id v)

abbrev is_bad_text : Value → Bool
is_bad_text v = is_text_value v && not (is_id v)

abbrev is_realtime : Value → Bool
is_realtime payload =
    is_null (field_of (text "page_check_id") payload) && track_of payload == text "realtime"

abbrev lacks_plan : Value → Bool
lacks_plan payload =
    is_probe (track_of payload) && not (is_id (field_of (text "execution_plan_id") payload))

-- A published_job_id that is no id; no check on the track "realtime"; an execution_plan_id that is no
-- id, or none for a probe; a page_check_id that is no id, or none where there is no probe; an
-- execution_request_id that is no id, or that of no request.
unfoldable pub is_refused_early : Tables → Value → Bool
unfolding lower strip str_or_empty find_row parse_uuid
is_refused_early t payload =
    is_bad_published (field_of (text "published_job_id") payload)
    || is_realtime payload
    || is_bad_text (field_of (text "execution_plan_id") payload)
    || lacks_plan payload
    || is_bad_check (is_probe (track_of payload)) (field_of (text "page_check_id") payload)
    || is_bad_text (field_of (text "execution_request_id") payload)
    || is_missing t (parse_optional (text_or_none (field_of (text "execution_request_id") payload)))

-- The run that is closed with the job.
abbrev pub run_to_close : Tables → Value → Option JobRun
run_to_close t payload = if is_refused_early t payload then none else named_run t payload

of_not : (b : Bool) → not b ≡ false → b ≡ true
of_not true h = refl
of_not false h = absurd cc

true-false : true ≡ false → ⊥
true-false h = cc

required_id-ok :
    (refusal : Refusal) (o : Option ℕ)
    → is_given o ≡ true
    → (p : Option ℕ) × (required_id refusal o ≡ ok p) × (is_given p ≡ true)
required_id-ok refusal none h = absurd (ground (arith, h))
required_id-ok refusal (some id) h = (some id, refl, refl)

published-ok :
    (v : Value)
    → not (is_null v) && not (is_id v) ≡ false
    → (p : Option ℕ) × (read_published_job_id v ≡ ok p)
unfolding read_published_job_id
published-ok null h = (none, refl)
published-ok (str s) h =
    let (p, e, g) = required_id-ok _ (parse_uuid s) (of_not (is_given (parse_uuid s)) h) in (p, e)
published-ok (bool b) h = absurd (ground (arith, h))
published-ok (int n) h = absurd (ground (arith, h))
published-ok (float r) h = absurd (ground (arith, h))
published-ok (list s xs) h = absurd (ground (arith, h))
published-ok (dict s fs) h = absurd (ground (arith, h))

plan-ok :
    (v : Value)
    → is_text_value v && not (is_id v) ≡ false
    → (p : Option ℕ) × (read_execution_plan_id (text_or_none v) ≡ ok p) × (is_given p ≡ is_id v)
unfolding read_execution_plan_id
plan-ok (str s) h =
    let given : is_given (parse_uuid s) ≡ true = of_not (is_given (parse_uuid s)) h in
    let (p, e, g) = required_id-ok _ (parse_uuid s) given in (p, e, g ∙ sym given)
plan-ok null h = (none, refl, refl)
plan-ok (bool b) h = (none, refl, refl)
plan-ok (int n) h = (none, refl, refl)
plan-ok (float r) h = (none, refl, refl)
plan-ok (list s xs) h = (none, refl, refl)
plan-ok (dict s fs) h = (none, refl, refl)

check-ok :
    (probe : Bool) (v : Value)
    → is_bad_check probe v ≡ false
    → (p : Option ℕ) × (read_page_check_id probe v ≡ ok p)
unfolding read_page_check_id
check-ok true (str s) h =
    let (p, e, g) = required_id-ok _ (parse_uuid s) (of_not (is_given (parse_uuid s)) h) in (p, e)
check-ok false (str s) h =
    let (p, e, g) = required_id-ok _ (parse_uuid s) (of_not (is_given (parse_uuid s)) h) in (p, e)
check-ok true null h = (none, refl)
check-ok true (bool b) h = absurd (ground (arith, h))
check-ok true (int n) h = absurd (ground (arith, h))
check-ok true (float r) h = absurd (ground (arith, h))
check-ok true (list s xs) h = absurd (ground (arith, h))
check-ok true (dict s fs) h = absurd (ground (arith, h))
check-ok false null h = absurd (ground (arith, h))
check-ok false (bool b) h = absurd (ground (arith, h))
check-ok false (int n) h = absurd (ground (arith, h))
check-ok false (float r) h = absurd (ground (arith, h))
check-ok false (list s xs) h = absurd (ground (arith, h))
check-ok false (dict s fs) h = absurd (ground (arith, h))

given_id : (refusal : Refusal) (o : Option ℕ) → is_given o ≡ true → required_id refusal o ≡ ok o
given_id refusal none h = absurd (ground (arith, h))
given_id refusal (some id) h = refl

request-ok :
    (v : Value)
    → is_text_value v && not (is_id v) ≡ false
    → read_execution_request_id (text_or_none v) ≡ ok (parse_optional (text_or_none v))
unfolding read_execution_request_id parse_uuid
request-ok (str []) h = absurd (true-false h)
request-ok (str (c ∷ s)) h =
    given_id _ (parse_uuid (c ∷ s)) (of_not (is_given (parse_uuid (c ∷ s))) h)
request-ok null h = refl
request-ok (bool b) h = refl
request-ok (int n) h = refl
request-ok (float r) h = refl
request-ok (list s xs) h = refl
request-ok (dict s fs) h = refl

inputs_of-ok :
    (id : ℕ) (o : Option ExecutionRequest)
    → is_absent o ≡ false
    → (x : Value) × (inputs_of_request id o ≡ ok x)
inputs_of-ok id none h = absurd (ground (arith, h))
inputs_of-ok id (some r) h = (_, refl)

inputs-ok :
    (t : Tables) (o : Option ℕ) → is_missing t o ≡ false → (x : Value) × (runtime_inputs t o ≡ ok x)
unfolding runtime_inputs
inputs-ok t none h = (null, refl)
inputs-ok t (some id) h = inputs_of-ok id _ h

-- A result whose run is this one.
Links-bind :
    {A : Type 0} (linked : Option JobRun) (m : Result Refusal A) (f : A → Result Refusal Admitted)
    (a : A)
    → m ≡ ok a
    → linked_of (f a) ≡ linked
    → linked_of (m >>= f) ≡ linked
Links-bind linked m f a e h = rw e h

skip_for-Links :
    (linked : Option JobRun) (reason : Option Text) (f : Unit {0} → Result Refusal Admitted)
    → linked_of (f tt) ≡ linked
    → linked_of (skip_for linked reason >>= f) ≡ linked
skip_for-Links linked none f h = h
skip_for-Links linked (some reason) f h = refl

check_retirement-Links :
    (t : Tables) (probe : Bool) (check published : Option ℕ) (linked : Option JobRun)
    (f : Unit {0} → Result Refusal Admitted)
    → linked_of (f tt) ≡ linked
    → linked_of (check_retirement t probe check published linked >>= f) ≡ linked
unfolding check_retirement
check_retirement-Links t probe none published linked f h = h
check_retirement-Links t true (some id) published linked f h = h
check_retirement-Links t false (some id) published linked f h =
    skip_for-Links linked (resolve_retirement_skip_reason t id published) f h

found_run-Links :
    (raw : Text) (published : Option ℕ) (o : Option JobRun)
    (f : Option JobRun → Result Refusal Admitted)
    → ((linked : Option JobRun) → linked_of (f linked) ≡ linked)
    → linked_of (linked_run raw published o >>= f) ≡ o
found_run-Links raw published none f h = refl
found_run-Links raw published (some run) f h = elim (Bool-cases (is_of_other_job published run)) [
  | inl e ↦ rw e refl
  | inr e ↦ rw e (h (some run))
]

run_of_id-Links :
    (t : Tables) (raw : Text) (published id : Option ℕ)
    (f : Option JobRun → Result Refusal Admitted)
    → ((linked : Option JobRun) → linked_of (f linked) ≡ linked)
    → linked_of (run_of_id t raw published id >>= f) ≡ run_of t id
run_of_id-Links t raw published none f h = refl
run_of_id-Links t raw published (some id) f h = found_run-Links raw published _ f h

read_job_run-Links :
    (t : Tables) (published : Option ℕ) (v : Value) (f : Option JobRun → Result Refusal Admitted)
    → ((linked : Option JobRun) → linked_of (f linked) ≡ linked)
    → linked_of (read_job_run t published v >>= f) ≡ run_of t (parse_optional (text_or_none v))
unfolding read_job_run
read_job_run-Links t published null f h = h none
read_job_run-Links t published (str s) f h = run_of_id-Links t s published (parse_uuid s) f h
read_job_run-Links t published (bool b) f h = refl
read_job_run-Links t published (int n) f h = refl
read_job_run-Links t published (float r) f h = refl
read_job_run-Links t published (list s xs) f h = refl
read_job_run-Links t published (dict s fs) f h = refl

refuse_if-ok : (b : Bool) (refusal : Refusal) → b ≡ false → refuse_if b refusal ≡ ok tt
refuse_if-ok b refusal h = rw h refl

or_false : (a b : Bool) → a || b ≡ false → (a ≡ false) × (b ≡ false)
or_false a b h = (ground arith, ground arith)

-- Unless the payload is refused early, admission closes the run that it names.
pub admit-linked :
    (t : Tables) (payload : Value)
    → is_refused_early t payload ≡ false
    → linked_of (admit t payload) ≡ named_run t payload
unfolding is_refused_early admit
admit-linked t payload h =
    let linked = named_run t payload in
    let get = λ (key : Text). field_of key payload in
    let request = get (text "execution_request_id") in
    let b7 = is_missing t (parse_optional (text_or_none request)) in
    let b6 = is_bad_text request in
    let b5 = is_bad_check (is_probe (track_of payload)) (get (text "page_check_id")) in
    let b4 = lacks_plan payload in
    let b3 = is_bad_text (get (text "execution_plan_id")) in
    let b2 = is_realtime payload in
    let b1 = is_bad_published (get (text "published_job_id")) in
    let (r6, h7) = or_false (b1 || b2 || b3 || b4 || b5 || b6) b7 h in
    let (r5, h6) = or_false (b1 || b2 || b3 || b4 || b5) b6 r6 in
    let (r4, h5) = or_false (b1 || b2 || b3 || b4) b5 r5 in
    let (r3, h4) = or_false (b1 || b2 || b3) b4 r4 in
    let (r2, h3) = or_false (b1 || b2) b3 r3 in
    let (h1, h2) = or_false b1 b2 r2 in
    let (published, e1) = published-ok (get (text "published_job_id")) h1 in
    let (plan, e3, g) = plan-ok (get (text "execution_plan_id")) h3 in
    let (check, e5) = check-ok (is_probe (track_of payload)) (get (text "page_check_id")) h5 in
    let (inputs, e7) = inputs-ok t (parse_optional (text_or_none request)) h7 in
    let given : is_probe (track_of payload) && not (is_given plan) ≡ false = rw g h4 in
    Links-bind linked (read_published_job_id (get (text "published_job_id"))) _ published e1 (
      Links-bind linked _ _ tt (refuse_if-ok _ _ h2) (
        Links-bind linked _ _ plan e3 (
          Links-bind linked _ _ tt (refuse_if-ok _ _ given) (
            Links-bind linked _ _ check e5 (
              Links-bind linked _ _ _ (request-ok request h6) (
                Links-bind linked _ _ inputs e7 (
                  read_job_run-Links t published (get (text "job_run_id")) _ (λ run.
                    check_retirement-Links t (is_probe (track_of payload)) check published run _
                      refl))))))))
