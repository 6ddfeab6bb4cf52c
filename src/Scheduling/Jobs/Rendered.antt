-- ===== src/Scheduling/Jobs/Rendered.antt =====
-- Which script render a job that is created from an execution runs.
use mathlib.Core.Path.{subst}
use runlet.Prelude.{
  ℕ, Bool, true, ◌&&◌, ◌≡◌, refl, sym, ap, ◌∙◌, Option, none, some, List, [], ◌∷◌, Text, text, ◌==◌,
  nat_eq, list_eq, option_eq, option_beq_iff, beq_refl, nat_beq_iff, filter, any, any_mono, first,
  sort, Result, ok, raise, ◌>>=◌, arith, Bool-cases, inl, inr,
}
use runlet.Prelude.Sort.{first-some}
use runlet.Scheduling.Jobs.Rows.{ScriptRender, PublishedJob, Db}
use runlet.Scheduling.Jobs.Service.{ServiceError, validate_required_text}
use runlet.Scheduling.Jobs.Publish.{
  CreatePublishedJobRequest, new_request, get_render, new_job, create_published_job, newest_render,
  is_published_of, set_plan, matches_page_check, with_plan, rendered, reuse_or_render,
  get_or_render_published_script, create_published_job_from_execution,
}
use runlet.Scheduling.Jobs.Created.{create_published_job-IsCreated}

-- A render of this id belongs to the plan.
abbrev pub is_of_plan : ℕ → ℕ → ScriptRender → Bool
is_of_plan id plan_id render = render.id == id && render.execution_plan_id == some plan_id

any-set_plan :
    (id plan_id : ℕ) (renders : List ScriptRender) {render : ScriptRender}
    → get_render id renders ≡ some render
    → any (is_of_plan id plan_id) (set_plan id plan_id renders) ≡ true
unfolding get_render set_plan any
any-set_plan id plan_id [] h = cc
any-set_plan id plan_id (r ∷ rest) {render} h = ground (
  arith,
  nat_beq_iff r.id id,
  option_beq_iff (some plan_id) (some plan_id),
  any-set_plan id plan_id rest {render = render},
)

-- What holds of a call that gives a script render.
abbrev IsOfPlan : ℕ → Result ServiceError (ℕ × Db) → Type 0
IsOfPlan plan_id (ok (id, db)) = any (is_of_plan id plan_id) db.script_renders ≡ true
IsOfPlan plan_id (raise e) = Unit

-- What holds of a call that creates a job.
abbrev RunsPlan : ℕ → Result ServiceError (PublishedJob × Db) → Type 0
RunsPlan plan_id (ok (job, db)) =
    (id : ℕ) × (job.script_render_id ≡ some id)
    × (any (is_of_plan id plan_id) db.script_renders ≡ true)
RunsPlan plan_id (raise e) = Unit

new_request-script_render_id :
    (id page_check_id : ℕ) (type expr source : Text) (enabled : Bool)
    {request : CreatePublishedJobRequest}
    → new_request id page_check_id type expr source enabled ≡ ok request
    → request.script_render_id ≡ id
unfolding new_request validate_required_text
new_request-script_render_id id page_check_id type expr source enabled {request} h = ground arith

created-RunsPlan :
    (accepts : Text → Bool) (db : Db) (request : CreatePublishedJobRequest) (id plan_id now : ℕ)
    → any (is_of_plan request.script_render_id plan_id) db.script_renders ≡ true
    → RunsPlan plan_id (create_published_job accepts db request id now)
unfolding new_job
created-RunsPlan accepts db request id plan_id now h =
    go (create_published_job accepts db request id now) refl
  where
    go :
        (r : Result ServiceError (PublishedJob × Db))
        → create_published_job accepts db request id now ≡ r
        → RunsPlan plan_id r
    go (raise e) k = tt
    go (ok (job, db')) k =
        let created = create_published_job-IsCreated accepts db request id now k in
        (
          request.script_render_id,
          ap (λ (j : PublishedJob). j.script_render_id) (sym created.is_new),
          ap (λ (d : Db). any (is_of_plan request.script_render_id plan_id) d.script_renders)
                (sym created.appended)
              ∙ h,
        )

module _ (render_page_check : Db → ℕ → ℕ × Db) (db : Db) (plan_id page_check_id : ℕ) where
  rendered-IsOfPlan : IsOfPlan plan_id (rendered render_page_check db plan_id page_check_id)
  rendered-IsOfPlan = go (get_render id db'.script_renders) refl
    where
      id : ℕ
      id = (render_page_check db page_check_id).0

      db' : Db
      db' = (render_page_check db page_check_id).1

      go :
          (o : Option ScriptRender)
          → get_render id db'.script_renders ≡ o
          → IsOfPlan plan_id (with_plan id plan_id db' o)
      go none e = tt
      go (some render) e = any-set_plan id plan_id db'.script_renders e

  get_or_render-IsOfPlan :
      IsOfPlan plan_id (get_or_render_published_script render_page_check db plan_id page_check_id)
  unfolding get_or_render_published_script
  get_or_render-IsOfPlan =
      go (first (sort newest_render (filter (is_published_of plan_id) db.script_renders))) refl
    where
      go :
          (o : Option ScriptRender)
          → first (sort newest_render (filter (is_published_of plan_id) db.script_renders)) ≡ o
          → IsOfPlan plan_id (reuse_or_render render_page_check db plan_id page_check_id o)
      go none e = rendered-IsOfPlan
      go (some render) e = elim (Bool-cases (matches_page_check render page_check_id)) [
        | inl m ↦ rw m (
            any_mono (λ r. r.id == render.id && is_published_of plan_id r)
              (is_of_plan render.id plan_id) db.script_renders (λ r k. ground arith)
              (first-some newest_render (is_published_of plan_id) db.script_renders
                (λ r. r.id == render.id) e (beq_refl render.id)))
        | inr m ↦ rw m rendered-IsOfPlan
      ]

-- Whatever the renderer does, a job that is created from an execution runs a script render of the
-- tables that belongs to the execution's plan.
pub create_published_job_from_execution-is_of_plan :
    (render_page_check : Db → ℕ → ℕ × Db) (accepts : Text → Bool) (db : Db)
    (plan_id page_check_id : ℕ) (expr source : Text) (enabled : Bool) (id now : ℕ)
    {job : PublishedJob} {db' : Db}
    → create_published_job_from_execution render_page_check accepts db plan_id page_check_id expr
        source enabled id now
      ≡ ok (job, db')
    → (render_id : ℕ) × (job.script_render_id ≡ some render_id)
      × (any (is_of_plan render_id plan_id) db'.script_renders ≡ true)
unfolding create_published_job_from_execution
create_published_job_from_execution-is_of_plan render_page_check accepts db plan_id page_check_id
      expr source enabled id now h =
    subst (RunsPlan plan_id) h (
      go (get_or_render_published_script render_page_check db plan_id page_check_id)
        (get_or_render-IsOfPlan render_page_check db plan_id page_check_id))
  where
    rest : ℕ × Db → Result ServiceError (PublishedJob × Db)
    rest (render_id, db') =
        new_request render_id page_check_id (text "cron") expr source enabled >>= λ request.
        create_published_job accepts db' request id now

    requested :
        (render_id : ℕ) (db' : Db) (r : Result ServiceError CreatePublishedJobRequest)
        → new_request render_id page_check_id (text "cron") expr source enabled ≡ r
        → any (is_of_plan render_id plan_id) db'.script_renders ≡ true
        → RunsPlan plan_id (r >>= λ request. create_published_job accepts db' request id now)
    requested render_id db' (raise e) k p = tt
    requested render_id db' (ok request) k p = created-RunsPlan accepts db' request id plan_id now (
        subst (λ (n : ℕ). any (is_of_plan n plan_id) db'.script_renders ≡ true)
          (sym (
            new_request-script_render_id render_id page_check_id (text "cron") expr source enabled
              k))
          p)

    go : (g : Result ServiceError (ℕ × Db)) → IsOfPlan plan_id g → RunsPlan plan_id (g >>= rest)
    go (raise e) p = tt
    go (ok (render_id, db')) p = requested render_id db' _ refl p
