-- ===== src/Scheduling/Jobs/Created.antt =====
-- What the creation of a published job promises: a job that its schedule triggers.
use runlet.Prelude.{
  ℕ, Bool, true, false, ◌≡◌, refl, sym, ap, ◌∙◌, Option, none, some, List, [], ◌∷◌, ◌++◌, Text,
  nat_eq, list_eq, option_eq, nat_beq_iff, ok, arith, Bool-cases, inl, inr,
}
use runlet.Scheduling.Clock.{DateTime}
use runlet.Scheduling.Cron.{cron_matches}
use runlet.Scheduling.Jobs.Rows.{is_active, ScriptRender, PublishedJob, Db}
use runlet.Scheduling.Jobs.Service.{
  get_job, runs_of, already_triggered_for_minute, scheduled, trigger_scheduled_job,
}
use runlet.Scheduling.Jobs.Publish.{
  CreatePublishedJobRequest, get_render, new_job, insert_job, create_published_job,
}

-- The one way in which a creation returns.
pub record IsCreated (db : Db) (request : CreatePublishedJobRequest) (id now : ℕ)
    (job : PublishedJob) (db' : Db) : Type 0 where
  pub render : ScriptRender
  pub is_new : new_job request render id now ≡ job
  pub appended : record db { published_jobs = db.published_jobs ++ job ∷ [] } ≡ db'

pub create_published_job-IsCreated :
    (accepts : Text → Bool) (db : Db) (request : CreatePublishedJobRequest) (id now : ℕ)
    {job : PublishedJob} {db' : Db}
    → create_published_job accepts db request id now ≡ ok (job, db')
    → IsCreated db request id now job db'
unfolding create_published_job insert_job
create_published_job-IsCreated accepts db request id now {job} {db'} h =
    elim (Bool-cases (accepts request.schedule_expr)) [
      | inl e ↦ go e (get_render request.script_render_id db.script_renders) refl
      | inr e ↦ absurd (ground (arith, e))
    ]
  where
    go :
        accepts request.schedule_expr ≡ true
        → (o : Option ScriptRender) → get_render request.script_render_id db.script_renders ≡ o
        → IsCreated db request id now job db'
    go e none k = absurd (ground (arith, e, k, h))
    go e (some render) k =
        let is_new : new_job request render id now ≡ job = ground (arith, e, k, h) in
        record {
          render = render;
          is_new = is_new;
          appended =
              ap (λ (j : PublishedJob). record db { published_jobs = db.published_jobs ++ j ∷ [] })
                (sym is_new)
              ∙ ground (arith, e, k, h);
        }

get_job-append_one :
    (id : ℕ) (jobs : List PublishedJob) (job : PublishedJob)
    → get_job id jobs ≡ none
    → job.id ≡ id
    → get_job id (jobs ++ job ∷ []) ≡ some job
unfolding get_job
get_job-append_one id [] job h own = ground (arith, nat_beq_iff job.id id)
get_job-append_one id (j ∷ jobs) job h own =
    ground (arith, nat_beq_iff j.id id, get_job-append_one id jobs job)

scheduled-cron :
    (db : Db) (at : DateTime) (run_id queued_id : ℕ) (job : PublishedJob)
    → is_active job.state ≡ true
    → already_triggered_for_minute db job.id at ≡ false
    → (scheduled db at run_id queued_id (some job)).0 ≡ cron_matches job.schedule_expr at
scheduled-cron db at run_id queued_id job a n = ground arith

-- A job that is created enabled, under an id that no job and no run has, is triggered by the
-- scheduler's first call exactly if its schedule expression matches the time of the call.
pub create_published_job-triggered :
    (accepts : Text → Bool) (db : Db) (request : CreatePublishedJobRequest) (id now : ℕ)
    (at : DateTime) (run_id queued_id : ℕ) {job : PublishedJob} {db' : Db}
    → request.enabled ≡ true
    → get_job id db.published_jobs ≡ none
    → runs_of db id ≡ []
    → create_published_job accepts db request id now ≡ ok (job, db')
    → (trigger_scheduled_job db' id at run_id queued_id).0 ≡ cron_matches request.schedule_expr at
unfolding trigger_scheduled_job already_triggered_for_minute new_job
create_published_job-triggered accepts db request id now at run_id queued_id {job} {db'} on fresh
      no_runs h =
    let created = create_published_job-IsCreated accepts db request id now h in
    let own : job.id ≡ id = ap (λ (j : PublishedJob). j.id) (sym created.is_new) in
    let expr : job.schedule_expr ≡ request.schedule_expr =
      ap (λ (j : PublishedJob). j.schedule_expr) (sym created.is_new) in
    let live : is_active job.state ≡ true =
      ap (λ (j : PublishedJob). is_active j.state) (sym created.is_new) ∙ rw on refl in
    rw (← created.appended, get_job-append_one id db.published_jobs job fresh own)
      (scheduled-cron _ at run_id queued_id job live (rw (own, no_runs) refl)
        ∙ ap (λ e. cron_matches e at) expr)
