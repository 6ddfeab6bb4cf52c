-- ===== src/Scheduling/Jobs/Pausing.antt =====
-- What pausing and resuming published jobs does.
use runlet.Prelude.{
  ℕ, ◌+◌, map, Bool, true, false, ◌&&◌, ◌≡◌, refl, ap, ◌∙◌, Option, none, some, List, [], ◌∷◌, Text,
  strip, is_empty, nat_eq, nat_beq_iff, contains, dedupe, contains-dedupe, All, arith, Bool-cases,
  inl, inr, ok,
}
use runlet.Scheduling.Clock.{DateTime}
use runlet.Scheduling.Jobs.Rows.{active, is_active, is_paused, PublishedJob, Db}
use runlet.Scheduling.Jobs.Service.{
  validate_required_text, get_job, scheduled, trigger_scheduled_job, pause_job, resume_job,
  update_jobs, with_jobs, pause_published_jobs_by_ids, resume_published_jobs_by_ids,
}

-- A job that is active and that no pause has marked.
pub record IsUnpaused (job : PublishedJob) : Type 0 where
  pub state : job.state ≡ active
  pub reason : job.pause_reason ≡ none
  pub snapshot : job.paused_by_snapshot_id ≡ none
  pub asset : job.paused_by_asset_id ≡ none
  pub page_check : job.paused_by_page_check_id ≡ none

-- A job without the time of its last write.
abbrev pub timeless : PublishedJob → PublishedJob
timeless job = record job { updated_at = 0 }

timeless-resume-pause_job :
    (reason : Text) (snapshot_id : ℕ) (now later : ℕ → ℕ) (job : PublishedJob)
    → IsUnpaused job
    → timeless (resume_job later (pause_job reason snapshot_id now job)) ≡ timeless job
timeless-resume-pause_job reason snapshot_id now later job h = ground arith

module _ (ids : List ℕ) where
  abbrev to_pause : PublishedJob → Bool
  to_pause job = contains job.id ids && is_active job.state

  abbrev to_resume : PublishedJob → Bool
  to_resume job = contains job.id ids && is_paused job.state

module _ (ids : List ℕ) (reason : Text) (snapshot_id : ℕ) (now : ℕ → ℕ) where
  update-update :
      (later : ℕ → ℕ) (jobs : List PublishedJob)
      → All (λ job. contains job.id ids ≡ true → IsUnpaused job) jobs
      → let paused = update_jobs (to_pause ids) (pause_job reason snapshot_id now) jobs in
        let resumed = update_jobs (to_resume ids) (resume_job later) paused.1 in
        (resumed.0 ≡ paused.0) × (map timeless resumed.1 ≡ map timeless jobs)
  unfolding update_jobs
  update-update later [] h = (refl, refl)
  update-update later (job ∷ jobs) h = elim (Bool-cases (contains job.id ids)) [
    | inl e ↦
        let unpaused = h.0 e in
        let live : is_active job.state ≡ true = ap is_active unpaused.state in
        let rest = update-update later jobs h.1 in
        rw (e, live)
          (rw e (
            ap (λ n. n + 1) rest.0,
            rw (timeless-resume-pause_job reason snapshot_id now later job unpaused)
                (ap (◌∷◌ (timeless job)) rest.1),
          ))
    | inr e ↦
        let rest = update-update later jobs h.1 in
        rw e (rw e (rest.0, ap (◌∷◌ (timeless job)) rest.1))
  ]

  -- A paused job is not active, and the others are as they were.
  get_job-update :
      (id : ℕ) (jobs : List PublishedJob) {job : PublishedJob}
      → contains id ids ≡ true
      → get_job id (update_jobs (to_pause ids) (pause_job reason snapshot_id now) jobs).1 ≡ some job
      → is_active job.state ≡ false
  unfolding update_jobs get_job
  get_job-update id [] c h = cc
  get_job-update id (j ∷ jobs) {job} c h =
      ground (arith, nat_beq_iff j.id id, get_job-update id jobs {job = job})

paused_db :
    (db : Db) (ids : List ℕ) (snapshot_id : ℕ) (reason : Text) (now : ℕ → ℕ) {n : ℕ} {db' : Db}
    → pause_published_jobs_by_ids db ids snapshot_id reason now ≡ ok (n, db')
    → is_empty (dedupe ids) ≡ false
    → with_jobs db (
        update_jobs
          (to_pause (dedupe ids))
          (pause_job (strip reason) snapshot_id now)
          db.published_jobs)
      ≡ (n, db')
unfolding pause_published_jobs_by_ids validate_required_text
paused_db db ids snapshot_id reason now h e = elim (Bool-cases (is_empty (strip reason))) [
  | inl b ↦ absurd (ground (arith, b, h))
  | inr b ↦ ground (arith, b, h, e)
]

untouched_db :
    (db : Db) (ids : List ℕ) (snapshot_id : ℕ) (reason : Text) (now : ℕ → ℕ) {n : ℕ} {db' : Db}
    → pause_published_jobs_by_ids db ids snapshot_id reason now ≡ ok (n, db')
    → is_empty (dedupe ids) ≡ true
    → (n ≡ 0) × (db' ≡ db)
unfolding pause_published_jobs_by_ids validate_required_text
untouched_db db ids snapshot_id reason now h e = elim (Bool-cases (is_empty (strip reason))) [
  | inl b ↦ absurd (ground (arith, b, h))
  | inr b ↦ (ground (arith, b, h, e), ground (arith, b, h, e))
]

-- The tables without the times of the last writes of the published jobs.
abbrev pub timeless_jobs : Db → Db
timeless_jobs db = record db { published_jobs = map timeless db.published_jobs }

-- A pause of the ids, then a resume of the same ids, counts the same jobs and gives the tables back
-- but for the times of the last writes, if no job of the ids was paused or marked before.
pub resume-pause :
    (db : Db) (ids : List ℕ) (snapshot_id : ℕ) (reason : Text) (now later : ℕ → ℕ) {n : ℕ}
    {db' : Db}
    → All (λ job. contains job.id (dedupe ids) ≡ true → IsUnpaused job) db.published_jobs
    → pause_published_jobs_by_ids db ids snapshot_id reason now ≡ ok (n, db')
    → ((resume_published_jobs_by_ids db' ids later).0 ≡ n)
      × (timeless_jobs (resume_published_jobs_by_ids db' ids later).1 ≡ timeless_jobs db)
unfolding resume_published_jobs_by_ids
resume-pause db ids snapshot_id reason now later {n} {db'} h paused_ids =
    elim (Bool-cases (is_empty (dedupe ids))) [
      | inl e ↦
          let same = untouched_db db ids snapshot_id reason now paused_ids e in
          rw (e, same.0, same.1) (refl, refl)
      | inr e ↦
          let same = paused_db db ids snapshot_id reason now paused_ids e in
          let same_n = ap (λ p. p.0) same in
          let same_db = ap (λ p. p.1) same in
          let back =
            update-update (dedupe ids) (strip reason) snapshot_id now later db.published_jobs h in
          rw (e, ← same_db, ← same_n)
            (back.0, ap (λ jobs. record db { published_jobs = jobs }) back.1)
    ]

-- An id of the list leaves it with an element.
dedupe_not_empty : (id : ℕ) (ids : List ℕ) → contains id ids ≡ true → is_empty (dedupe ids) ≡ false
unfolding contains
dedupe_not_empty id ids c = go (dedupe ids) (contains-dedupe id ids ∙ c)
  where
    go : (l : List ℕ) → contains id l ≡ true → is_empty l ≡ false
    go [] h = cc
    go (x ∷ l) h = refl

not_active-not_scheduled :
    (db : Db) (at : DateTime) (run_id queued_id : ℕ) (o : Option PublishedJob)
    → ((job : PublishedJob) → o ≡ some job → is_active job.state ≡ false)
    → scheduled db at run_id queued_id o ≡ (false, db)
not_active-not_scheduled db at run_id queued_id none h = refl
not_active-not_scheduled db at run_id queued_id (some job) h =
    let stopped : is_active job.state ≡ false = h job refl in ground arith

-- After a pause that returns, the scheduler triggers no job of the paused ids, at any time, and
-- changes nothing.
pub paused-never-triggered :
    (db : Db) (ids : List ℕ) (snapshot_id : ℕ) (reason : Text) (now : ℕ → ℕ) (id : ℕ)
    (at : DateTime) (run_id queued_id : ℕ) {n : ℕ} {db' : Db}
    → contains id ids ≡ true
    → pause_published_jobs_by_ids db ids snapshot_id reason now ≡ ok (n, db')
    → trigger_scheduled_job db' id at run_id queued_id ≡ (false, db')
unfolding trigger_scheduled_job
paused-never-triggered db ids snapshot_id reason now id at run_id queued_id {n} {db'} c h =
    let same = paused_db db ids snapshot_id reason now h (dedupe_not_empty id ids c) in
    let same_db = ap (λ p. p.1) same in
    not_active-not_scheduled db' at run_id queued_id (get_job id db'.published_jobs) (λ job e.
      get_job-update (dedupe ids) (strip reason) snapshot_id now id db.published_jobs {job = job}
        (contains-dedupe id ids ∙ c) (ap (λ (d : Db). get_job id d.published_jobs) same_db ∙ e))
