-- ===== src/Worker/Oldest.antt =====
-- Which job a worker claims.
use runlet.Prelude.{
  Bool, true, false, ltb, ◌&&◌, not, ◌≡◌, refl, sym, ◌∙◌, some, List, [], ◌∷◌, ◌==◌, nat_eq,
  beq_refl, filter, any, any_mono, any-filter, first, sort, arith, Bool-cases, inl, inr,
}
use runlet.Prelude.Sort.{insert_sorted, any-insert_sorted, any-sort, first-some}
use runlet.Worker.Runner.{QueuedJob, is_accepted, oldest_first, next_accepted_job}

any_mono_false :
    (p q : QueuedJob → Bool) (jobs : List QueuedJob)
    → ((job : QueuedJob) → p job ≡ true → q job ≡ true)
    → any q jobs ≡ false
    → any p jobs ≡ false
any_mono_false p q jobs h k = elim (Bool-cases (any p jobs)) [
  | inl e ↦ absurd (ground (arith, any_mono p q jobs h e, k))
  | inr e ↦ e
]

oldest_first_trans :
    (a b c : QueuedJob)
    → oldest_first a b ≡ true
    → oldest_first b c ≡ true
    → oldest_first a c ≡ true
oldest_first_trans a b c h k = ground arith

-- Some job of the list comes before the job.
abbrev has_older : QueuedJob → List QueuedJob → Bool
has_older a jobs = any (λ job. not (oldest_first a job)) jobs

-- The first job of the list comes before every other.
abbrev IsFirstOldest : List QueuedJob → Type 0
IsFirstOldest jobs = (a : QueuedJob) → first jobs ≡ some a → has_older a jobs ≡ false

has_older_trans :
    (a b : QueuedJob) (jobs : List QueuedJob)
    → oldest_first a b ≡ true
    → has_older b jobs ≡ false
    → has_older a jobs ≡ false
has_older_trans a b jobs h k = elim (Bool-cases (has_older a jobs)) [
  | inl e ↦ absurd (
      ground (
        arith,
        any_mono (λ job. not (oldest_first a job)) (λ job. not (oldest_first b job)) jobs
            (λ job n. ground (arith, oldest_first_trans a b job h)) e,
      ))
  | inr e ↦ e
]

first-insert_sorted :
    (a x : QueuedJob) (ys : List QueuedJob)
    → first (insert_sorted oldest_first x ys) ≡ some a
    → (oldest_first a x ≡ true) × ((b : QueuedJob) → first ys ≡ some b → oldest_first a b ≡ true)
unfolding insert_sorted
first-insert_sorted a x [] h = (ground arith, λ b e. absurd cc)
first-insert_sorted a x (y ∷ ys) h = (ground arith, λ b e. ground arith)

insert_sorted-IsFirstOldest :
    (x : QueuedJob) (ys : List QueuedJob)
    → IsFirstOldest ys
    → IsFirstOldest (insert_sorted oldest_first x ys)
unfolding any
insert_sorted-IsFirstOldest x [] h a e =
    any-insert_sorted oldest_first (λ job. not (oldest_first a job)) x []
    ∙ ground (arith, (first-insert_sorted a x [] e).0)
insert_sorted-IsFirstOldest x (y ∷ ys) h a e =
    let before = first-insert_sorted a x (y ∷ ys) e in
    any-insert_sorted oldest_first (λ job. not (oldest_first a job)) x (y ∷ ys)
    ∙ ground (arith, before.0, has_older_trans a y (y ∷ ys) (before.1 y refl) (h y refl))

sort-IsFirstOldest : (jobs : List QueuedJob) → IsFirstOldest (sort oldest_first jobs)
unfolding sort any
sort-IsFirstOldest [] = λ a e. refl
sort-IsFirstOldest (x ∷ jobs) =
    insert_sorted-IsFirstOldest x (sort oldest_first jobs) (sort-IsFirstOldest jobs)

first_sorted-oldest :
    (jobs : List QueuedJob) {job : QueuedJob}
    → next_accepted_job jobs ≡ some job
    → any (λ other. is_accepted other.status && not (oldest_first job other)) jobs ≡ false
unfolding next_accepted_job
first_sorted-oldest jobs {job} h =
    let claimable : QueuedJob → Bool = λ other. is_accepted other.status in
    let older : QueuedJob → Bool = λ other. not (oldest_first job other) in
    sym (any-filter claimable older jobs)
    ∙ sym (any-sort oldest_first older (filter claimable jobs))
    ∙ sort-IsFirstOldest (filter claimable jobs) job h

-- The job that a worker claims stands in the queue as an accepted job; no accepted job has a smaller
-- time of creation, and none with the same time has a smaller id.
pub next_accepted_job-oldest :
    (jobs : List QueuedJob) {job : QueuedJob}
    → next_accepted_job jobs ≡ some job
    → (any (λ other. other.id == job.id && is_accepted other.status) jobs ≡ true)
      × (any (λ other. is_accepted other.status && ltb other.created_at job.created_at) jobs
          ≡ false)
      × (any
            (λ other.
              is_accepted other.status && other.created_at == job.created_at && ltb other.id job.id)
            jobs
          ≡ false)
unfolding next_accepted_job
next_accepted_job-oldest jobs {job} h =
    let claimable : QueuedJob → Bool = λ other. is_accepted other.status in
    let older : QueuedJob → Bool = λ other. claimable other && not (oldest_first job other) in
    let none_older : any older jobs ≡ false = first_sorted-oldest jobs h in
    (
      first-some oldest_first claimable jobs (λ other. other.id == job.id) h (beq_refl job.id),
      any_mono_false (λ other. claimable other && ltb other.created_at job.created_at) older jobs
          (λ other k. ground arith) none_older,
      any_mono_false
          (λ other. claimable other && other.created_at == job.created_at && ltb other.id job.id)
          older jobs (λ other k. ground arith) none_older,
    )
