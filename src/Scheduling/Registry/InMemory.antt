-- ===== src/Scheduling/Registry/InMemory.antt =====
-- A scheduler that keeps its jobs in a dict, for the examples; it accepts every crontab.
use runlet.Prelude.{
  true, not, ◌≡◌, refl, Option, none, some, [], ◌∷◌, Text, if◌then◌else◌, ◌==◌, nat_eq, list_eq,
  list_beq_iff, filter, Dict, lookup, insert, lookup-insert, arith,
}
use runlet.Scheduling.Registry.Scheduler.{ScheduledJob, Scheduler}

abbrev pub Jobs : Type 0
Jobs = Dict Text ScheduledJob

erase : Text → Jobs → Jobs
unfolding filter
erase id s = filter (λ (e : Text × ScheduledJob). not (e.0 == id)) s

abbrev erased : Text → Jobs → Option ScheduledJob → Option Jobs
erased id s none = none
erased id s (some job) = some (erase id s)

unfoldable pub remove : Text → Jobs → Option Jobs
unfolding erase lookup
remove id s = erased id s (lookup id s)

lookup-erase :
    (id j : Text) (s : Jobs) → lookup j (erase id s) ≡ (if id == j then none else lookup j s)
unfolding erase lookup
lookup-erase id j [] = ground arith
lookup-erase id j ((k, job) ∷ s) = ground (
  arith,
  list_beq_iff k id,
  list_beq_iff id j,
  list_beq_iff k j,
  list_beq_iff id k,
  list_beq_iff j k,
  lookup-erase id j s,
)

pub lookup-remove :
    (id j : Text) (s s' : Jobs)
    → remove id s ≡ some s'
    → lookup j s' ≡ (if id == j then none else lookup j s)
unfolding remove
lookup-remove id j s s' h = go (lookup id s) h
  where
    go :
        (o : Option ScheduledJob)
        → erased id s o ≡ some s'
        → lookup j s' ≡ (if id == j then none else lookup j s)
    go none e = absurd (ground (arith, e))
    go (some job) e =
        let same : erase id s ≡ s' = ground (arith, e) in rw (← same) (lookup-erase id j s)

pub remove_absent : (id : Text) (s : Jobs) → remove id s ≡ none → lookup id s ≡ none
unfolding remove
remove_absent id s h = go (lookup id s) h
  where
    go : (o : Option ScheduledJob) → erased id s o ≡ none → o ≡ none
    go none e = refl
    go (some job) e = absurd (ground (arith, e))

abbrev pub in_memory : Scheduler Jobs
in_memory = record {
  accepts_crontab = λ expr timezone. true;
  add_job = insert;
  remove_job = remove;
  get_job = lookup;
  get_job-add_job = λ id j job s. lookup-insert id j job s;
  get_job-remove_job = lookup-remove;
  remove_job_absent = remove_absent;
}
