-- ===== src/Scheduling/Registry/Refines.antt =====
-- What load_all_from_db leaves in the scheduler.
use runlet.Prelude.{
  ℕ, Bool, true, false, not, ◌≡◌, refl, ap, Option, none, some, List, [], ◌∷◌, map, Text,
  if◌then◌else◌, ◌==◌, nat_eq, list_eq, list_beq_iff, drop, Result, ok, Bool-cases, inl, inr, arith,
}
use runlet.Scheduling.Jobs.Rows.{is_active, PublishedJob}
use runlet.Scheduling.Jobs.Service.{get_job}
use runlet.Scheduling.Policies.{SystemAuthPolicy, SystemCrawlPolicy, Tables, find_row}
use runlet.Scheduling.Registry.Scheduler.{ScheduledJob, Scheduler}
use runlet.Scheduling.Registry.Upsert.{
  build_published_job_id, build_auth_policy_job_id, build_crawl_policy_job_id, CrontabError,
  or_unchanged, remove_job, upsert_job, upsert_published_job, upsert_auth_row, upsert_auth_policy,
  upsert_crawl_row, upsert_crawl_policy, for_each, load_all_from_db,
}
use runlet.Scheduling.Registry.Keys.{
  IsInjective, uuid_text_injective, distinct_keys, IsFound, find_row_self,
}
use runlet.Scheduling.Registry.Overlay.{owned, Places, for_each-owned, All_zip}
use runlet.Scheduling.Registry.Planned.{
  published_entry, auth_entry, crawl_entry, wanted, auth_runs, crawl_runs, planned_job, IsKeyed,
  IsAccepted, AllAccepted,
}

published_key-IsInjective : IsInjective build_published_job_id
unfolding drop
published_key-IsInjective a b h k e = uuid_text_injective a b h k (ap (drop 14) e)

auth_key-IsInjective : IsInjective build_auth_policy_job_id
unfolding drop
auth_key-IsInjective a b h k e = uuid_text_injective a b h k (ap (drop 12) e)

crawl_key-IsInjective : IsInjective build_crawl_policy_job_id
unfolding drop
crawl_key-IsInjective a b h k e = uuid_text_injective a b h k (ap (drop 13) e)

module _ {S : Type 0} (scheduler : Scheduler S) where
  -- Removing or writing, by whether the row runs.
  sync : Text → Bool → ScheduledJob → S → Result (CrontabError × S) S
  unfolding remove_job upsert_job
  sync key runs e s =
      if not runs then ok (remove_job scheduler key s) else upsert_job scheduler key e s

  get_job-removed :
      (key j : Text) (s : S)
      → scheduler.get_job j (remove_job scheduler key s)
        ≡ (if key == j then none else scheduler.get_job j s)
  unfolding remove_job
  get_job-removed key j s = go (scheduler.remove_job key s) refl
    where
      go :
          (o : Option S)
          → scheduler.remove_job key s ≡ o
          → scheduler.get_job j (or_unchanged scheduler s o)
            ≡ (if key == j then none else scheduler.get_job j s)
      go none e = elim (Bool-cases (key == j)) [
        | inl k ↦
            let same : key ≡ j = (list_beq_iff key j).0 k in
            rw k (rw same at (scheduler.remove_job_absent key s e))
        | inr k ↦ rw k
      ]
      go (some s') e = scheduler.get_job-remove_job key j s s' e

  sync_places :
      (key : Text) (runs : Bool) (e : ScheduledJob) (s : S)
      → IsAccepted scheduler runs e
      → (s' : S) × (sync key runs e s ≡ ok s')
        × ((j : Text)
            → scheduler.get_job j s' ≡ (if key == j then wanted runs e else scheduler.get_job j s))
  unfolding sync upsert_job
  sync_places key true e s a =
      (scheduler.add_job key e s, rw a, λ j. scheduler.get_job-add_job key j e s)
  sync_places key false e s a = (remove_job scheduler key s, refl, λ j. get_job-removed key j s)

  get_job-find_row :
      (id : ℕ) (rows : List PublishedJob) → get_job id rows ≡ find_row (λ r. r.id) id rows
  unfolding get_job find_row
  get_job-find_row id [] = refl
  get_job-find_row id (r ∷ rows) = ground (arith, get_job-find_row id rows)

  module _ (t : Tables) where
    abbrev PublishedPlaces : PublishedJob → Type 0
    PublishedPlaces =
        Places scheduler (λ r. r.id) (λ r. build_published_job_id r.id)
          (λ r. wanted (is_active r.state) (published_entry r)) (upsert_published_job scheduler t)

    published_places :
        (r : PublishedJob)
        → IsFound (λ r. r.id) t.jobs.published_jobs r
        → IsAccepted scheduler (is_active r.state) (published_entry r)
        → PublishedPlaces r
    unfolding upsert_published_job sync
    published_places r found a s =
        rw (get_job-find_row r.id t.jobs.published_jobs, found)
          (sync_places (build_published_job_id r.id) (is_active r.state) (published_entry r) s a)

    abbrev AuthPlaces : SystemAuthPolicy → Type 0
    AuthPlaces =
        Places scheduler (λ p. p.id) (λ p. build_auth_policy_job_id p.system_id)
          (λ p. wanted (auth_runs p) (auth_entry p)) (upsert_auth_policy scheduler t)

    auth_row_sync :
        (p : SystemAuthPolicy) (s : S)
        → upsert_auth_row scheduler s (some p)
          ≡ sync (build_auth_policy_job_id p.system_id) (auth_runs p) (auth_entry p) s
    unfolding sync
    auth_row_sync p s = ground arith

    auth_places :
        (p : SystemAuthPolicy)
        → IsFound (λ p. p.id) t.auth_policies p
        → IsAccepted scheduler (auth_runs p) (auth_entry p)
        → AuthPlaces p
    unfolding upsert_auth_policy
    auth_places p found a s =
        rw (found, auth_row_sync p s)
          (sync_places (build_auth_policy_job_id p.system_id) (auth_runs p) (auth_entry p) s a)

    abbrev CrawlPlaces : SystemCrawlPolicy → Type 0
    CrawlPlaces =
        Places scheduler (λ p. p.id) (λ p. build_crawl_policy_job_id p.system_id)
          (λ p. wanted (crawl_runs p) (crawl_entry p)) (upsert_crawl_policy scheduler t)

    crawl_row_sync :
        (p : SystemCrawlPolicy) (s : S)
        → upsert_crawl_row scheduler s (some p)
          ≡ sync (build_crawl_policy_job_id p.system_id) (crawl_runs p) (crawl_entry p) s
    unfolding sync
    crawl_row_sync p s = ground arith

    crawl_places :
        (p : SystemCrawlPolicy)
        → IsFound (λ p. p.id) t.crawl_policies p
        → IsAccepted scheduler (crawl_runs p) (crawl_entry p)
        → CrawlPlaces p
    unfolding upsert_crawl_policy
    crawl_places p found a s =
        rw (found, crawl_row_sync p s)
          (sync_places (build_crawl_policy_job_id p.system_id) (crawl_runs p) (crawl_entry p) s a)

    load_published :
        (s : S)
        → IsKeyed t
        → AllAccepted scheduler t
        → (s' : S) × (for_each scheduler
              (upsert_published_job scheduler t)
              (map (λ (r : PublishedJob). r.id) t.jobs.published_jobs)
              s
            ≡ ok s')
          × ((j : Text)
              → scheduler.get_job j s'
                ≡ owned
                    (λ r. build_published_job_id r.id)
                    (λ r. wanted (is_active r.state) (published_entry r))
                    t.jobs.published_jobs
                    j
                    (scheduler.get_job j s))
    load_published s keyed accepted =
        for_each-owned scheduler (λ (r : PublishedJob). r.id) (λ r. build_published_job_id r.id)
          (λ r. wanted (is_active r.state) (published_entry r)) (upsert_published_job scheduler t)
          t.jobs.published_jobs s
          (distinct_keys build_published_job_id (λ (r : PublishedJob). r.id) t.jobs.published_jobs
            published_key-IsInjective keyed.published_uuids keyed.published_distinct)
          (All_zip {R = PublishedPlaces} t.jobs.published_jobs published_places
            (find_row_self (λ (r : PublishedJob). r.id) t.jobs.published_jobs
              keyed.published_distinct)
            accepted.published)

    load_auth :
        (s : S)
        → IsKeyed t
        → AllAccepted scheduler t
        → (s' : S) × (for_each scheduler
              (upsert_auth_policy scheduler t)
              (map (λ (r : SystemAuthPolicy). r.id) t.auth_policies)
              s
            ≡ ok s')
          × ((j : Text)
              → scheduler.get_job j s'
                ≡ owned
                    (λ r. build_auth_policy_job_id r.system_id)
                    (λ r. wanted (auth_runs r) (auth_entry r))
                    t.auth_policies
                    j
                    (scheduler.get_job j s))
    load_auth s keyed accepted =
        for_each-owned scheduler (λ (r : SystemAuthPolicy). r.id)
          (λ r. build_auth_policy_job_id r.system_id) (λ r. wanted (auth_runs r) (auth_entry r))
          (upsert_auth_policy scheduler t) t.auth_policies s
          (distinct_keys build_auth_policy_job_id (λ (r : SystemAuthPolicy). r.system_id)
            t.auth_policies auth_key-IsInjective keyed.auth_uuids keyed.auth_systems)
          (All_zip {R = AuthPlaces} t.auth_policies auth_places
            (find_row_self (λ (r : SystemAuthPolicy). r.id) t.auth_policies keyed.auth_distinct)
            accepted.auth)

    load_crawl :
        (s : S)
        → IsKeyed t
        → AllAccepted scheduler t
        → (s' : S) × (for_each scheduler
              (upsert_crawl_policy scheduler t)
              (map (λ (r : SystemCrawlPolicy). r.id) t.crawl_policies)
              s
            ≡ ok s')
          × ((j : Text)
              → scheduler.get_job j s'
                ≡ owned
                    (λ r. build_crawl_policy_job_id r.system_id)
                    (λ r. wanted (crawl_runs r) (crawl_entry r))
                    t.crawl_policies
                    j
                    (scheduler.get_job j s))
    load_crawl s keyed accepted =
        for_each-owned scheduler (λ (r : SystemCrawlPolicy). r.id)
          (λ r. build_crawl_policy_job_id r.system_id) (λ r. wanted (crawl_runs r) (crawl_entry r))
          (upsert_crawl_policy scheduler t) t.crawl_policies s
          (distinct_keys build_crawl_policy_job_id (λ (r : SystemCrawlPolicy). r.system_id)
            t.crawl_policies crawl_key-IsInjective keyed.crawl_uuids keyed.crawl_systems)
          (All_zip {R = CrawlPlaces} t.crawl_policies crawl_places
            (find_row_self (λ (r : SystemCrawlPolicy). r.id) t.crawl_policies keyed.crawl_distinct)
            accepted.crawl)

    -- With keys as the database keeps them and schedules that are accepted, loading succeeds, and
    -- afterwards the scheduler has under every id the job that the tables ask for: the job of the
    -- row that owns the id, no job if that row is not to run, and what it had before if no row owns
    -- the id.
    pub load_all_from_db-refines :
        (s : S)
        → IsKeyed t
        → AllAccepted scheduler t
        → (s' : S) × (load_all_from_db scheduler t s ≡ ok s')
          × ((j : Text) → scheduler.get_job j s' ≡ planned_job t j (scheduler.get_job j s))
    unfolding load_all_from_db
    load_all_from_db-refines s keyed accepted =
        let (s1, e1, g1) = load_published s keyed accepted in
        let (s2, e2, g2) = load_auth s1 keyed accepted in
        let (s3, e3, g3) = load_crawl s2 keyed accepted in
        (s3, rw (e1, e2) e3, λ j. simp (g3 j, g2 j, g1 j))
