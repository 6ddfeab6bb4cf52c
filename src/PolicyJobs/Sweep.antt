-- ===== src/PolicyJobs/Sweep.antt =====
-- A crawl settles its job and the policy, and sweeps the drafts of its system.
use runlet.Prelude.{
  ℕ, ◌<◌, ◌≡◌, refl, Option, none, some, List, Text, text, nat_eq, list_eq, ok, arith,
}
use runlet.Prelude.Values.{field_of}
use runlet.Scheduling.Policies.{find_row}
use runlet.Scheduling.Uuids.Digits.{pow16}
use runlet.Assets.Switch.Rows.{CrawlSnapshot}
use runlet.PolicyJobs.Rows.{
  QueuedJob, Policy, Tables, job_id, text_value, uuid_of, parse_uuid_value, resolve_policy, audit,
}
use runlet.PolicyJobs.Marks.{mark_running}
use runlet.PolicyJobs.Crawl.{
  CrawlRunResult, returned, Services, read_scope, queued_snapshot_ids, with_snapshots,
  crawled_snapshot, settle, handle_payload, run,
}
use runlet.PolicyJobs.Settled.{Settles}
use runlet.PolicyJobs.Drafts.{IsSwept, mark_crawled-IsSwept}

module _ {W : Type 0} (services : Services W) where
  abbrev pub HasSettled : ℕ → Option Policy → Tables × W → Type 0
  HasSettled id policy (t, w) = Settles id policy (services.utcnow w) t

  settle-IsSwept :
      (id new_id system_id snapshot : ℕ) (policy : Option Policy) (t : Tables)
      (result : CrawlRunResult) (crawled : List CrawlSnapshot) (w : W)
      → crawled_snapshot result ≡ some snapshot
      → snapshot < pow16 32
      → IsSwept system_id crawled
          (settle services id new_id system_id policy t (returned result, (crawled, w))).0
  settle-IsSwept id new_id system_id snapshot policy t result crawled w e h = rw e (
      mark_crawled-IsSwept id new_id (services.utcnow w) system_id snapshot policy
        (with_snapshots t crawled) h)

  handle_payload-IsSwept :
      (id new_id system_id snapshot : ℕ) (policy : Option Policy) (t : Tables) (w : W)
      (o : Option Text) (scope : Text) (result : CrawlRunResult) (crawled : List CrawlSnapshot)
      (w' : W)
      → uuid_of o ≡ some system_id
      → services.run_crawl system_id scope t.snapshots w ≡ (returned result, (crawled, w'))
      → crawled_snapshot result ≡ some snapshot
      → snapshot < pow16 32
      → IsSwept system_id crawled (handle_payload services id new_id policy t w o (some scope)).0
  unfolding queued_snapshot_ids mark_running
  handle_payload-IsSwept id new_id system_id snapshot policy t w none scope result crawled w' u c e
        h =
      absurd (ground (arith, u))
  handle_payload-IsSwept id new_id system_id snapshot policy t w (some s) scope result crawled w' u
        c e h =
      rw (u, c)
        (settle-IsSwept id new_id system_id snapshot policy (mark_running id (services.utcnow w) t)
          result crawled w' e h)

  -- For a job that is there, with a system and a scope: if the crawler returns a snapshot of a crawl
  -- that succeeded, the handler returns; no draft of the system is then left without a job to compile
  -- it, and each snapshot that has such a job is as the crawler left it.
  pub run-IsSwept :
      (t : Tables) (id new_id : ℕ) (w : W) (job : QueuedJob) (system_id : ℕ) (scope : Text)
      (result : CrawlRunResult) (crawled : List CrawlSnapshot) (w' : W) (snapshot : ℕ)
      → find_row job_id id t.queued_jobs ≡ some job
      → parse_uuid_value (field_of (text "system_id") job.payload) ≡ some system_id
      → read_scope job.payload ≡ some scope
      → services.run_crawl system_id scope t.snapshots w ≡ (returned result, (crawled, w'))
      → crawled_snapshot result ≡ some snapshot
      → snapshot < pow16 32
      → (x : Tables × W) × (run services t id new_id w ≡ ok x) × IsSwept system_id crawled x.0
  unfolding run parse_uuid_value audit queued_snapshot_ids
  run-IsSwept t id new_id w job system_id scope result crawled w' snapshot e u s c r h =
      rw (e, s)
        (
          _,
          refl,
          handle_payload-IsSwept id new_id system_id snapshot
              (resolve_policy t.policies job.payload) (audit services.fromisoformat id t) w
              (text_value (field_of (text "system_id") job.payload)) scope result crawled w' u c r
              h,
        )
