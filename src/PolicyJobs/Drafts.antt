-- ===== src/PolicyJobs/Drafts.antt =====
-- Which drafts a crawl leaves: those that have a job to compile them.
use mathlib.Core.Path.{subst}
use runlet.Prelude.{
  ℕ, ◌<◌, Bool, true, false, ◌&&◌, ◌||◌, not, ◌≡◌, refl, sym, ap, ◌∙◌, Option, none, some, List, [],
  ◌∷◌, ◌++◌, Text, text, is_empty, if◌then◌else◌, ◌==◌, nat_eq, nat_beq_iff, list_eq, any, contains,
  Result, ok, raise, Value, Bool-cases, inl, inr, arith, lookup,
}
use runlet.Prelude.Values.{field_of, to_fields, from_fields}
use runlet.Scheduling.Policies.{find_row}
use runlet.Scheduling.Uuids.Digits.{pow16}
use runlet.Scheduling.Uuids.RoundTrip.{parse_uuid-uuid_text}
use runlet.Assets.Switch.Rows.{CrawlSnapshot, is_draft}
use runlet.RunCheck.Marks.{change_row}
use runlet.PolicyJobs.Rows.{QueuedJob, Policy, Tables, Readings, job_id, parse_uuid_value}
use runlet.PolicyJobs.Marks.{change_job, change_policy, succeeded_policy}
use runlet.PolicyJobs.Crawl.{
  asset_compile_job_type, queued_snapshot_ids, if_given, discard_superseded, compile_job,
  crawled_job, queue_compile, mark_crawled,
}

abbrev pub snapshot_id : CrawlSnapshot → ℕ
snapshot_id s = s.id

-- A draft of the system that no job is to compile.
abbrev pub is_orphan : ℕ → List ℕ → CrawlSnapshot → Bool
is_orphan system_id queued s =
    s.system_id == system_id && is_draft s.state && not (contains s.id queued)

contains-if_given :
    (a : ℕ) (o : Option ℕ) (ids : List ℕ)
    → contains a (if_given o ids) ≡ contains a (if_given o []) || contains a ids
unfolding contains
contains-if_given a none ids = refl
contains-if_given a (some id) ids = ground arith

snapshot_of-compile_job :
    (new_id snapshot : ℕ)
    → snapshot < pow16 32
    → parse_uuid_value (field_of (text "snapshot_id") (compile_job new_id snapshot).payload)
      ≡ some snapshot
unfolding parse_uuid_value lookup to_fields from_fields runlet.Prelude.list_beq
snapshot_of-compile_job new_id snapshot h = parse_uuid-uuid_text snapshot h

queued-compile_job :
    (new_id snapshot : ℕ) (jobs : List QueuedJob) (a : ℕ)
    → snapshot < pow16 32
    → contains a (queued_snapshot_ids (jobs ++ compile_job new_id snapshot ∷ []))
      ≡ contains a (queued_snapshot_ids jobs) || a == snapshot
unfolding queued_snapshot_ids contains runlet.Prelude.list_beq
queued-compile_job new_id snapshot [] a h =
    rw (snapshot_of-compile_job new_id snapshot h) (ground arith)
queued-compile_job new_id snapshot (j ∷ jobs) a h =
    let o = parse_uuid_value (field_of (text "snapshot_id") j.payload) in
    let before = queued_snapshot_ids jobs in
    let after = queued_snapshot_ids (jobs ++ compile_job new_id snapshot ∷ []) in
    let rest = queued-compile_job new_id snapshot jobs a h in
    elim (Bool-cases (j.job_type == asset_compile_job_type)) [
      | inl e ↦
          rw e (ground (arith, rest, contains-if_given a o before, contains-if_given a o after))
      | inr e ↦ rw e rest
    ]

queued-change_row :
    (id : ℕ) (f : QueuedJob → QueuedJob) (jobs : List QueuedJob)
    → ((j : QueuedJob) → ((f j).job_type ≡ j.job_type) × ((f j).payload ≡ j.payload))
    → queued_snapshot_ids (change_row job_id id f jobs) ≡ queued_snapshot_ids jobs
unfolding change_row queued_snapshot_ids
queued-change_row id f [] keep = refl
queued-change_row id f (j ∷ jobs) keep = elim (Bool-cases (j.id == id)) [
  | inl e ↦ rw (e, (keep j).0, (keep j).1, queued-change_row id f jobs keep) refl
  | inr e ↦ rw (e, queued-change_row id f jobs keep) refl
]

module _ (now : ℕ → ℕ) (system_id snapshot : ℕ) (queued queued' : List ℕ) where
  orphans-discard_superseded :
      (snapshots : List CrawlSnapshot)
      → ((a : ℕ) → contains a queued' ≡ contains a queued || a == snapshot)
      → any
          (is_orphan system_id queued')
          (discard_superseded now system_id snapshot queued snapshots)
        ≡ false
  unfolding discard_superseded any
  orphans-discard_superseded [] same = refl
  orphans-discard_superseded (s ∷ snapshots) same =
      ground
        (arith, same s.id, nat_beq_iff s.id snapshot, orphans-discard_superseded snapshots same)

  find_row-discard_superseded :
      (k : ℕ) (snapshots : List CrawlSnapshot)
      → contains k queued || k == snapshot ≡ true
      → find_row snapshot_id k (discard_superseded now system_id snapshot queued snapshots)
        ≡ find_row snapshot_id k snapshots
  unfolding discard_superseded find_row
  find_row-discard_superseded k [] h = refl
  find_row-discard_superseded k (s ∷ snapshots) h = ground (
    arith,
    h,
    nat_beq_iff s.id k,
    nat_beq_iff k snapshot,
    nat_beq_iff s.id snapshot,
    find_row-discard_superseded k snapshots h,
  )

-- No draft of the system is left without a job to compile it, and each snapshot that has one is as
-- the crawl left it.
pub record SweptBy (system_id : ℕ) (queued : List ℕ) (crawled snapshots : List CrawlSnapshot)
    : Type 0 where
  pub no_orphans : any (is_orphan system_id queued) snapshots ≡ false
  pub kept :
      (k : ℕ)
      → contains k queued ≡ true
      → find_row snapshot_id k snapshots ≡ find_row snapshot_id k crawled

abbrev pub IsSwept : ℕ → List CrawlSnapshot → Tables → Type 0
IsSwept system_id crawled t =
    SweptBy system_id (queued_snapshot_ids t.queued_jobs) crawled t.snapshots

queue_compile-IsSwept :
    (new_id : ℕ) (now : ℕ → ℕ) (system_id snapshot : ℕ) (t : Tables)
    → snapshot < pow16 32
    → IsSwept system_id t.snapshots (queue_compile new_id now system_id snapshot t)
unfolding queue_compile
queue_compile-IsSwept new_id now system_id snapshot t h =
    let queued = queued_snapshot_ids t.queued_jobs in
    let same = λ (a : ℕ). queued-compile_job new_id snapshot t.queued_jobs a h in
    record {
      no_orphans =
          orphans-discard_superseded now system_id snapshot queued
            (queued_snapshot_ids (t.queued_jobs ++ compile_job new_id snapshot ∷ [])) t.snapshots
            same;
      kept = λ k given.
          find_row-discard_superseded now system_id snapshot queued queued k t.snapshots
            (sym (same k) ∙ given);
    }

change_job-IsSwept :
    (id system_id : ℕ) (f : QueuedJob → QueuedJob) (crawled : List CrawlSnapshot) (t : Tables)
    → ((j : QueuedJob) → ((f j).job_type ≡ j.job_type) × ((f j).payload ≡ j.payload))
    → IsSwept system_id crawled t
    → IsSwept system_id crawled (change_job id f t)
unfolding change_job
change_job-IsSwept id system_id f crawled t keep swept =
    subst (λ queued. SweptBy system_id queued crawled t.snapshots)
      (sym (queued-change_row id f t.queued_jobs keep)) swept

change_policy-IsSwept :
    (policy : Option Policy) (system_id : ℕ) (g : Policy → Policy) (crawled : List CrawlSnapshot)
    (t : Tables)
    → IsSwept system_id crawled t
    → IsSwept system_id crawled (change_policy policy g t)
unfolding change_policy
change_policy-IsSwept none system_id g crawled t swept = swept
change_policy-IsSwept (some p) system_id g crawled t swept = swept

pub mark_crawled-IsSwept :
    (id new_id : ℕ) (now : Readings) (system_id snapshot : ℕ) (policy : Option Policy) (t : Tables)
    → snapshot < pow16 32
    → IsSwept system_id t.snapshots (mark_crawled id new_id now system_id snapshot policy t)
unfolding mark_crawled
mark_crawled-IsSwept id new_id now system_id snapshot policy t h =
    let queued = queue_compile new_id now.discarded system_id snapshot t in
    change_policy-IsSwept policy system_id (succeeded_policy now.reported) t.snapshots
      (change_job id (crawled_job snapshot now.finished) queued)
      (change_job-IsSwept id system_id (crawled_job snapshot now.finished) t.snapshots queued
        (λ j. (refl, refl)) (queue_compile-IsSwept new_id now.discarded system_id snapshot t h))
