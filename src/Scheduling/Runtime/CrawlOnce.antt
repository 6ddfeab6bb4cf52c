-- ===== src/Scheduling/Runtime/CrawlOnce.antt =====
-- A crawl policy is triggered once in a minute.
use runlet.Prelude.{
  ℕ, true, false, ◌≡◌, refl, ap, Option, none, some, List, [], ◌∷◌, Text, text, if◌then◌else◌, ◌==◌,
  nat_eq, list_eq, beq_refl, nat_beq_iff, Result, ok, raise, arith,
}
use runlet.Scheduling.Clock.{DateTime, minute_key}
use runlet.Scheduling.Cron.{map_option}
use runlet.Scheduling.Policies.{SystemCrawlPolicy, Tables, find_row}
use runlet.Scheduling.Runtime.Trigger.{
  UuidError, normalize_time, policy_minute, queue_policy, load_crawl_policy, stamp_crawl,
  crawl_payload, trigger_crawl, read_uuid, trigger_crawl_policy_now,
}
use runlet.Scheduling.Runtime.Minutes.{same_policy_minute, ok_injective}

stamped_crawl : ℕ → DateTime → SystemCrawlPolicy → SystemCrawlPolicy
stamped_crawl id run_time p =
    if p.id == id then record p { last_triggered_at = some run_time } else p

-- A stamp changes neither column that policies are found by.
find_row-stamp_crawl :
    (column : SystemCrawlPolicy → ℕ)
    → ((id : ℕ) (run_time : DateTime) (p : SystemCrawlPolicy)
        → column (stamped_crawl id run_time p) ≡ column p)
    → (k id : ℕ) (run_time : DateTime) (rows : List SystemCrawlPolicy)
    → find_row column k (stamp_crawl id run_time rows)
      ≡ map_option (stamped_crawl id run_time) (find_row column k rows)
unfolding find_row stamp_crawl stamped_crawl
find_row-stamp_crawl column h k id run_time [] = refl
find_row-stamp_crawl column h k id run_time (p ∷ rows) =
    ground (arith, h id run_time p, find_row-stamp_crawl column h k id run_time rows)

after_crawl : Tables → SystemCrawlPolicy → DateTime → ℕ → Tables
after_crawl t policy run_time queued_id = record t {
  policy_jobs = queue_policy queued_id (text "crawl") (crawl_payload policy run_time) t.policy_jobs;
  crawl_policies = stamp_crawl policy.id run_time t.crawl_policies;
}

load_after_crawl :
    (t : Tables) (id : ℕ) (policy : SystemCrawlPolicy) (run_time : DateTime) (queued_id : ℕ)
    → load_crawl_policy t id ≡ some policy
    → load_crawl_policy (after_crawl t policy run_time queued_id) id
      ≡ some (record policy { last_triggered_at = some run_time })
unfolding load_crawl_policy after_crawl stamped_crawl
load_after_crawl t id policy run_time queued_id e =
    let by_id =
      find_row-stamp_crawl (λ p. p.id) (λ i r p. ground arith) id policy.id run_time
        t.crawl_policies in
    let by_system =
      find_row-stamp_crawl (λ p. p.system_id) (λ i r p. ground arith) id policy.id run_time
        t.crawl_policies in
    rw (by_id, by_system) (ground (arith, e, beq_refl policy.id))

crawl_fired :
    (t t' : Tables) (run_time : DateTime) (queued_id : ℕ) (policy : SystemCrawlPolicy)
    → trigger_crawl t run_time queued_id (some policy) ≡ (true, t')
    → after_crawl t policy run_time queued_id ≡ t'
unfolding after_crawl
crawl_fired t t' run_time queued_id policy h = ground arith

crawl_skipped :
    (t : Tables) (run_time : DateTime) (queued_id : ℕ) (policy : SystemCrawlPolicy)
    → policy_minute policy.last_triggered_at ≡ policy_minute (some run_time)
    → trigger_crawl t run_time queued_id (some policy) ≡ (false, t)
crawl_skipped t run_time queued_id policy h =
    ground (
      arith,
      h,
      nat_beq_iff (policy_minute policy.last_triggered_at) (policy_minute (some run_time)),
    )

crawl_again :
    (t t' : Tables) (id : ℕ) (at at' : DateTime) (queued_id queued_id' : ℕ)
    → minute_key at' ≡ minute_key at
    → (o : Option SystemCrawlPolicy) → load_crawl_policy t id ≡ o
    → trigger_crawl t (normalize_time at) queued_id o ≡ (true, t')
    → trigger_crawl t' (normalize_time at') queued_id' (load_crawl_policy t' id) ≡ (false, t')
crawl_again t t' id at at' queued_id queued_id' same none e fired = absurd (ground (arith, fired))
crawl_again t t' id at at' queued_id queued_id' same (some policy) e fired =
    let done = crawl_fired t t' (normalize_time at) queued_id policy fired in
    let t1 = after_crawl t policy (normalize_time at) queued_id in
    let stamped : SystemCrawlPolicy = record policy {
      last_triggered_at = some (normalize_time at);
    } in
    rw (← done) (
      rw (load_after_crawl t id policy (normalize_time at) queued_id e)
        (crawl_skipped t1 (normalize_time at') queued_id' stamped (same_policy_minute at at' same)))

-- A policy that was triggered is not triggered again by a call in the same minute (in UTC): such a
-- call does nothing.
pub trigger_crawl_policy_now-once :
    (t t' : Tables) (policy_id : Text) (at at' : DateTime) (queued_id queued_id' : ℕ)
    → trigger_crawl_policy_now t policy_id at queued_id ≡ ok (true, t')
    → minute_key at' ≡ minute_key at
    → trigger_crawl_policy_now t' policy_id at' queued_id' ≡ ok (false, t')
unfolding trigger_crawl_policy_now
trigger_crawl_policy_now-once t t' policy_id at at' queued_id queued_id' fired same =
    go (read_uuid policy_id) refl
  where
    go :
        (r : Result UuidError ℕ)
        → read_uuid policy_id ≡ r
        → trigger_crawl_policy_now t' policy_id at' queued_id' ≡ ok (false, t')
    go (raise x) e = absurd (ground (arith, rw e at fired))
    go (ok id) e = rw e (
        ap ok (
          crawl_again t t' id at at' queued_id queued_id' same (load_crawl_policy t id) refl
            (ok_injective (rw e at fired))))
