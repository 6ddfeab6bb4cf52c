-- ===== src/Scheduling/Runtime/AuthOnce.antt =====
-- A login policy is triggered once in a minute.
use runlet.Prelude.{
  ℕ, true, false, ◌≡◌, refl, ap, Option, none, some, List, [], ◌∷◌, Text, text, if◌then◌else◌, ◌==◌,
  nat_eq, list_eq, beq_refl, nat_beq_iff, Result, ok, raise, arith,
}
use runlet.Scheduling.Clock.{DateTime, minute_key}
use runlet.Scheduling.Cron.{map_option}
use runlet.Scheduling.Policies.{SystemAuthPolicy, Tables, find_row}
use runlet.Scheduling.Runtime.Trigger.{
  UuidError, normalize_time, policy_minute, queue_policy, load_auth_policy, stamp_auth,
  auth_payload, trigger_auth, read_uuid, trigger_auth_policy_now,
}
use runlet.Scheduling.Runtime.Minutes.{same_policy_minute, ok_injective}

stamped_auth : ℕ → DateTime → SystemAuthPolicy → SystemAuthPolicy
stamped_auth id run_time p =
    if p.id == id then record p { last_triggered_at = some run_time } else p

-- A stamp changes neither column that policies are found by.
find_row-stamp_auth :
    (column : SystemAuthPolicy → ℕ)
    → ((id : ℕ) (run_time : DateTime) (p : SystemAuthPolicy)
        → column (stamped_auth id run_time p) ≡ column p)
    → (k id : ℕ) (run_time : DateTime) (rows : List SystemAuthPolicy)
    → find_row column k (stamp_auth id run_time rows)
      ≡ map_option (stamped_auth id run_time) (find_row column k rows)
unfolding find_row stamp_auth stamped_auth
find_row-stamp_auth column h k id run_time [] = refl
find_row-stamp_auth column h k id run_time (p ∷ rows) =
    ground (arith, h id run_time p, find_row-stamp_auth column h k id run_time rows)

after_auth : Tables → SystemAuthPolicy → DateTime → ℕ → Tables
after_auth t policy run_time queued_id = record t {
  policy_jobs =
      queue_policy queued_id (text "auth_refresh") (auth_payload policy run_time) t.policy_jobs;
  auth_policies = stamp_auth policy.id run_time t.auth_policies;
}

load_after_auth :
    (t : Tables) (id : ℕ) (policy : SystemAuthPolicy) (run_time : DateTime) (queued_id : ℕ)
    → load_auth_policy t id ≡ some policy
    → load_auth_policy (after_auth t policy run_time queued_id) id
      ≡ some (record policy { last_triggered_at = some run_time })
unfolding load_auth_policy after_auth stamped_auth
load_after_auth t id policy run_time queued_id e =
    let by_id =
      find_row-stamp_auth (λ p. p.id) (λ i r p. ground arith) id policy.id run_time
        t.auth_policies in
    let by_system =
      find_row-stamp_auth (λ p. p.system_id) (λ i r p. ground arith) id policy.id run_time
        t.auth_policies in
    rw (by_id, by_system) (ground (arith, e, beq_refl policy.id))

auth_fired :
    (t t' : Tables) (run_time : DateTime) (queued_id : ℕ) (policy : SystemAuthPolicy)
    → trigger_auth t run_time queued_id (some policy) ≡ (true, t')
    → after_auth t policy run_time queued_id ≡ t'
unfolding after_auth
auth_fired t t' run_time queued_id policy h = ground arith

auth_skipped :
    (t : Tables) (run_time : DateTime) (queued_id : ℕ) (policy : SystemAuthPolicy)
    → policy_minute policy.last_triggered_at ≡ policy_minute (some run_time)
    → trigger_auth t run_time queued_id (some policy) ≡ (false, t)
auth_skipped t run_time queued_id policy h =
    ground (
      arith,
      h,
      nat_beq_iff (policy_minute policy.last_triggered_at) (policy_minute (some run_time)),
    )

auth_again :
    (t t' : Tables) (id : ℕ) (at at' : DateTime) (queued_id queued_id' : ℕ)
    → minute_key at' ≡ minute_key at
    → (o : Option SystemAuthPolicy) → load_auth_policy t id ≡ o
    → trigger_auth t (normalize_time at) queued_id o ≡ (true, t')
    → trigger_auth t' (normalize_time at') queued_id' (load_auth_policy t' id) ≡ (false, t')
auth_again t t' id at at' queued_id queued_id' same none e fired = absurd (ground (arith, fired))
auth_again t t' id at at' queued_id queued_id' same (some policy) e fired =
    let done = auth_fired t t' (normalize_time at) queued_id policy fired in
    let t1 = after_auth t policy (normalize_time at) queued_id in
    let stamped : SystemAuthPolicy = record policy {
      last_triggered_at = some (normalize_time at);
    } in
    rw (← done) (
      rw (load_after_auth t id policy (normalize_time at) queued_id e)
        (auth_skipped t1 (normalize_time at') queued_id' stamped (same_policy_minute at at' same)))

-- A policy that was triggered is not triggered again by a call in the same minute (in UTC): such a
-- call does nothing.
pub trigger_auth_policy_now-once :
    (t t' : Tables) (policy_id : Text) (at at' : DateTime) (queued_id queued_id' : ℕ)
    → trigger_auth_policy_now t policy_id at queued_id ≡ ok (true, t')
    → minute_key at' ≡ minute_key at
    → trigger_auth_policy_now t' policy_id at' queued_id' ≡ ok (false, t')
unfolding trigger_auth_policy_now
trigger_auth_policy_now-once t t' policy_id at at' queued_id queued_id' fired same =
    go (read_uuid policy_id) refl
  where
    go :
        (r : Result UuidError ℕ)
        → read_uuid policy_id ≡ r
        → trigger_auth_policy_now t' policy_id at' queued_id' ≡ ok (false, t')
    go (raise x) e = absurd (ground (arith, rw e at fired))
    go (ok id) e = rw e (
        ap ok (
          auth_again t t' id at at' queued_id queued_id' same (load_auth_policy t id) refl
            (ok_injective (rw e at fired))))
