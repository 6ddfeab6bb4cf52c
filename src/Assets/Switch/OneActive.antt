-- ===== src/Assets/Switch/OneActive.antt =====
-- A system keeps at most one active snapshot.
use runlet.Prelude.{
  ℕ, ◌+◌, ◌≤◌, Bool, true, false, ◌&&◌, ◌≡◌, refl, Option, none, some, List, [], ◌∷◌, if◌then◌else◌,
  ◌==◌, nat_eq, beq_refl, any, arith, Bool-cases, inl, inr, Result, ok, raise, ◌>>=◌,
}
use mathlib.Core.Path.{subst}
use native.Mathlib.Nat.{le_trans}
use runlet.Prelude.Sort.{first-none, first-some}
use runlet.Assets.Semantic.Diff.{
  IndexError, SemanticStateDiff, has_changes, compare_semantic_states,
}
use runlet.Assets.Switch.Rows.{is_active, is_draft, CrawlSnapshot, Db}
use runlet.Assets.Switch.Load.{load_snapshot_semantic_state}
use runlet.Assets.Switch.Apply.{
  CurrentStateSwitchResult, SwitchError, get_snapshot, put_snapshot, is_rival, newest_first,
  load_active_snapshot, lift, discard, activate, replace_active, settle, switch_draft, switch_found,
  apply_current_state_switch, archive_active_snapshot_facts, is_high_quality_snapshot,
}

-- How many active snapshots the system has, apart from those with the id.
count_rivals : ℕ → ℕ → List CrawlSnapshot → ℕ
count_rivals system_id id [] = 0
count_rivals system_id id (s ∷ rest) =
    (if is_rival system_id id s then 1 else 0) + count_rivals system_id id rest

-- How many active snapshots the system has.
unfoldable pub count_active : ℕ → List CrawlSnapshot → ℕ
count_active system_id [] = 0
count_active system_id (s ∷ rest) =
    (if s.system_id == system_id && is_active s.state then 1 else 0) + count_active system_id rest

unfoldable pub count_id : ℕ → List CrawlSnapshot → ℕ
count_id id [] = 0
count_id id (s ∷ rest) = (if s.id == id then 1 else 0) + count_id id rest

-- Ids are unique, and no system has two active snapshots.
pub record IsConsistent (snapshots : List CrawlSnapshot) : Type 0 where
  pub unique_id : (id : ℕ) → count_id id snapshots ≤ 1
  pub one_active : (system_id : ℕ) → count_active system_id snapshots ≤ 1

count_id-put :
    (id : ℕ) (s : CrawlSnapshot) (ss : List CrawlSnapshot)
    → count_id id (put_snapshot s ss) ≡ count_id id ss
unfolding count_id put_snapshot
count_id-put id s [] = refl
count_id-put id s (t ∷ ss) = ground (arith, count_id-put id s ss)

-- A write puts at most one row in the place of each row with its id.
count_active-put :
    (system_id : ℕ) (s : CrawlSnapshot) (ss : List CrawlSnapshot)
    → count_active system_id (put_snapshot s ss)
      ≤ (if s.system_id == system_id && is_active s.state then count_id s.id ss else 0)
        + count_rivals system_id s.id ss
unfolding count_active put_snapshot count_id count_rivals
count_active-put system_id s [] = ground arith
count_active-put system_id s (t ∷ ss) = ground (arith, count_active-put system_id s ss)

count_rivals-le :
    (system_id id : ℕ) (ss : List CrawlSnapshot)
    → count_rivals system_id id ss ≤ count_active system_id ss
unfolding count_active count_rivals
count_rivals-le system_id id [] = omega arith
count_rivals-le system_id id (s ∷ ss) = ground (arith, count_rivals-le system_id id ss)

count_rivals-put-le :
    (system_id id : ℕ) (s : CrawlSnapshot) (ss : List CrawlSnapshot)
    → is_active s.state ≡ false
    → count_rivals system_id id (put_snapshot s ss) ≤ count_rivals system_id id ss
unfolding count_rivals put_snapshot
count_rivals-put-le system_id id s [] n = omega arith
count_rivals-put-le system_id id s (t ∷ ss) n =
    ground (arith, count_rivals-put-le system_id id s ss n)

-- A discarded snapshot is no rival any more.
count_rivals-discard :
    (system_id id : ℕ) (s : CrawlSnapshot) (ss : List CrawlSnapshot)
    → is_active s.state ≡ false
    → any (λ t. t.id == s.id && is_rival system_id id t) ss ≡ true
    → count_rivals system_id id (put_snapshot s ss) + 1 ≤ count_rivals system_id id ss
unfolding count_rivals put_snapshot any
count_rivals-discard system_id id s [] n h = cc
count_rivals-discard system_id id s (t ∷ ss) n h =
    ground
      (arith, count_rivals-discard system_id id s ss n, count_rivals-put-le system_id id s ss n)

no_rivals :
    (system_id id : ℕ) (ss : List CrawlSnapshot)
    → any (is_rival system_id id) ss ≡ false
    → count_rivals system_id id ss ≡ 0
unfolding count_rivals any
no_rivals system_id id [] h = refl
no_rivals system_id id (s ∷ ss) h = ground (arith, no_rivals system_id id ss)

count_active-discard-le :
    (system_id : ℕ) (s : CrawlSnapshot) (ss : List CrawlSnapshot)
    → is_active s.state ≡ false
    → count_active system_id (put_snapshot s ss) ≤ count_active system_id ss
unfolding count_active put_snapshot
count_active-discard-le system_id s [] n = omega arith
count_active-discard-le system_id s (t ∷ ss) n =
    ground (arith, count_active-discard-le system_id s ss n)

-- What the query for the active snapshot says of the table.
load_none :
    (db : Db) (system_id id : ℕ)
    → load_active_snapshot db system_id id ≡ none
    → count_rivals system_id id db.snapshots ≡ 0
unfolding load_active_snapshot
load_none db system_id id h =
    no_rivals system_id id db.snapshots
      (first-none newest_first (is_rival system_id id) db.snapshots h)

load_some :
    (db : Db) (system_id id : ℕ) {a : CrawlSnapshot}
    → load_active_snapshot db system_id id ≡ some a
    → any (λ t. t.id == a.id && is_rival system_id id t) db.snapshots ≡ true
unfolding load_active_snapshot
load_some db system_id id {a} h =
    first-some newest_first (is_rival system_id id) db.snapshots (λ t. t.id == a.id) h
      (beq_refl a.id)

module _ (snapshots : List CrawlSnapshot) (c : IsConsistent snapshots) where
  discard-IsConsistent :
      (now : ℕ) (s : CrawlSnapshot) → IsConsistent (put_snapshot (discard now s) snapshots)
  discard-IsConsistent now s = record {
    unique_id = λ id. rw count_id-put (c.unique_id id);
    one_active = λ system_id.
        le_trans (count_active-discard-le system_id (discard now s) snapshots refl)
          (c.one_active system_id);
  }

  activate-IsConsistent :
      (now : ℕ) (s : CrawlSnapshot)
      → count_rivals s.system_id s.id snapshots ≡ 0
      → IsConsistent (put_snapshot (activate now s) snapshots)
  activate-IsConsistent now s alone = record {
    unique_id = λ id. rw count_id-put (c.unique_id id);
    one_active = λ system_id. ground (
      arith,
      alone,
      count_active-put system_id (activate now s) snapshots,
      count_rivals-le system_id s.id snapshots,
      c.unique_id s.id,
      c.one_active system_id,
    );
  }

-- After the active snapshot is discarded the draft has no rival.
replaced_alone :
    (db : Db) (now system_id id : ℕ) {a : CrawlSnapshot}
    → IsConsistent db.snapshots
    → load_active_snapshot db system_id id ≡ some a
    → count_rivals system_id id (put_snapshot (discard now a) db.snapshots) ≡ 0
replaced_alone db now system_id id {a} c h = omega (
  arith,
  count_rivals-discard system_id id (discard now a) db.snapshots refl (load_some db system_id id h),
  count_rivals-le system_id id db.snapshots,
  c.one_active system_id,
)

-- What holds of the tables after a call that returns.
abbrev Keeps : Result SwitchError (CurrentStateSwitchResult × Db) → Type 0
Keeps (ok (result, db)) = IsConsistent db.snapshots
Keeps (raise e) = Unit

module _ (db : Db) (now hist_id : ℕ) (c : IsConsistent db.snapshots) where
  replace_active-IsConsistent :
      (d a : CrawlSnapshot)
      → load_active_snapshot db d.system_id d.id ≡ some a
      → IsConsistent (replace_active db now hist_id d a).snapshots
  unfolding replace_active archive_active_snapshot_facts
  replace_active-IsConsistent d a h =
      activate-IsConsistent (put_snapshot (discard now a) db.snapshots)
        (discard-IsConsistent db.snapshots c now a) now d
        (replaced_alone db now d.system_id d.id c h)

  settle-IsConsistent :
      (d a : CrawlSnapshot) (changes : Bool)
      → load_active_snapshot db d.system_id d.id ≡ some a
      → IsConsistent (settle db now hist_id d a changes).1.snapshots
  unfolding settle
  settle-IsConsistent d a false h = discard-IsConsistent db.snapshots c now d
  settle-IsConsistent d a true h = replace_active-IsConsistent d a h

  switch_draft-Keeps :
      (d : CrawlSnapshot) (found : Option CrawlSnapshot)
      → load_active_snapshot db d.system_id d.id ≡ found
      → Keeps (switch_draft db now hist_id d found)
  unfolding switch_draft
  switch_draft-Keeps d none h =
      activate-IsConsistent db.snapshots c now d (load_none db d.system_id d.id h)
  switch_draft-Keeps d (some a) h = go (
      compare_semantic_states (load_snapshot_semantic_state db a.id)
        (load_snapshot_semantic_state db d.id))
    where
      go :
          (r : Result IndexError SemanticStateDiff)
          → Keeps (lift r >>= λ diff. ok (settle db now hist_id d a (has_changes diff)))
      go (ok diff) = settle-IsConsistent d a (has_changes diff) h
      go (raise e) = tt

  switch_found-Keeps :
      (id : ℕ) (found : Option CrawlSnapshot) → Keeps (switch_found db now hist_id id found)
  switch_found-Keeps id none = tt
  switch_found-Keeps id (some d) = elim (Bool-cases (is_active d.state)) [
    | inl e ↦ rw e c
    | inr e ↦ elim (Bool-cases (is_draft d.state)) [
      | inl f ↦ elim (Bool-cases (is_high_quality_snapshot d)) [
        | inl g ↦
            rw (e, f, g) (switch_draft-Keeps d (load_active_snapshot db d.system_id d.id) refl)
        | inr g ↦ rw (e, f, g) (discard-IsConsistent db.snapshots c now d)
      ]
      | inr f ↦ rw (e, f) tt
    ]
  ]

-- If ids are unique and no system has two active snapshots, then the same holds after any switch
-- that returns, of any snapshot and at any time.
pub apply_current_state_switch-IsConsistent :
    (db : Db) (now hist_id id : ℕ) {result : CurrentStateSwitchResult} {db' : Db}
    → IsConsistent db.snapshots
    → apply_current_state_switch db now hist_id id ≡ ok (result, db')
    → IsConsistent db'.snapshots
unfolding apply_current_state_switch
apply_current_state_switch-IsConsistent db now hist_id id c h =
    subst Keeps h (switch_found-Keeps db now hist_id c id (get_snapshot id db.snapshots))
