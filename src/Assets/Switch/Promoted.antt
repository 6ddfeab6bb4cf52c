-- ===== src/Assets/Switch/Promoted.antt =====
-- What a promotion leaves in the tables.
use mathlib.Core.Path.{subst}
use runlet.Prelude.{
  ℕ, Bool, true, false, ◌≡◌, refl, ap, ◌∙◌, Option, none, some, List, [], ◌∷◌, ◌==◌, nat_eq,
  nat_beq_iff, beq_refl, Result, ok, raise, ◌>>=◌, arith, Bool-cases, inl, inr,
}
use runlet.Assets.Semantic.Diff.{
  IndexError, SemanticStateDiff, has_changes, compare_semantic_states,
}
use runlet.Assets.Switch.Rows.{is_active, is_draft, CrawlSnapshot, Db}
use runlet.Assets.Switch.Load.{load_snapshot_semantic_state}
use runlet.Assets.Switch.Apply.{
  promoted, CurrentStateSwitchResult, SwitchError, get_snapshot, put_snapshot,
  is_high_quality_snapshot, load_active_snapshot, archive_active_snapshot_facts, discard, activate,
  replace_active, lift, settle, switch_draft, switch_found, apply_current_state_switch,
}

get_snapshot-id :
    (id : ℕ) (ss : List CrawlSnapshot) {s : CrawlSnapshot} → get_snapshot id ss ≡ some s → s.id ≡ id
unfolding get_snapshot
get_snapshot-id id [] h = cc
get_snapshot-id id (t ∷ ss) {s} h =
    ground (arith, nat_beq_iff t.id id, get_snapshot-id id ss {s = s})

-- A row that is there is found after a write of any row.
get_snapshot-put :
    (id : ℕ) (s : CrawlSnapshot) (ss : List CrawlSnapshot) {t : CrawlSnapshot}
    → get_snapshot id ss ≡ some t
    → (u : CrawlSnapshot) × (get_snapshot id (put_snapshot s ss) ≡ some u)
unfolding get_snapshot put_snapshot
get_snapshot-put id s [] h = absurd (cc)
get_snapshot-put id s (r ∷ ss) {t} h = elim (Bool-cases (r.id == s.id)) [
  | inl e ↦ elim (Bool-cases (s.id == id)) [
    | inl f ↦ (s, rw (e, f) refl)
    | inr f ↦
        let (u, found) =
          get_snapshot-put id s ss {t = t} (ground (arith, e, f, h, nat_beq_iff r.id s.id)) in
        (u, rw (e, f) found)
  ]
  | inr e ↦ elim (Bool-cases (r.id == id)) [
    | inl f ↦ (r, rw (e, f) refl)
    | inr f ↦
        let (u, found) = get_snapshot-put id s ss {t = t} (ground (arith, f, h)) in
        (u, rw (e, f) found)
  ]
]

-- The row that was written is found.
get_snapshot-put_own :
    (s : CrawlSnapshot) (ss : List CrawlSnapshot) {t : CrawlSnapshot}
    → get_snapshot s.id ss ≡ some t
    → get_snapshot s.id (put_snapshot s ss) ≡ some s
unfolding get_snapshot put_snapshot
get_snapshot-put_own s [] h = absurd (cc)
get_snapshot-put_own s (r ∷ ss) {t} h = elim (Bool-cases (r.id == s.id)) [
  | inl e ↦ rw (e, beq_refl s.id) refl
  | inr e ↦ rw (e, e) (get_snapshot-put_own s ss {t = t} (ground (arith, e, h)))
]

-- The snapshot is active in the tables.
abbrev pub IsCurrent : ℕ → Db → Type 0
IsCurrent id db =
    (s : CrawlSnapshot) × (get_snapshot id db.snapshots ≡ some s) × (is_active s.state ≡ true)

abbrev IsPromotion : ℕ → Result SwitchError (CurrentStateSwitchResult × Db) → Type 0
IsPromotion id (ok (result, db)) =
    result.outcome ≡ promoted → (result.active_snapshot_id ≡ some id) × IsCurrent id db
IsPromotion id (raise e) = Unit

module _ (db : Db) (now hist_id : ℕ) (d : CrawlSnapshot)
    (h : get_snapshot d.id db.snapshots ≡ some d) where
  activated-IsCurrent :
      IsCurrent d.id (record db { snapshots = put_snapshot (activate now d) db.snapshots })
  activated-IsCurrent = (activate now d, get_snapshot-put_own (activate now d) db.snapshots h, refl)

  replaced-IsCurrent : (a : CrawlSnapshot) → IsCurrent d.id (replace_active db now hist_id d a)
  unfolding replace_active archive_active_snapshot_facts
  replaced-IsCurrent a =
      let (u, found) = get_snapshot-put d.id (discard now a) db.snapshots h in
      (
        activate now d,
        get_snapshot-put_own (activate now d) (put_snapshot (discard now a) db.snapshots) found,
        refl,
      )

  settle-IsPromotion :
      (a : CrawlSnapshot) (changes : Bool)
      → IsPromotion d.id (ok (settle db now hist_id d a changes))
  unfolding settle
  settle-IsPromotion a false = λ e. absurd (cc)
  settle-IsPromotion a true = λ e. (refl, replaced-IsCurrent a)

  switch_draft-IsPromotion :
      (found : Option CrawlSnapshot) → IsPromotion d.id (switch_draft db now hist_id d found)
  unfolding switch_draft
  switch_draft-IsPromotion none = λ e. (refl, activated-IsCurrent)
  switch_draft-IsPromotion (some a) = go (
      compare_semantic_states (load_snapshot_semantic_state db a.id)
        (load_snapshot_semantic_state db d.id))
    where
      go :
          (r : Result IndexError SemanticStateDiff)
          → IsPromotion d.id (lift r >>= λ diff. ok (settle db now hist_id d a (has_changes diff)))
      go (ok diff) = settle-IsPromotion a (has_changes diff)
      go (raise e) = tt

switch_found-IsPromotion :
    (db : Db) (now hist_id id : ℕ) (found : Option CrawlSnapshot)
    → get_snapshot id db.snapshots ≡ found
    → IsPromotion id (switch_found db now hist_id id found)
switch_found-IsPromotion db now hist_id id none h = tt
switch_found-IsPromotion db now hist_id id (some d) h =
    let own : d.id ≡ id = get_snapshot-id id db.snapshots h in
    let there : get_snapshot d.id db.snapshots ≡ some d =
      ap (λ (n : ℕ). get_snapshot n db.snapshots) own ∙ h in
    elim (Bool-cases (is_active d.state)) [
      | inl e ↦ rw e (λ k. (ap some own, (d, h, e)))
      | inr e ↦ elim (Bool-cases (is_draft d.state)) [
        | inl f ↦ elim (Bool-cases (is_high_quality_snapshot d)) [
          | inl g ↦
              rw (e, f, g)
                (subst
                  (λ (n : ℕ).
                    IsPromotion n
                      (switch_draft db now hist_id d (load_active_snapshot db d.system_id d.id)))
                  own
                  (switch_draft-IsPromotion db now hist_id d there
                    (load_active_snapshot db d.system_id d.id)))
          | inr g ↦ rw (e, f, g) (λ k. absurd cc)
        ]
        | inr f ↦ rw (e, f) tt
      ]
    ]

-- If a switch returns that the snapshot was promoted, then the result names it as the active snapshot
-- and it is found active in the tables.
pub apply_current_state_switch-IsCurrent :
    (db : Db) (now hist_id id : ℕ) {result : CurrentStateSwitchResult} {db' : Db}
    → apply_current_state_switch db now hist_id id ≡ ok (result, db')
    → result.outcome ≡ promoted
    → (result.active_snapshot_id ≡ some id) × IsCurrent id db'
unfolding apply_current_state_switch
apply_current_state_switch-IsCurrent db now hist_id id h =
    subst (IsPromotion id) h
      (switch_found-IsPromotion db now hist_id id (get_snapshot id db.snapshots) refl)
