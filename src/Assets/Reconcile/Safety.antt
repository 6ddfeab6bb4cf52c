-- ===== src/Assets/Reconcile/Safety.antt =====
-- When reconciliation may retire anything at all.
use runlet.Prelude.{
  ℕ, ◌*◌, ◌≤◌, Bool, true, false, ◌≡◌, ◌↔◌, inl, inr, Option, some, List, ◌∷◌, Text, text,
  text_beq_iff, list_eq, nat_eq, arith, Bool-cases, ok,
}
use runlet.Assets.Reconcile.Rows.{
  ActivePageTruth, ActiveCheckTruth, SnapshotTruth, RetirementDecision,
}
use runlet.Assets.Reconcile.Gate.{evaluate_retirement_quality_gate}
use runlet.Assets.Reconcile.Decisions.{reconcile_retirement_decisions}

-- A full crawl that did not degrade, with a score of at least 0.7, that lost at most half of the
-- active pages.
pub record IsTrusted (crawl_type : Text) (degraded : Bool) (score : Option ℕ) (current previous : ℕ)
    : Type 0 where
  pub full : crawl_type ≡ text "full"
  pub whole : degraded ≡ false
  pub scored : (s : ℕ) × (score ≡ some s) × (7000 ≤ s)
  pub kept : previous ≤ 2 * current

trusted-open :
    (crawl_type : Text) (degraded : Bool) (score : Option ℕ) (current previous : ℕ)
    → IsTrusted crawl_type degraded score current previous
    → (evaluate_retirement_quality_gate crawl_type degraded score current previous).allow_retirement
      ≡ true
unfolding evaluate_retirement_quality_gate
trusted-open crawl_type degraded score current previous t =
    ground (arith, text_beq_iff crawl_type (text "full"), t.scored)

open-IsTrusted :
    (crawl_type : Text) (degraded : Bool) (score : Option ℕ) (current previous : ℕ)
    → (evaluate_retirement_quality_gate crawl_type degraded score current previous).allow_retirement
      ≡ true
    → IsTrusted crawl_type degraded score current previous
unfolding evaluate_retirement_quality_gate
open-IsTrusted crawl_type degraded score current previous h =
    ground (arith, text_beq_iff crawl_type (text "full"))

-- The gate is open exactly for a trusted crawl.
pub gate-iff-IsTrusted :
    (crawl_type : Text) (degraded : Bool) (score : Option ℕ) (current previous : ℕ)
    → ((evaluate_retirement_quality_gate crawl_type degraded score current
          previous).allow_retirement
        ≡ true)
      ↔ IsTrusted crawl_type degraded score current previous
gate-iff-IsTrusted crawl_type degraded score current previous = (
  open-IsTrusted crawl_type degraded score current previous,
  trusted-open crawl_type degraded score current previous,
)

-- If reconciliation under the evaluated gate returns any decision, then the crawl was trusted,
-- whatever the pages, the checks and the snapshot.
pub reconcile-IsTrusted :
    (crawl_type : Text) (degraded : Bool) (score : Option ℕ) (current previous : ℕ)
    (pages : List ActivePageTruth) (checks : List ActiveCheckTruth) (truth : SnapshotTruth)
    {d : RetirementDecision} {ds : List RetirementDecision}
    → reconcile_retirement_decisions pages checks truth
        (evaluate_retirement_quality_gate crawl_type degraded score current previous)
      ≡ ok (d ∷ ds)
    → IsTrusted crawl_type degraded score current previous
unfolding reconcile_retirement_decisions
reconcile-IsTrusted crawl_type degraded score current previous pages checks truth h =
    let gate = evaluate_retirement_quality_gate crawl_type degraded score current previous in
    elim (Bool-cases gate.allow_retirement) [
      | inl e ↦ open-IsTrusted crawl_type degraded score current previous e
      | inr e ↦ absurd (ground (arith, e))
    ]
