-- ===== src/Assets/Reconcile/Gate.antt =====
-- evaluate_retirement_quality_gate of reconciliation.py.
use runlet.Prelude.{
  ℕ, ◌*◌, Bool, true, false, not, Option, none, some, Text, text, if◌then◌else◌, ltb, leb, ◌==◌,
  list_eq, nat_eq,
}

-- The warning's payload but for its constant parts; the ratio is kept as the two counts.
pub record CollapseWarning : Type 0 where
  pub current_page_count : ℕ
  pub previous_active_page_count : ℕ

pub record QualityGateDecision : Type 0 where
  pub allow_retirement : Bool
  pub warning_payload : Option CollapseWarning

-- A score is a number of ten-thousandths, so that the threshold 0.7 is 7000.
abbrev pub quality_gate_min_score : ℕ
quality_gate_min_score = 7000

-- current / previous < 0.5, without the division
abbrev pub collapsed : ℕ → ℕ → Bool
collapsed current previous = ltb (2 * current) previous

abbrev gate_closed : QualityGateDecision
gate_closed = record { allow_retirement = false; warning_payload = none }

-- quality_score is None or quality_score < QUALITY_GATE_MIN_SCORE
abbrev pub below_min_score : Option ℕ → Bool
below_min_score none = true
below_min_score (some score) = ltb score quality_gate_min_score

unfoldable pub evaluate_retirement_quality_gate :
    Text → Bool → Option ℕ → ℕ → ℕ → QualityGateDecision
evaluate_retirement_quality_gate crawl_type degraded quality_score current previous =
    if not (crawl_type == text "full")
    then gate_closed
    else if degraded
    then gate_closed
    else if below_min_score quality_score
    then gate_closed
    else if leb previous 0
    then record { allow_retirement = true; warning_payload = none }
    else if collapsed current previous
    then record {
      allow_retirement = false;
      warning_payload =
          some (record { current_page_count = current; previous_active_page_count = previous });
    }
    else record { allow_retirement = true; warning_payload = none }
