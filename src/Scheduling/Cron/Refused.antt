-- ===== src/Scheduling/Cron/Refused.antt =====
-- The fields that crontab knows and that the scheduler's own matcher never matches: lists and
-- ranges of numbers.
use runlet.Prelude.{
  ℕ, ◌+◌, ◌-◌, ◌*◌, Bool, true, false, ◌||◌, ◌≡◌, ap, ◌∙◌, none, [], ◌∷◌, Text, All, IsSolid,
  strip_solid, contains, list_beq, if◌then◌else◌, nat_beq, list_eq, nat_eq, arith,
}
use runlet.Scheduling.Cron.{
  is_digit, digits_loop, parse_nat, parse_signed, parse_int, cron_field_matches,
  cron_weekday_matches,
}
use runlet.Scheduling.Cron.Numbers.{IsDigit, digit_not_space}

-- The separators of a list and of a range.
unfoldable pub separates : Text → Bool
unfolding contains
separates s = contains b',' s || contains b'-' s

digits_loop-separates :
    (acc : ℕ) (u : Bool) (s : Text) → separates s ≡ true → digits_loop acc u s ≡ none
unfolding separates digits_loop
digits_loop-separates acc u [] h = cc
digits_loop-separates acc u (c ∷ s) h = ground (
  arith,
  digits_loop-separates (if is_digit c then acc * 10 + (c - b'0') else acc) (nat_beq c b'_') s,
)

parse_int-separates :
    (c : ℕ) (s : Text) → IsDigit c → All IsSolid s → separates s ≡ true → parse_int (c ∷ s) ≡ none
unfolding parse_int parse_signed parse_nat
parse_int-separates c s d solid h =
    ap parse_signed (strip_solid (c ∷ s) (digit_not_space c d, solid))
    ∙ ground (arith, d, digits_loop-separates (c - 48) false s h)

-- A field that starts with a digit and goes on, without white space, to a comma or a hyphen, such
-- as `1,15` or `1-5`, matches no value, whether it stands for a weekday or for another field.
pub list_or_range-never :
    (c : ℕ) (s : Text) (value : ℕ)
    → IsDigit c
    → All IsSolid s
    → separates s ≡ true
    → (cron_field_matches (c ∷ s) value ≡ false) × (cron_weekday_matches (c ∷ s) value ≡ false)
unfolding cron_field_matches cron_weekday_matches list_beq
list_or_range-never c [] value d solid h = unfold separates in cc
list_or_range-never c (x ∷ s) value d solid h = (
  ground (arith, d, parse_int-separates c (x ∷ s) d solid h),
  ground (arith, d, parse_int-separates c (x ∷ s) d solid h),
)
