-- ===== src/Scheduling/Cron.antt =====
-- The cron expressions of scheduler.py: _cron_matches and the functions that it calls.
pub mod Numbers
pub mod Spec
pub mod Refused
pub mod Tests
use runlet.Prelude.{
  ℕ, zero, suc, ◌+◌, ◌-◌, ◌*◌, ◌/◌, ◌%◌, Bool, true, false, ◌&&◌, ◌||◌, not, Option, none, some,
  List, [], ◌∷◌, ◌++◌, Text, text, is_empty, is_space, strip, if◌then◌else◌, ltb, leb, nat_beq,
  ◌==◌, nat_eq, list_eq, ℤ,
}
use runlet.Prelude.Values.{pos, negsuc}
use runlet.Scheduling.Clock.{DateTime, minute_key, CivilTime, civil_time}

-- str.split(): the words between runs of white space; `word` is the one that is being read.
unfoldable pub split_from : Text → Text → List Text
split_from word [] = if is_empty word then [] else word ∷ []
split_from word (c ∷ s) =
    let rest = split_from (if is_space c then [] else word ++ c ∷ []) s in
    if is_space c && not (is_empty word) then word ∷ rest else rest

unfoldable pub split : Text → List Text
unfolding split_from
split s = split_from [] s

abbrev pub is_digit : ℕ → Bool
is_digit c = leb b'0' c && leb c b'9'

-- The digits of an int literal after the first, with single underscores between them.
unfoldable pub digits_loop : ℕ → Bool → Text → Option ℕ
digits_loop acc after_underscore [] = if after_underscore then none else some acc
digits_loop acc after_underscore (c ∷ s) =
    let rest = digits_loop (if is_digit c then acc * 10 + (c - b'0') else acc) (nat_beq c b'_') s in
    if is_digit c || nat_beq c b'_' && not after_underscore then rest else none

unfoldable pub parse_nat : Text → Option ℕ
unfolding digits_loop
parse_nat [] = none
parse_nat (c ∷ s) = if is_digit c then digits_loop (c - b'0') false s else none

abbrev pub negate : ℕ → ℤ
negate zero = pos 0
negate (suc n) = negsuc n

abbrev pub map_option {ℓ κ} : {A : Type ℓ} {B : Type κ} → (A → B) → Option A → Option B
map_option f none = none
map_option f (some a) = some (f a)

-- The sign of an int literal.
unfoldable pub parse_signed : Text → Option ℤ
unfolding parse_nat
parse_signed [] = none
parse_signed (c ∷ s) =
    if nat_beq c b'-'
    then map_option negate (parse_nat s)
    else if nat_beq c b'+'
    then map_option pos (parse_nat s)
    else map_option pos (parse_nat (c ∷ s))

-- int(text), with none for the ValueError; decimal digits of other scripts are left out.
unfoldable pub parse_int : Text → Option ℤ
unfolding parse_signed
parse_int s = parse_signed (strip s)

-- field.startswith("*/")
abbrev pub starts_step : Text → Bool
starts_step (c ∷ (d ∷ s)) = nat_beq c b'*' && nat_beq d b'/'
starts_step _ = false

-- field[2:]
abbrev pub after_two : Text → Text
after_two (c ∷ (d ∷ s)) = s
after_two _ = []

-- interval > 0 and value % interval == 0
abbrev pub step_matches : Option ℤ → ℕ → Bool
step_matches none value = false
step_matches (some (negsuc n)) value = false
step_matches (some (pos interval)) value = ltb 0 interval && nat_beq (value % interval) 0

abbrev pub number_matches : Option ℤ → ℕ → Bool
number_matches none value = false
number_matches (some (negsuc n)) value = false
number_matches (some (pos n)) value = nat_beq n value

unfoldable pub cron_field_matches : Text → ℕ → Bool
unfolding parse_int
cron_field_matches field value =
    if field == text "*"
    then true
    else if starts_step field
    then step_matches (parse_int (after_two field)) value
    else number_matches (parse_int field) value

-- 7 stands for Sunday, as 0 does; what is out of range never matches.
abbrev pub weekday_number_matches : Option ℤ → ℕ → Bool
weekday_number_matches none value = false
weekday_number_matches (some (negsuc n)) value = false
weekday_number_matches (some (pos n)) value =
    let expected : ℕ = if nat_beq n 7 then 0 else n in
    if ltb 6 expected then false else nat_beq expected value

unfoldable pub cron_weekday_matches : Text → ℕ → Bool
unfolding parse_int
cron_weekday_matches field value =
    if field == text "*"
    then true
    else if starts_step field
    then step_matches (parse_int (after_two field)) value
    else weekday_number_matches (parse_int field) value

unfoldable pub cron_day_matches : Text → Bool → Text → Bool → Bool
cron_day_matches day_of_month day_of_month_matches weekday weekday_matches =
    if day_of_month == text "*" && weekday == text "*"
    then true
    else if day_of_month == text "*"
    then weekday_matches
    else if weekday == text "*"
    then day_of_month_matches
    else day_of_month_matches || weekday_matches

-- Python's Monday is 0, cron's Sunday is 0.
abbrev pub cron_weekday : CivilTime → ℕ
cron_weekday t = (t.weekday + 1) % 7

abbrev fields_match : List Text → CivilTime → Bool
fields_match (minute ∷ (hour ∷ (day_of_month ∷ (month ∷ (weekday ∷ []))))) t =
    cron_field_matches minute t.minute
    && (cron_field_matches hour t.hour
        && (cron_field_matches month t.month
            && cron_day_matches day_of_month (cron_field_matches day_of_month t.day) weekday
                (cron_weekday_matches weekday (cron_weekday t))))
fields_match _ t = false

-- The test of an expression against the fields of a trigger time.
unfoldable pub cron_matches_civil : Text → CivilTime → Bool
unfolding split cron_field_matches cron_weekday_matches cron_day_matches
cron_matches_civil schedule_expr t = fields_match (split schedule_expr) t

unfoldable pub cron_matches : Text → DateTime → Bool
unfolding cron_matches_civil
cron_matches schedule_expr scheduled_at =
    cron_matches_civil schedule_expr (civil_time (minute_key scheduled_at))
