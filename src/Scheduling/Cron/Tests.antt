-- ===== src/Scheduling/Cron/Tests.antt =====
-- Cron expressions at one minute: 2024-07-01, a Monday, 09:30 UTC.
use runlet.Prelude.{
  arith, ℕ, ◌+◌, ◌*◌, ◌≡◌, refl, Bool, true, false, Option, none, List, [], ◌∷◌, text, Text,
}
use runlet.Scheduling.Clock.{DateTime, civil_time, minute_key}
use runlet.Scheduling.Cron.{cron_matches, cron_field_matches, cron_weekday_matches}
use runlet.Scheduling.Cron.Spec.{
  any_value, every, exactly, Schedule, print_schedule, schedule_holds, cron_matches-print_schedule,
}
use runlet.Scheduling.Cron.Refused.{separates, list_or_range-never}

-- 739067 days after the first day of the year 1.
abbrev monday_morning : DateTime
monday_morning = record { wall = (739067 * 1440 + 570) * 60_000_000; utc_offset = none }

abbrev every_half_hour : Schedule
every_half_hour = record {
  minute = every 30;
  hour = any_value;
  day_of_month = exactly 1;
  month = any_value;
  weekday = exactly 1;
}

printed : print_schedule every_half_hour ≡ text "*/30 * 1 * 1"
unfolding print_schedule runlet.Prelude.Values.show_nat
printed = refl

matched : cron_matches (text "*/30 9 * * 1") monday_morning ≡ true
unfolding cron_matches runlet.Prelude.is_space runlet.Prelude.list_beq runlet.Prelude.strip
    civil_time minute_key
matched = refl

other_weekday : cron_matches (text "*/30 9 * * 2") monday_morning ≡ false
unfolding cron_matches runlet.Prelude.is_space runlet.Prelude.list_beq runlet.Prelude.strip
    civil_time minute_key
other_weekday = refl

cron_matches-print_schedule_example :
    cron_matches (print_schedule every_half_hour) monday_morning
    ≡ schedule_holds every_half_hour (civil_time (minute_key monday_morning))
cron_matches-print_schedule_example = cron_matches-print_schedule every_half_hour monday_morning

list_or_range-never_example :
    (cron_field_matches (text "1,15") 1 ≡ false) × (cron_weekday_matches (text "1,15") 1 ≡ false)
unfolding separates runlet.Prelude.is_space
list_or_range-never_example =
    list_or_range-never b'1' (text ",15") 1 (omega arith, omega arith) (refl, (refl, (refl, tt)))
      refl
