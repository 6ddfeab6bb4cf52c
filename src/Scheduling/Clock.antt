-- ===== src/Scheduling/Clock.antt =====
-- Python's `datetime`, as far as the scheduler reads it: the wall clock in microseconds since the
-- start of the year 1, and the offset from UTC of an aware value.
use runlet.Prelude.{
  ℕ, ◌+◌, ◌-◌, ◌/◌, ◌%◌, Bool, ◌&&◌, ◌||◌, not, Option, none, some, List, [], ◌∷◌, if◌then◌else◌,
  ltb, nat_beq, ℤ,
}
use runlet.Prelude.Values.{pos, negsuc}

pub record DateTime : Type 0 where
  pub wall : ℕ
  pub utc_offset : Option ℤ

-- The instant in UTC; a naive value is taken for UTC. (An instant before the year 1, at which
-- Python raises OverflowError, is the start of the year 1.)
unfoldable pub to_utc : DateTime → ℕ
to_utc t = elim t.utc_offset [
  | none ↦ t.wall
  | some offset ↦ elim offset [ pos m ↦ t.wall - m | negsuc m ↦ t.wall + (m + 1) ]
]

abbrev pub microseconds_per_minute : ℕ
microseconds_per_minute = 60_000_000

-- _minute_key: the minute that the instant lies in, in UTC.
unfoldable pub minute_key : DateTime → ℕ
unfolding to_utc
minute_key t = to_utc t / microseconds_per_minute

-- The fields of the trigger time that a cron expression is held against.
pub record CivilTime : Type 0 where
  pub minute : ℕ
  pub hour : ℕ
  pub day : ℕ
  pub month : ℕ
  pub weekday : ℕ

abbrev month_lengths : Bool → List ℕ
month_lengths leap =
    31 ∷ (if leap then 29 else 28) ∷ 31 ∷ 30 ∷ 31 ∷ 30 ∷ 31 ∷ 31 ∷ 30 ∷ 31 ∷ 30 ∷ 31 ∷ []

-- The month and the day of the month of a day of the year, from 0.
find_month : ℕ → ℕ → List ℕ → ℕ × ℕ
find_month month n [] = (month, n + 1)
find_month month n (days ∷ rest) =
    let later = find_month (month + 1) (n - days) rest in
    if ltb n days then (month, n + 1) else later

-- date.fromordinal, by the cycles of 400, 100, 4 and 1 years, for a count of days from 0.
month_and_day : ℕ → ℕ × ℕ
unfolding find_month
month_and_day days =
    let n = days % 146097 in
    let n100 = n / 36524 in
    let m = n % 36524 in
    let n4 = m / 1461 in
    let k = m % 1461 in
    let n1 = k / 365 in
    let leap = nat_beq n1 3 && (not (nat_beq n4 24) || nat_beq n100 3) in
    if nat_beq n1 4 || nat_beq n100 4 then (12, 31) else find_month 1 (k % 365) (month_lengths leap)

-- The first day of the year 1 is a Monday, which Python numbers 0.
unfoldable pub civil_time : ℕ → CivilTime
unfolding month_and_day
civil_time minutes =
    let days = minutes / 1440 in
    let (month, day) = month_and_day days in
    record {
      minute = minutes % 60;
      hour = minutes / 60 % 24;
      day = day;
      month = month;
      weekday = days % 7;
    }
