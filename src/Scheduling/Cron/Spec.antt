-- ===== src/Scheduling/Cron/Spec.antt =====
-- What a schedule of the supported shapes means, and that its text is matched by that meaning.
use mathlib.Core.List.{append-nil, append_assoc}
use runlet.Prelude.{
  ℕ, ◌%◌, Bool, true, false, ◌&&◌, ◌||◌, ◌≡◌, refl, sym, ◌∙◌, ap, [], ◌∷◌, ◌++◌, Text, text, All,
  IsSolid, is_space, is_empty, list_beq, if◌then◌else◌, ltb, leb, nat_beq, ◌==◌, list_eq, nat_eq,
  arith,
}
use runlet.Prelude.Values.{show_nat}
use runlet.Prelude.Json.{join}
use runlet.Scheduling.Clock.{CivilTime, DateTime, civil_time, minute_key}
use runlet.Scheduling.Cron.{
  split_from, split, cron_field_matches, cron_weekday_matches, cron_day_matches, cron_weekday,
  cron_matches, starts_step,
}
use runlet.Scheduling.Cron.Numbers.{
  IsDigit, show_nat-IsDigit, show_nat_nonempty, digits-IsSolid, parse_int-show_nat,
}

-- `*`, `*/n` and `n`.
pub data Field : Type 0 where
  any_value : Field
  every : ℕ → Field
  exactly : ℕ → Field

unfoldable pub print_field : Field → Text
print_field any_value = text "*"
print_field (every n) = b'*' ∷ (b'/' ∷ show_nat n)
print_field (exactly n) = show_nat n

pub field_holds : Field → ℕ → Bool
field_holds any_value value = true
field_holds (every n) value = ltb 0 n && nat_beq (value % n) 0
field_holds (exactly n) value = nat_beq n value

-- Both 0 and 7 are Sunday.
pub weekday_holds : Field → ℕ → Bool
weekday_holds any_value value = true
weekday_holds (every n) value = ltb 0 n && nat_beq (value % n) 0
weekday_holds (exactly n) value = leb n 7 && nat_beq (n % 7) value

-- A restricted day of the month and a restricted weekday are alternatives.
pub day_holds : Field → Field → CivilTime → Bool
unfolding field_holds weekday_holds
day_holds any_value weekday t = weekday_holds weekday (cron_weekday t)
day_holds day_of_month any_value t = field_holds day_of_month t.day
day_holds day_of_month weekday t =
    field_holds day_of_month t.day || weekday_holds weekday (cron_weekday t)

pub record Schedule : Type 0 where
  pub minute : Field
  pub hour : Field
  pub day_of_month : Field
  pub month : Field
  pub weekday : Field

unfoldable pub print_schedule : Schedule → Text
unfolding print_field join
print_schedule s = join (text " ") (
    print_field s.minute
    ∷ (print_field s.hour
        ∷ (print_field s.day_of_month ∷ (print_field s.month ∷ (print_field s.weekday ∷ [])))))

pub schedule_holds : Schedule → CivilTime → Bool
unfolding field_holds day_holds
schedule_holds s t =
    field_holds s.minute t.minute
    && (field_holds s.hour t.hour
        && (field_holds s.month t.month && day_holds s.day_of_month s.weekday t))

-- A word is read to its end.
split_from-word :
    (word w s : Text) → All IsSolid w → split_from word (w ++ s) ≡ split_from (word ++ w) s
unfolding split_from
split_from-word word [] s h = ap (λ (u : Text). split_from u s) (sym (append-nil word))
split_from-word word (c ∷ w) s h = rw h.0 (
    split_from-word (word ++ c ∷ []) w s h.1
    ∙ ap (λ (u : Text). split_from u s) (append_assoc word (c ∷ []) w))

-- A word of a schedule: it is not empty and has no white space.
abbrev IsWord : Text → Type 0
IsWord w = (is_empty w ≡ false) × All IsSolid w

split_from-space : (w s : Text) → IsWord w → split_from [] (w ++ 32 ∷ s) ≡ w ∷ split_from [] s
unfolding split_from is_space
split_from-space w s h = split_from-word [] w (32 ∷ s) h.1 ∙ rw h.0 refl

split_from-last : (w : Text) → IsWord w → split_from [] w ≡ w ∷ []
unfolding split_from
split_from-last w h =
    ap (split_from []) (sym (append-nil w)) ∙ split_from-word [] w [] h.1 ∙ rw h.0 refl

print_field-IsWord : (f : Field) → IsWord (print_field f)
unfolding print_field is_space
print_field-IsWord any_value = (refl, (refl, tt))
print_field-IsWord (every n) =
    (refl, (refl, (refl, digits-IsSolid (show_nat n) (show_nat-IsDigit n))))
print_field-IsWord (exactly n) =
    let (c, s, e) = show_nat_nonempty n in
    (ap is_empty e, digits-IsSolid (show_nat n) (show_nat-IsDigit n))

split-join :
    (a b c d e : Text)
    → IsWord a
    → IsWord b
    → IsWord c
    → IsWord d
    → IsWord e
    → split (join (text " ") (a ∷ (b ∷ (c ∷ (d ∷ (e ∷ [])))))) ≡ a ∷ (b ∷ (c ∷ (d ∷ (e ∷ []))))
unfolding split join
split-join a b c d e ha hb hc hd he =
    split_from-space a (b ++ 32 ∷ (c ++ 32 ∷ (d ++ 32 ∷ e))) ha
    ∙ ap (◌∷◌ a) (
        split_from-space b (c ++ 32 ∷ (d ++ 32 ∷ e)) hb
        ∙ ap (◌∷◌ b) (
            split_from-space c (d ++ 32 ∷ e) hc
            ∙ ap (◌∷◌ c) (split_from-space d e hd ∙ ap (◌∷◌ d) (split_from-last e he))))

-- The tests on the text of a field.
digits_no_star : (w : Text) → All IsDigit w → (w == text "*" ≡ false) × (starts_step w ≡ false)
unfolding list_beq
digits_no_star [] h = (refl, refl)
digits_no_star (c ∷ []) h = (ground (arith, h.0), refl)
digits_no_star (c ∷ (d ∷ s)) h = (ground (arith, h.0), ground (arith, h.0))

is_star : Field → Bool
is_star any_value = true
is_star _ = false

print_field-star : (f : Field) → print_field f == text "*" ≡ is_star f
unfolding print_field list_beq is_star
print_field-star any_value = refl
print_field-star (every n) = refl
print_field-star (exactly n) = (digits_no_star (show_nat n) (show_nat-IsDigit n)).0

cron_field_matches-print :
    (f : Field) (v : ℕ) → cron_field_matches (print_field f) v ≡ field_holds f v
unfolding cron_field_matches field_holds print_field is_star
cron_field_matches-print any_value v = rw (print_field-star any_value)
cron_field_matches-print (every n) v = rw (print_field-star (every n), parse_int-show_nat n)
cron_field_matches-print (exactly n) v =
    let (star, step) = digits_no_star (show_nat n) (show_nat-IsDigit n) in
    rw (star, step, parse_int-show_nat n)

cron_weekday_matches-print :
    (f : Field) (v : ℕ) → cron_weekday_matches (print_field f) v ≡ weekday_holds f v
unfolding cron_weekday_matches weekday_holds print_field is_star
cron_weekday_matches-print any_value v = rw (print_field-star any_value)
cron_weekday_matches-print (every n) v = rw (print_field-star (every n), parse_int-show_nat n)
cron_weekday_matches-print (exactly n) v =
    let (star, step) = digits_no_star (show_nat n) (show_nat-IsDigit n) in
    rw (star, step, parse_int-show_nat n) (ground arith)

cron_day_matches-print :
    (d w : Field) (t : CivilTime)
    → cron_day_matches
        (print_field d)
        (field_holds d t.day)
        (print_field w)
        (weekday_holds w (cron_weekday t))
      ≡ day_holds d w t
unfolding cron_day_matches day_holds is_star field_holds weekday_holds
cron_day_matches-print d w t = rw (print_field-star d, print_field-star w) (cases d w)
  where
    cases :
        (d w : Field)
        → (if is_star d && is_star w
            then true
            else if is_star d
            then weekday_holds w (cron_weekday t)
            else if is_star w
            then field_holds d t.day
            else field_holds d t.day || weekday_holds w (cron_weekday t))
          ≡ day_holds d w t
    cases any_value any_value = refl
    cases any_value (every n) = refl
    cases any_value (exactly n) = refl
    cases (every m) any_value = refl
    cases (every m) (every n) = refl
    cases (every m) (exactly n) = refl
    cases (exactly m) any_value = refl
    cases (exactly m) (every n) = refl
    cases (exactly m) (exactly n) = refl

-- The text of a schedule of `*`, `*/n` and `n` fields is matched at exactly the instants at which
-- the schedule holds: every field at its part of the UTC minute, and the two day fields as
-- alternatives when both are restricted.
pub cron_matches-print_schedule :
    (s : Schedule) (scheduled_at : DateTime)
    → cron_matches (print_schedule s) scheduled_at
      ≡ schedule_holds s (civil_time (minute_key scheduled_at))
unfolding cron_matches print_schedule schedule_holds
cron_matches-print_schedule s scheduled_at =
    let t = civil_time (minute_key scheduled_at) in
    rw (
      split-join (print_field s.minute) (print_field s.hour) (print_field s.day_of_month)
          (print_field s.month) (print_field s.weekday) (print_field-IsWord s.minute)
          (print_field-IsWord s.hour) (print_field-IsWord s.day_of_month)
          (print_field-IsWord s.month) (print_field-IsWord s.weekday),
      cron_field_matches-print s.minute t.minute,
      cron_field_matches-print s.hour t.hour,
      cron_field_matches-print s.month t.month,
      cron_field_matches-print s.day_of_month t.day,
      cron_weekday_matches-print s.weekday (cron_weekday t),
      cron_day_matches-print s.day_of_month s.weekday t,
    )
