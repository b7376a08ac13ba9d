-- ===== src/Monitor/Duration.antt =====
-- `determineDuration`, and the durations of the expressions that the schedule's editor writes.
use dataops_testgen.Base.{
  ℕ, ◌+◌, ◌*◌, ◌≡◌, refl, ap, Bool, true, false, ◌&&◌, ◌||◌, Option, none, some, List, [], ◌∷◌,
  if◌then◌else◌, leb, ◌==◌, arith, or_default,
}
use dataops_testgen.Base.Text.{Text, number, decimal, words}
use dataops_testgen.Base.Tables.{passes, passes-at}
use dataops_testgen.Cron.{
  XHours, XDays, star, hour_field, day_field, x_hours_expression, x_days_expression,
}
use dataops_testgen.Cron.Parse.{
  is_short_number, is_star, is_step, is_list, slice2, parse_stepped_list,
}
use dataops_testgen.Cron.RoundTrip.{
  InHours, InDays, number_lem, hours_of, days_of, hour_field-eq, day_field-eq, hours_words,
  days_words,
}

-- `parsed.step * unit`, where the list can be read
abbrev step_of : Option (ℕ × ℕ) → ℕ → Option ℕ
step_of none unit = none
step_of (some (start, step)) unit = some (step * unit)

-- `Number(match[1]) * unit`
abbrev times : Text → ℕ → ℕ
unfolding number
times field unit = or_default (number (slice2 field)) 0 * unit

abbrev or_else : Option ℕ → Option ℕ → Option ℕ
or_else none other = other
or_else (some n) other = some n

-- The tests on the fields after the first, which is `\d{1,2}`; a list that cannot be read goes on to
-- the tests that follow.
unfoldable pub duration_of_fields : Text → Text → Text → Text → Option ℕ
unfolding is_star is_step is_list is_short_number parse_stepped_list number
duration_of_fields h d m w =
    if is_star h && is_star d && is_star m && is_star w
    then some 3600
    else if is_step h && is_star d && is_star m && is_star w
    then some (times h 3600)
    else or_else
        (if is_list h && is_star d && is_star m && is_star w
          then step_of (parse_stepped_list h) 3600
          else none)
        (if is_short_number h && is_star d && is_star m && is_star w
          then some 86400
          else if is_short_number h && is_step d && is_star m && is_star w
          then some (times d 86400)
          else if is_short_number h && is_list d && is_star m && is_star w
          then step_of (parse_stepped_list d) 86400
          else none)

unfoldable pub duration_of : List Text → Option ℕ
unfolding is_short_number duration_of_fields
duration_of (n ∷ h ∷ d ∷ m ∷ w ∷ []) =
    if is_short_number n then duration_of_fields h d m w else none
duration_of _ = none

unfoldable pub determine_duration : Text → Option ℕ
unfolding duration_of
determine_duration expression = duration_of (words expression)

abbrev option_is : Option ℕ → Option ℕ → Bool
option_is none none = true
option_is (some a) (some b) = a == b
option_is _ _ = false

option_is-eq : (o p : Option ℕ) → option_is o p ≡ true → o ≡ p
option_is-eq none none h = refl
option_is-eq none (some b) h = absurd cc
option_is-eq (some a) none h = absurd cc
option_is-eq (some a) (some b) h = ap (λ n. some n) (ground arith)

-- The seconds from one run to the next, where a second run fits before the end of the day.
abbrev pub hours_duration : ℕ → ℕ → Option ℕ
hours_duration h s =
    if leb h 1 then some 3600 else if s == 0 || leb (s + h) 23 then some (h * 3600) else some 86400

abbrev pub days_duration : ℕ → ℕ → Option ℕ
days_duration d s =
    if leb d 1 then some 86400 else if s == 1 || leb (s + d) 31 then some (d * 86400) else none

hours_seconds : ℕ → ℕ → Bool
hours_seconds h s =
    option_is (duration_of_fields (hours_of h s) star star star) (hours_duration h s)

hours_durations : passes 25 (λ h. passes 24 (λ s. h == 0 || hours_seconds h s)) ≡ true
unfolding passes hours_seconds hour_field duration_of_fields
hours_durations = refl

days_seconds : ℕ → ℕ → ℕ → Bool
days_seconds d s h =
    option_is (duration_of_fields (decimal h) (days_of d s) star star) (days_duration d s)

days_durations :
    passes 32 (λ d. passes 32 (λ s. passes 24 (λ h. d == 0 || s == 0 || days_seconds d s h))) ≡ true
unfolding passes days_seconds day_field duration_of_fields decimal
days_durations = refl

hours_seconds_lem : (s : XHours) → InHours s → hours_seconds s.hours s.start_hour ≡ true
hours_seconds_lem s v =
    let row = passes-at 25 _ s.hours hours_durations v.hours in
    let cell = passes-at 24 _ s.start_hour row v.start in ground arith

days_seconds_lem : (s : XDays) → InDays s → days_seconds s.days s.start_day s.hour ≡ true
days_seconds_lem s v =
    let row = passes-at 32 _ s.days days_durations v.days in
    let column = passes-at 32 _ s.start_day row v.start in
    let cell = passes-at 24 _ s.hour column v.hour in ground arith

-- For the values that the selects of the first mode offer, the duration of the expression that it
-- writes is one hour for one hour, else the chosen hours where they start at 0 or a second run fits
-- before the end of the day, and one day where it does not.
determine_duration-x_hours_expression :
    (s : XHours)
    → InHours s
    → determine_duration (x_hours_expression s) ≡ hours_duration s.hours s.start_hour
unfolding determine_duration duration_of hours_seconds
determine_duration-x_hours_expression s v =
    let (_, short, n) = number_lem s.minute v.minute in
    rw (hours_words s v, short, hour_field-eq s)
      (option_is-eq _ (hours_duration s.hours s.start_hour) (hours_seconds_lem s v))

-- For the values that the selects of the second mode offer, the duration of the expression that it
-- writes is one day for one day, else the chosen days where they start at 1 or a second run fits
-- before day 31, and where it does not, there is none.
determine_duration-x_days_expression :
    (s : XDays)
    → InDays s
    → determine_duration (x_days_expression s) ≡ days_duration s.days s.start_day
unfolding determine_duration duration_of days_seconds
determine_duration-x_days_expression s v =
    let (_, short, n) = number_lem s.minute v.minute in
    rw (days_words s v, short, day_field-eq s)
      (option_is-eq _ (days_duration s.days s.start_day) (days_seconds_lem s v))

-- For the values that the selects offer: the duration of the expression of the first mode is one hour
-- for one hour, else the chosen hours where they start at 0 or a second run fits before the end of
-- the day, and one day where none does; that of the second mode is one day for one day, else the
-- chosen days where they start at 1 or a second run fits in 31 days, and where none does, it is null.
pub determine_duration-expressions :
    (s : XHours) (d : XDays)
    → InHours s
    → InDays d
    → (determine_duration (x_hours_expression s) ≡ hours_duration s.hours s.start_hour)
      × (determine_duration (x_days_expression d) ≡ days_duration d.days d.start_day)
determine_duration-expressions s d v w =
    (determine_duration-x_hours_expression s v, determine_duration-x_days_expression d w)
