-- ===== src/Cron.antt =====
-- Component `CrontabInput` (testgen/ui/static/js/components/crontab_input.js): the editor's three
-- states, the expression that each writes, and the functions that read an expression back.
-- Hours, days and minutes are natural numbers, as the options of the selects are. `Number` is read
-- on digits alone: the lists and steps that reach it are those that a test of digits lets through.
pub mod Parse
pub mod RoundTrip
pub mod Week
pub mod Rewrites
pub mod Editing
pub mod Loop
mod Tests
use dataops_testgen.Base.{
  ℕ, zero, suc, ◌+◌, ◌-◌, ◌*◌, Bool, true, false, not, ◌&&◌, ◌||◌, Option, none, some, List, [],
  ◌∷◌, ◌++◌, map, if◌then◌else◌, ltb, leb, ◌==◌, length, all, any, or_default,
}
use dataops_testgen.Base.Text.{
  Text, codes, text_eq, starts_with, is_digit, split_by, join, is_empty, words, decimal,
}

pub data Mode : Type 0 where
  x_hours x_days certain_days custom : Mode

pub record XHours : Type 0 where
  pub hours : ℕ
  pub minute : ℕ
  pub start_hour : ℕ

pub record XDays : Type 0 where
  pub days : ℕ
  pub hour : ℕ
  pub minute : ℕ
  pub start_day : ℕ

pub record CertainDays : Type 0 where
  pub sunday : Bool
  pub monday : Bool
  pub tuesday : Bool
  pub wednesday : Bool
  pub thursday : Bool
  pub friday : Bool
  pub saturday : Bool
  pub hour : ℕ
  pub minute : ℕ

-- The loop of `generateSteppedValues`; the fuel is what `i` can still grow, and one more.
unfoldable pub stepped_from : ℕ → ℕ → ℕ → ℕ → List ℕ
stepped_from zero i step max = []
stepped_from (suc fuel) i step max =
    let rest = stepped_from fuel (i + step) step max in if leb i max then i ∷ rest else []

unfoldable pub stepped_values : ℕ → ℕ → ℕ → List ℕ
unfolding stepped_from
stepped_values start step max = stepped_from (suc max) start step max

unfoldable pub generate_stepped_values : ℕ → ℕ → ℕ → Text
unfolding stepped_values decimal join
generate_stepped_values start step max = join b',' (map decimal (stepped_values start step max))

abbrev pub star : Text
star = b'*' ∷ []

-- `'*/' + n`
abbrev every : ℕ → Text
every n = b'*' ∷ b'/' ∷ decimal n

unfoldable pub hour_field : XHours → Text
unfolding generate_stepped_values
hour_field s =
    if leb s.hours 1
    then star
    else if ltb 0 s.start_hour
    then generate_stepped_values s.start_hour s.hours 23
    else every s.hours

pub x_hours_expression : XHours → Text
x_hours_expression s = join 32 (decimal s.minute ∷ hour_field s ∷ star ∷ star ∷ star ∷ [])

unfoldable pub day_field : XDays → Text
unfolding generate_stepped_values
day_field s =
    if leb s.days 1
    then star
    else if ltb 1 s.start_day
    then generate_stepped_values s.start_day s.days 31
    else every s.days

pub x_days_expression : XDays → Text
x_days_expression s = join 32 (decimal s.minute ∷ decimal s.hour ∷ day_field s ∷ star ∷ star ∷ [])

-- `dayMap` and `dayLabels`
abbrev pub day_labels : List Text
day_labels =
    codes "SUN"
    ∷ codes "MON"
    ∷ codes "TUE"
    ∷ codes "WED"
    ∷ codes "THU"
    ∷ codes "FRI"
    ∷ codes "SAT"
    ∷ []

abbrev pub ticks : CertainDays → List Bool
ticks s = s.sunday ∷ s.monday ∷ s.tuesday ∷ s.wednesday ∷ s.thursday ∷ s.friday ∷ s.saturday ∷ []

-- The sorted indices of the selected days.
abbrev indices_from : ℕ → List Bool → List ℕ
indices_from i [] = []
indices_from i (b ∷ bs) = let rest = indices_from (i + 1) bs in if b then i ∷ rest else rest

-- The loop over `indices`: `rangeStart` and `prev` are null together, before the first round. The
-- last round pushes the range that is open.
pub ranges_from : ℕ → ℕ → List ℕ → List (ℕ × ℕ)
ranges_from start prev [] = (start, prev) ∷ []
ranges_from start prev (i ∷ is) =
    let rest = ranges_from (if i == prev + 1 then start else i) i is in
    if i == prev + 1 then rest else (start, prev) ∷ rest

pub ranges : List ℕ → List (ℕ × ℕ)
unfolding ranges_from
ranges [] = []
ranges (i ∷ is) = ranges_from i i is

label : ℕ → List Text → Text
label i [] = []
label zero (l ∷ ls) = l
label (suc i) (l ∷ ls) = label i ls

pub range_text : ℕ × ℕ → Text
unfolding label
range_text (start, end) =
    if start == end
    then label start day_labels
    else label start day_labels ++ b'-' ∷ label end day_labels

pub week_field : CertainDays → Text
unfolding ranges range_text join
week_field s =
    if any (λ b. b) (ticks s)
    then join b',' (map range_text (ranges (indices_from 0 (ticks s))))
    else star

pub certain_days_expression : CertainDays → Text
certain_days_expression s =
    join 32 (decimal s.minute ∷ decimal s.hour ∷ star ∷ star ∷ week_field s ∷ [])
