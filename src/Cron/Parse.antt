-- ===== src/Cron/Parse.antt =====
-- `parseSteppedList`, `determineMode` and `populateInitialModeState`. No pattern of
-- `determineMode` has a space inside a field, so an expression whose runs of white space are one
-- space is tested field by field.
use dataops_testgen.Base.{
  ℕ, zero, suc, ◌+◌, ◌-◌, Bool, true, false, not, ◌&&◌, ◌||◌, Option, none, some, List, [], ◌∷◌,
  map, if◌then◌else◌, leb, ◌==◌, length, all, any,
}
use dataops_testgen.Base.Text.{
  Text, codes, text_eq, starts_with, is_digit, split_by, is_empty, number, words,
}
use dataops_testgen.Cron.{
  Mode, x_hours, x_days, certain_days, custom, XHours, XDays, CertainDays, day_labels,
}

-- `values[i] - values[i - 1] === step` for all that follows
unfoldable pub steps_by : ℕ → ℕ → List ℕ → Bool
steps_by step prev [] = true
steps_by step prev (v ∷ vs) = v == prev + step && steps_by step v vs

-- `none` if one of the values is NaN
unfoldable pub all_some : List (Option ℕ) → Option (List ℕ)
all_some [] = some []
all_some (none ∷ os) = none
all_some (some n ∷ os) = elim (all_some os) [ none ↦ none | some ns ↦ some (n ∷ ns) ]

-- The result is the start and the step.
unfoldable pub stepped_of : List ℕ → Option (ℕ × ℕ)
unfolding steps_by
stepped_of [] = none
stepped_of (a ∷ []) = none
stepped_of (a ∷ b ∷ vs) =
    if leb b a then none else if steps_by (b - a) b vs then some (a, b - a) else none

unfoldable pub parse_stepped_list : Text → Option (ℕ × ℕ)
unfolding number all_some stepped_of split_by
parse_stepped_list field = elim (all_some (map number (split_by (λ c. c == b',') field))) [
  | none ↦ none
  | some values ↦ stepped_of values
]

-- `\d+`
unfoldable pub is_digits : Text → Bool
is_digits s = not (is_empty s) && all is_digit s

-- `\d{1,2}`
unfoldable pub is_short_number : Text → Bool
unfolding is_digits
is_short_number s = is_digits s && leb (length s) 2

-- `\*`
unfoldable pub is_star : Text → Bool
is_star s = text_eq s (codes "*")

-- `\*/\d+`
unfoldable pub is_step : Text → Bool
unfolding is_digits
is_step (c ∷ d ∷ s) = c == b'*' && d == b'/' && is_digits s
is_step _ = false

-- `\d+(,\d+)+`
unfoldable pub is_list : Text → Bool
unfolding is_digits split_by
is_list s =
    let pieces = split_by (λ c. c == b',') s in leb 2 (length pieces) && all is_digits pieces

unfoldable pub is_some : Option (ℕ × ℕ) → Bool
is_some none = false
is_some (some p) = true

-- `(SUN|MON|…)`, and what follows it
take_day : Text → Option Text
take_day (a ∷ b ∷ c ∷ s) = if any (text_eq (a ∷ b ∷ c ∷ [])) day_labels then some s else none
take_day _ = none

-- One round of `(DAY(-DAY)?(,)?)`, and what follows it. A `-` cannot begin a round, nor a comma,
-- so the optional parts are taken whenever they are there.
drop_comma : Text → Text
drop_comma [] = []
drop_comma (c ∷ s) = if c == b',' then s else c ∷ s

take_end : Text → Option Text
unfolding take_day
take_end [] = some []
take_end (c ∷ s) = if c == b'-' then take_day s else some (c ∷ s)

take_round : Text → Option Text
unfolding take_day take_end drop_comma
take_round s = elim (take_day s) [
  | none ↦ none
  | some t ↦ elim (take_end t) [ none ↦ none | some u ↦ some (drop_comma u) ]
]

-- The rounds up to the end; each takes a character at least, so the length is fuel enough.
are_days : ℕ → Text → Bool
unfolding take_round
are_days zero s = false
are_days (suc fuel) s = elim (take_round s) [
  | none ↦ false
  | some [] ↦ true
  | some (c ∷ t) ↦ are_days fuel (c ∷ t)
]

unfoldable pub is_days : Text → Bool
unfolding are_days
is_days s = are_days (length s) s

-- The tests of `determineMode` on the five fields, where `minute` says whether the first is `\d{1,2}`.
unfoldable pub mode_of_fields : Bool → Text → Text → Text → Text → Mode
unfolding is_star is_step is_list is_short_number is_some is_days parse_stepped_list
mode_of_fields minute h d m w =
    if (minute && is_step h && is_star d && is_star m && is_star w)
      || (minute && is_star h && is_star d && is_star m && is_star w)
    then x_hours
    else if minute
        && is_list h
        && is_star d
        && is_star m
        && is_star w
        && is_some (parse_stepped_list h)
    then x_hours
    else if (minute && is_short_number h && is_step d && is_star m && is_star w)
        || (minute && is_short_number h && is_star d && is_star m && is_star w)
    then x_days
    else if minute
        && is_short_number h
        && is_list d
        && is_star m
        && is_star w
        && is_some (parse_stepped_list d)
    then x_days
    else if minute && is_short_number h && is_star d && is_star m && is_days w
    then certain_days
    else custom

unfoldable pub mode_of : List Text → Mode
mode_of (n ∷ h ∷ d ∷ m ∷ w ∷ []) = mode_of_fields (is_short_number n) h d m w
mode_of _ = custom

unfoldable pub determine_mode : Text → Mode
determine_mode expression = mode_of (words expression)

-- `Number(s) || d`
unfoldable pub number_or : Text → ℕ → ℕ
unfolding number
number_or s d = elim (number s) [ none ↦ d | some n ↦ if n == 0 then d else n ]

includes : ℕ → Text → Bool
includes c s = any (λ d. d == c) s

-- `s.slice(2)`
abbrev pub slice2 : Text → Text
slice2 (c ∷ d ∷ s) = s
slice2 _ = []

abbrev swap : ℕ × ℕ → ℕ × ℕ
swap (start, step) = (step, start)

-- The branches on `parts[1]` and on `parts[2]`: the new count and start, from the old ones, where
-- `first` is the start that goes with no list.
unfoldable pub read_field : ℕ → Text → ℕ × ℕ → ℕ × ℕ
unfolding number_or includes parse_stepped_list
read_field first field old =
    if starts_with field (codes "*/")
    then (number_or (slice2 field) 1, first)
    else if includes b',' field
    then elim (parse_stepped_list field) [ none ↦ old | some (start, step) ↦ (step, start) ]
    else (1, first)

-- Each of the three branches of `populateInitialModeState`, on `parts`.
unfoldable pub populate_x_hours : List Text → XHours → XHours
populate_x_hours (n ∷ h ∷ d ∷ m ∷ w ∷ []) s =
    let (hours, start_hour) = read_field 0 h (s.hours, s.start_hour) in
    record { hours = hours; minute = number_or n 0; start_hour = start_hour }
populate_x_hours _ s = s

unfoldable pub populate_x_days : List Text → XDays → XDays
populate_x_days (n ∷ h ∷ d ∷ m ∷ w ∷ []) s =
    let (days, start_day) = read_field 1 d (s.days, s.start_day) in
    record { days = days; hour = number_or h 0; minute = number_or n 0; start_day = start_day }
populate_x_days _ s = s

-- `dayLabels.indexOf(label)`, one more than it, so 0 for -1.
index_from : ℕ → Text → List Text → ℕ
index_from i l [] = 0
index_from i l (k ∷ ks) = let rest = index_from (i + 1) l ks in if text_eq k l then i else rest

-- The test on one item `d` of the list of days.
abbrev range_has : ℕ → List Text → Bool
range_has idx (start ∷ end ∷ rest) =
    leb (index_from 1 start day_labels) (idx + 1) && leb (idx + 1) (index_from 1 end day_labels)
range_has idx _ = false

abbrev label_is : ℕ → Text → List Text → Bool
label_is i d [] = false
label_is zero d (l ∷ ls) = text_eq d l
label_is (suc i) d (l ∷ ls) = label_is i d ls

day_has : ℕ → Text → Bool
unfolding includes split_by index_from
day_has idx d =
    if includes b'-' d
    then range_has idx (split_by (λ c. c == b'-') d)
    else label_is idx d day_labels

unfoldable pub has_day : Text → ℕ → Bool
unfolding day_has split_by
has_day field idx = any (day_has idx) (split_by (λ c. c == b',') field)

unfoldable pub populate_certain_days : List Text → CertainDays → CertainDays
populate_certain_days (n ∷ h ∷ d ∷ m ∷ w ∷ []) s = record {
  sunday = has_day w 0;
  monday = has_day w 1;
  tuesday = has_day w 2;
  wednesday = has_day w 3;
  thursday = has_day w 4;
  friday = has_day w 5;
  saturday = has_day w 6;
  hour = number_or h 0;
  minute = number_or n 0;
}
populate_certain_days _ s = s

-- The states of the editor.
pub record Editor : Type 0 where
  pub hourly : XHours
  pub daily : XDays
  pub weekly : CertainDays

unfoldable pub populate_initial_mode_state : Text → Mode → Editor → Editor
populate_initial_mode_state expression x_hours e = record e {
  hourly = populate_x_hours (words expression) e.hourly;
}
populate_initial_mode_state expression x_days e = record e {
  daily = populate_x_days (words expression) e.daily;
}
populate_initial_mode_state expression certain_days e = record e {
  weekly = populate_certain_days (words expression) e.weekly;
}
populate_initial_mode_state expression custom e = e

-- What a new editor holds before an expression is read.
abbrev pub initial_editor : Editor
initial_editor = record {
  hourly = record { hours = 1; minute = 0; start_hour = 0 };
  daily = record { days = 1; hour = 1; minute = 0; start_day = 1 };
  weekly = record {
    sunday = false;
    monday = false;
    tuesday = false;
    wednesday = false;
    thursday = false;
    friday = false;
    saturday = false;
    hour = 1;
    minute = 0;
  };
}

-- The mode and the states with which the editor opens on an expression.
unfoldable pub open_editor : Text → Mode × Editor
open_editor expression =
    let mode = if is_empty expression then x_hours else determine_mode expression in
    (mode, populate_initial_mode_state expression mode initial_editor)
