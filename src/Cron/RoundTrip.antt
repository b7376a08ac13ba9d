-- ===== src/Cron/RoundTrip.antt =====
-- The expressions that the first two modes write, read back by an editor that opens on them.
use dataops_testgen.Base.{
  ℕ, ◌+◌, ◌<◌, ◌≡◌, refl, Bool, true, false, ◌&&◌, ◌||◌, List, [], ◌∷◌, if◌then◌else◌, leb, ◌==◌,
  arith,
}
use dataops_testgen.Base.Text.{Text, is_empty, words, decimal, is_word, IsWord, words-join}
use dataops_testgen.Base.Tables.{passes, passes-at}
use dataops_testgen.Cron.{
  Mode, x_hours, x_days, certain_days, custom, XHours, XDays, star, hour_field, day_field,
  x_hours_expression, x_days_expression,
}
use dataops_testgen.Cron.Parse.{
  number_or, is_short_number, mode_of_fields, mode_of, determine_mode, read_field, populate_x_hours,
  populate_x_days, populate_initial_mode_state, initial_editor, open_editor,
}

abbrev pub mode_is : Mode → Mode → Bool
mode_is x_hours x_hours = true
mode_is x_days x_days = true
mode_is certain_days certain_days = true
mode_is custom custom = true
mode_is _ _ = false

pub mode_is-eq : (a b : Mode) → mode_is a b ≡ true → a ≡ b
mode_is-eq a b h = ground arith

abbrev pub pair_is : ℕ × ℕ → ℕ → ℕ → Bool
pair_is (a, b) c d = a == c && b == d

pub pair_is-eq : (p : ℕ × ℕ) (c d : ℕ) → pair_is p c d ≡ true → (p.0 ≡ c) × (p.1 ≡ d)
pair_is-eq (a, b) c d h = ground arith

-- A number of two digits is a word that `\d{1,2}` takes and `Number` reads back.
number_test : ℕ → Bool
number_test n = is_word (decimal n) && is_short_number (decimal n) && number_or (decimal n) 0 == n

numbers : passes 60 number_test ≡ true
unfolding passes number_test decimal is_short_number number_or
numbers = refl

pub number_lem :
    (n : ℕ)
    → n < 60
    → IsWord (decimal n) × (is_short_number (decimal n) ≡ true) × (number_or (decimal n) 0 ≡ n)
unfolding number_test
number_lem n h =
    let t = passes-at 60 number_test n numbers h in (ground arith, ground arith, ground arith)

-- The count and the start that a field of the form `*`, `*/n` or `a,b,…` up to `max` can hold,
-- where `first` is the start that stands for "from the beginning".
abbrev pub is_readable : (first max count start : ℕ) → Bool
is_readable first max count start =
    if leb count 1 then start == first else (start == first || leb (start + count) max)

abbrev pub hours_of : ℕ → ℕ → Text
hours_of h s = hour_field (record { hours = h; minute = 0; start_hour = s })

hours_test : ℕ → ℕ → Bool
hours_test h s =
    is_word (hours_of h s)
    && (if is_readable 0 23 h s
        then mode_is (mode_of_fields true (hours_of h s) star star star) x_hours
          && pair_is (read_field 0 (hours_of h s) (1, 0)) h s
        else leb h 1 || mode_is (mode_of_fields true (hours_of h s) star star star) x_days)

hours_table : passes 25 (λ h. passes 24 (λ s. h == 0 || hours_test h s)) ≡ true
unfolding passes hours_test hour_field mode_of_fields read_field
hours_table = refl

abbrev pub days_of : ℕ → ℕ → Text
days_of d s = day_field (record { days = d; hour = 0; minute = 0; start_day = s })

days_test : ℕ → ℕ → ℕ → Bool
days_test d s h =
    is_word (days_of d s)
    && (if is_readable 1 31 d s
        then mode_is (mode_of_fields true (decimal h) (days_of d s) star star) x_days
          && pair_is (read_field 1 (days_of d s) (1, 1)) d s
        else leb d 1 || mode_is (mode_of_fields true (decimal h) (days_of d s) star star) custom)

days_table :
    passes 32 (λ d. passes 32 (λ s. passes 24 (λ h. d == 0 || s == 0 || days_test d s h))) ≡ true
unfolding passes days_test day_field mode_of_fields read_field decimal
days_table = refl

-- What the selects of the first mode offer.
pub record InHours (s : XHours) : Type 0 where
  pub some_hours : 0 < s.hours
  pub hours : s.hours < 25
  pub start : s.start_hour < 24
  pub minute : s.minute < 60

pub record InDays (s : XDays) : Type 0 where
  pub some_days : 0 < s.days
  pub days : s.days < 32
  pub first : 0 < s.start_day
  pub start : s.start_day < 32
  pub hour : s.hour < 24
  pub minute : s.minute < 60

hours_test_lem : (s : XHours) → InHours s → hours_test s.hours s.start_hour ≡ true
hours_test_lem s v =
    let row = passes-at 25 _ s.hours hours_table v.hours in
    let cell = passes-at 24 _ s.start_hour row v.start in ground arith

days_test_lem : (s : XDays) → InDays s → days_test s.days s.start_day s.hour ≡ true
days_test_lem s v =
    let row = passes-at 32 _ s.days days_table v.days in
    let column = passes-at 32 _ s.start_day row v.start in
    let cell = passes-at 24 _ s.hour column v.hour in ground arith

not-is_empty_of_words :
    (e : Text) (x : Text) (xs : List Text) → words e ≡ x ∷ xs → is_empty e ≡ false
unfolding words
not-is_empty_of_words [] x xs h = cc
not-is_empty_of_words (c ∷ s) x xs h = refl

pub hour_field-eq : (s : XHours) → hour_field s ≡ hours_of s.hours s.start_hour
unfolding hour_field
hour_field-eq s = refl

pub day_field-eq : (s : XDays) → day_field s ≡ days_of s.days s.start_day
unfolding day_field
day_field-eq s = refl

hours-IsWord : (s : XHours) → InHours s → IsWord (hour_field s)
unfolding hours_test
hours-IsWord s v = let t = hours_test_lem s v in rw (hour_field-eq s) (ground arith)

days-IsWord : (s : XDays) → InDays s → IsWord (day_field s)
unfolding days_test
days-IsWord s v = let t = days_test_lem s v in rw (day_field-eq s) (ground arith)

pub hours_words :
    (s : XHours)
    → InHours s
    → words (x_hours_expression s) ≡ decimal s.minute ∷ hour_field s ∷ star ∷ star ∷ star ∷ []
unfolding x_hours_expression
hours_words s v =
    words-join (decimal s.minute) (hour_field s ∷ star ∷ star ∷ star ∷ [])
      ((number_lem s.minute v.minute).0, (hours-IsWord s v, (refl, (refl, (refl, tt)))))

pub days_words :
    (s : XDays)
    → InDays s
    → words (x_days_expression s)
      ≡ decimal s.minute ∷ decimal s.hour ∷ day_field s ∷ star ∷ star ∷ []
unfolding x_days_expression
days_words s v = words-join (decimal s.minute) (decimal s.hour ∷ day_field s ∷ star ∷ star ∷ []) (
  (number_lem s.minute v.minute).0,
  ((number_lem s.hour (omega arith)).0, (days-IsWord s v, (refl, (refl, tt)))),
)

-- The three facts about a field that can be read back, and the one about one that cannot.
module _ (s : XHours) (v : InHours s) where
  hours_mode :
      is_readable 0 23 s.hours s.start_hour ≡ true
      → mode_of_fields true (hour_field s) star star star ≡ x_hours
  unfolding hours_test
  hours_mode r = let t = hours_test_lem s v in rw (hour_field-eq s) (mode_is-eq _ _ (ground arith))

  hours_read :
      is_readable 0 23 s.hours s.start_hour ≡ true
      → ((read_field 0 (hour_field s) (1, 0)).0 ≡ s.hours)
        × ((read_field 0 (hour_field s) (1, 0)).1 ≡ s.start_hour)
  unfolding hours_test
  hours_read r =
      let t = hours_test_lem s v in
      rw (hour_field-eq s)
        (pair_is-eq (read_field 0 (hours_of s.hours s.start_hour) (1, 0)) _ _ (ground arith))

  hours_lost :
      1 < s.hours
      → is_readable 0 23 s.hours s.start_hour ≡ false
      → mode_of_fields true (hour_field s) star star star ≡ x_days
  unfolding hours_test
  hours_lost m r =
      let t = hours_test_lem s v in rw (hour_field-eq s) (mode_is-eq _ _ (ground arith))

module _ (s : XDays) (v : InDays s) where
  days_mode :
      is_readable 1 31 s.days s.start_day ≡ true
      → mode_of_fields true (decimal s.hour) (day_field s) star star ≡ x_days
  unfolding days_test
  days_mode r = let t = days_test_lem s v in rw (day_field-eq s) (mode_is-eq _ _ (ground arith))

  days_read :
      is_readable 1 31 s.days s.start_day ≡ true
      → ((read_field 1 (day_field s) (1, 1)).0 ≡ s.days)
        × ((read_field 1 (day_field s) (1, 1)).1 ≡ s.start_day)
  unfolding days_test
  days_read r =
      let t = days_test_lem s v in
      rw (day_field-eq s)
        (pair_is-eq (read_field 1 (days_of s.days s.start_day) (1, 1)) _ _ (ground arith))

  days_lost :
      1 < s.days
      → is_readable 1 31 s.days s.start_day ≡ false
      → mode_of_fields true (decimal s.hour) (day_field s) star star ≡ custom
  unfolding days_test
  days_lost m r = let t = days_test_lem s v in rw (day_field-eq s) (mode_is-eq _ _ (ground arith))

module _ (n h d m w e : Text) (five : words e ≡ n ∷ h ∷ d ∷ m ∷ w ∷ []) where
  pub open_editor-five :
      open_editor e
      ≡ (determine_mode e, populate_initial_mode_state e (determine_mode e) initial_editor)
  unfolding open_editor
  open_editor-five = rw (not-is_empty_of_words e n _ five)

  pub determine_mode-five : determine_mode e ≡ mode_of_fields (is_short_number n) h d m w
  unfolding determine_mode mode_of
  determine_mode-five = rw five

hours_populated :
    (s : XHours)
    → InHours s
    → is_readable 0 23 s.hours s.start_hour ≡ true
    → populate_initial_mode_state (x_hours_expression s) x_hours initial_editor
      ≡ record initial_editor { hourly = s }
unfolding populate_initial_mode_state populate_x_hours
hours_populated s v r =
    let (_, short, n) = number_lem s.minute v.minute in
    let (a, b) = hours_read s v r in rw (hours_words s v, n, a, b)

days_populated :
    (s : XDays)
    → InDays s
    → is_readable 1 31 s.days s.start_day ≡ true
    → populate_initial_mode_state (x_days_expression s) x_days initial_editor
      ≡ record initial_editor { daily = s }
unfolding populate_initial_mode_state populate_x_days
days_populated s v r =
    let (_, short, n) = number_lem s.minute v.minute in
    let (_, short', h) = number_lem s.hour (omega arith) in
    let (a, b) = days_read s v r in rw (days_words s v, n, h, a, b)

-- An editor in the first mode writes an expression on which it opens again in the same mode and
-- state, if the values are ones that the selects offer, and the start is 0 or a second run
-- fits before the end of the day (for one hour: if the start is 0).
pub open_editor-x_hours_expression :
    (s : XHours)
    → InHours s
    → is_readable 0 23 s.hours s.start_hour ≡ true
    → open_editor (x_hours_expression s) ≡ (x_hours, record initial_editor { hourly = s })
open_editor-x_hours_expression s v r =
    let w = hours_words s v in
    let (_, short, n) = number_lem s.minute v.minute in
    rw (
      open_editor-five _ _ _ _ _ _ w,
      determine_mode-five _ _ _ _ _ _ w,
      short,
      hours_mode s v r,
      hours_populated s v r,
    )

-- So does an editor in the second mode, with the start 1 and the days 1 to 31.
pub open_editor-x_days_expression :
    (s : XDays)
    → InDays s
    → is_readable 1 31 s.days s.start_day ≡ true
    → open_editor (x_days_expression s) ≡ (x_days, record initial_editor { daily = s })
open_editor-x_days_expression s v r =
    let w = days_words s v in
    let (_, short, n) = number_lem s.minute v.minute in
    rw (
      open_editor-five _ _ _ _ _ _ w,
      determine_mode-five _ _ _ _ _ _ w,
      short,
      days_mode s v r,
      days_populated s v r,
    )

-- In the first mode, if only one run fits before the end of the day, the expression names a single
-- hour, and the editor opens on it in the second mode.
pub open_editor_single_hour :
    (s : XHours)
    → InHours s
    → 1 < s.hours
    → is_readable 0 23 s.hours s.start_hour ≡ false
    → (open_editor (x_hours_expression s)).0 ≡ x_days
open_editor_single_hour s v m r =
    let w = hours_words s v in
    let (_, short, n) = number_lem s.minute v.minute in
    rw (open_editor-five _ _ _ _ _ _ w, determine_mode-five _ _ _ _ _ _ w, short)
      (hours_lost s v m r)

-- In the second mode, if only one run fits before the end of the month, the expression names a
-- single day, and the editor opens on it in the custom mode.
pub open_editor_single_day :
    (s : XDays)
    → InDays s
    → 1 < s.days
    → is_readable 1 31 s.days s.start_day ≡ false
    → (open_editor (x_days_expression s)).0 ≡ custom
open_editor_single_day s v m r =
    let w = days_words s v in
    let (_, short, n) = number_lem s.minute v.minute in
    rw (open_editor-five _ _ _ _ _ _ w, determine_mode-five _ _ _ _ _ _ w, short)
      (days_lost s v m r)
