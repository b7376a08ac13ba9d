-- ===== src/Cron/Week.antt =====
-- The expressions that the third mode writes, read back by an editor that opens on them.
use dataops_testgen.Base.{
  ◌<◌, ◌≡◌, refl, Bool, true, false, not, ◌&&◌, List, [], ◌∷◌, if◌then◌else◌, any, all, All,
  and-eq-true_iff, arith,
}
use dataops_testgen.Base.Text.{Text, words, decimal, is_word, words-join}
use dataops_testgen.Base.Tables.{passes, passes-at}
use dataops_testgen.Cron.{
  certain_days, CertainDays, ticks, star, week_field, certain_days_expression,
}
use dataops_testgen.Cron.Parse.{
  mode_of_fields, has_day, populate_certain_days, populate_initial_mode_state, initial_editor,
  open_editor,
}
use dataops_testgen.Cron.RoundTrip.{
  mode_is, mode_is-eq, number_lem, open_editor-five, determine_mode-five,
}

-- A test of both values.
both : (Bool → Bool) → Bool
both p = p true && p false

both_sound : (p : Bool → Bool) (b : Bool) → both p ≡ true → p b ≡ true
unfolding both
both_sound p true h = ground arith
both_sound p false h = ground arith

abbrev week : (a b c d e f g : Bool) → CertainDays
week a b c d e f g = record {
  sunday = a;
  monday = b;
  tuesday = c;
  wednesday = d;
  thursday = e;
  friday = f;
  saturday = g;
  hour = 0;
  minute = 0;
}

abbrev same : Bool → Bool → Bool
same true b = b
same false b = not b

same-eq : (a b : Bool) → same a b ≡ true → a ≡ b
same-eq a b h = ground arith

abbrev all_true : List Bool → Bool
all_true bs = all (λ b. b) bs

All-all_true : (bs : List Bool) → all_true bs ≡ true → All (λ b. b ≡ true) bs
All-all_true [] h = tt
All-all_true (b ∷ bs) h = let (e, es) = (and-eq-true_iff b _).0 h in (e, All-all_true bs es)

-- The field of the days is a word from which each day is read back.
abbrev readings : Text → CertainDays → List Bool
readings w s =
    is_word w
    ∷ same (has_day w 0) s.sunday
    ∷ same (has_day w 1) s.monday
    ∷ same (has_day w 2) s.tuesday
    ∷ same (has_day w 3) s.wednesday
    ∷ same (has_day w 4) s.thursday
    ∷ same (has_day w 5) s.friday
    ∷ same (has_day w 6) s.saturday
    ∷ []

week_test : CertainDays → Bool
week_test s =
    if any (λ b. b) (ticks s)
    then all_true (readings (week_field s) s)
      && passes 24
          (λ h. mode_is (mode_of_fields true (decimal h) star star (week_field s)) certain_days)
    else true

abbrev every_week : (CertainDays → Bool) → Bool
every_week p =
    both λ a. both λ b. both λ c. both λ d. both λ e. both λ f. both λ g. p (week a b c d e f g)

weeks : every_week week_test ≡ true
unfolding both week_test week_field has_day mode_of_fields passes decimal
weeks = refl

every_week_sound :
    (p : CertainDays → Bool) (a b c d e f g : Bool)
    → every_week p ≡ true
    → p (week a b c d e f g) ≡ true
every_week_sound p a b c d e f g h = both_sound _ g (
    both_sound _ f
      (both_sound _ e (both_sound _ d (both_sound _ c (both_sound _ b (both_sound _ a h))))))

abbrev week_of : CertainDays → CertainDays
week_of s = week s.sunday s.monday s.tuesday s.wednesday s.thursday s.friday s.saturday

week_field-eq : (s : CertainDays) → week_field s ≡ week_field (week_of s)
unfolding week_field
week_field-eq s = refl

week_test_lem : (s : CertainDays) → week_test (week_of s) ≡ true
week_test_lem s =
    every_week_sound week_test s.sunday s.monday s.tuesday s.wednesday s.thursday s.friday
      s.saturday weeks

module _ (s : CertainDays) (some_day : any (λ b. b) (ticks s) ≡ true) where
  week_tests :
      (all_true (readings (week_field s) s) ≡ true)
      × (passes 24
            (λ h. mode_is (mode_of_fields true (decimal h) star star (week_field s)) certain_days)
          ≡ true)
  unfolding week_test
  week_tests = rw (week_field-eq s) ((and-eq-true_iff _ _).0 (rw some_day at (week_test_lem s)))

  week_readings : All (λ b. b ≡ true) (readings (week_field s) s)
  week_readings = All-all_true (readings (week_field s) s) week_tests.0

  week_mode :
      s.hour < 24 → mode_of_fields true (decimal s.hour) star star (week_field s) ≡ certain_days
  week_mode h = mode_is-eq _ _ (
      passes-at 24
        (λ k. mode_is (mode_of_fields true (decimal k) star star (week_field s)) certain_days)
        s.hour week_tests.1 h)

  week_words :
      s.hour < 24
      → s.minute < 60
      → words (certain_days_expression s)
        ≡ decimal s.minute ∷ decimal s.hour ∷ star ∷ star ∷ week_field s ∷ []
  unfolding certain_days_expression
  week_words h m =
      words-join (decimal s.minute) (decimal s.hour ∷ star ∷ star ∷ week_field s ∷ []) (
        (number_lem s.minute m).0,
        ((number_lem s.hour (omega arith)).0, (refl, (refl, (week_readings.0, tt)))),
      )

  week_populated :
      s.hour < 24
      → s.minute < 60
      → populate_initial_mode_state (certain_days_expression s) certain_days initial_editor
        ≡ record initial_editor { weekly = s }
  unfolding populate_initial_mode_state populate_certain_days
  week_populated h m =
      let (_, short, n) = number_lem s.minute m in
      let (_, short', k) = number_lem s.hour (omega arith) in
      let (_, (a, (b, (c, (d, (e, (f, (g, _)))))))) = week_readings in
      rw (
        week_words h m,
        n,
        k,
        same-eq (has_day (week_field s) 0) s.sunday a,
        same-eq (has_day (week_field s) 1) s.monday b,
        same-eq (has_day (week_field s) 2) s.tuesday c,
        same-eq (has_day (week_field s) 3) s.wednesday d,
        same-eq (has_day (week_field s) 4) s.thursday e,
        same-eq (has_day (week_field s) 5) s.friday f,
        same-eq (has_day (week_field s) 6) s.saturday g,
      )

-- An editor in the third mode writes an expression on which it opens again in the same mode and
-- state, if some day is ticked and the hour and the minute are ones that the selects offer.
pub open_editor-certain_days_expression :
    (s : CertainDays)
    → any (λ b. b) (ticks s) ≡ true
    → s.hour < 24
    → s.minute < 60
    → open_editor (certain_days_expression s) ≡ (certain_days, record initial_editor { weekly = s })
open_editor-certain_days_expression s some_day h m =
    let w = week_words s some_day h m in
    let (_, short, n) = number_lem s.minute m in
    rw (
      open_editor-five _ _ _ _ _ _ w,
      determine_mode-five _ _ _ _ _ _ w,
      short,
      week_mode s some_day h,
      week_populated s some_day h m,
    )
