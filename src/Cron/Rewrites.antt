-- ===== src/Cron/Rewrites.antt =====
-- An expression with a list of two hours, as a user can type it in the custom mode, and what the
-- editor makes of it when it opens.
use dataops_testgen.Base.{
  ℕ, ◌+◌, ◌-◌, ◌<◌, ◌≡◌, ◌↔◌, refl, sym, ◌∙◌, ap, Bool, true, false, not, ◌&&◌, ◌||◌, [], ◌∷◌, ◌++◌,
  ltb, leb, arith, and-eq-true_iff,
}
use dataops_testgen.Base.Text.{
  Text, words, join, decimal, is_word, words-join, text_eq, text_eq_refl, text_eq-eq,
}
use dataops_testgen.Base.Tables.{passes, passes-at}
use dataops_testgen.Cron.{x_hours, XHours, star, hour_field, x_hours_expression}
use dataops_testgen.Cron.Parse.{
  mode_of_fields, read_field, populate_x_hours, populate_initial_mode_state, initial_editor,
  open_editor,
}
use dataops_testgen.Cron.RoundTrip.{
  mode_is, mode_is-eq, pair_is, pair_is-eq, number_lem, open_editor-five, determine_mode-five,
}

-- `a,b`
abbrev pub two_hours : ℕ → ℕ → Text
two_hours a b = decimal a ++ b',' ∷ decimal b

abbrev pub two_hours_expression : ℕ → ℕ → ℕ → Text
two_hours_expression m a b = join 32 (decimal m ∷ two_hours a b ∷ star ∷ star ∷ star ∷ [])

abbrev field_of : ℕ → ℕ → Text
field_of a b = hour_field (record { hours = b - a; minute = 0; start_hour = a })

-- The start is not the first hour, the hours do not follow one another, and no third step fits.
abbrev is_kept : ℕ → ℕ → Bool
is_kept a b = ltb 0 a && (ltb 1 (b - a) && ltb 23 (b + (b - a)))

abbrev bool_eq : Bool → Bool → Bool
bool_eq true b = b
bool_eq false b = not b

bool_eq-eq : (a b : Bool) → bool_eq a b ≡ true → a ≡ b
bool_eq-eq true b h = ground arith
bool_eq-eq false b h = ground arith

two_test : ℕ → ℕ → Bool
two_test a b =
    is_word (two_hours a b)
    && (mode_is (mode_of_fields true (two_hours a b) star star star) x_hours
        && (pair_is (read_field 0 (two_hours a b) (1, 0)) (b - a) a
            && (is_word (field_of a b)
                && bool_eq (text_eq (field_of a b) (two_hours a b)) (is_kept a b))))

two_table : passes 24 (λ b. passes 24 (λ a. leb b a || two_test a b)) ≡ true
unfolding passes two_test decimal mode_of_fields read_field hour_field
two_table = refl

two_test_lem : (a b : ℕ) → a < b → b < 24 → two_test a b ≡ true
two_test_lem a b h k =
    let row = passes-at 24 _ b two_table k in
    let cell = passes-at 24 _ a row (omega arith) in ground arith

module _ (m a b : ℕ) (minute : m < 60) (less : a < b) (bound : b < 24) where
  abbrev state : XHours
  state = record { hours = b - a; minute = m; start_hour = a }

  two_parts :
      (is_word (two_hours a b) ≡ true)
      × (mode_of_fields true (two_hours a b) star star star ≡ x_hours)
      × ((read_field 0 (two_hours a b) (1, 0)).0 ≡ b - a)
      × ((read_field 0 (two_hours a b) (1, 0)).1 ≡ a)
      × (is_word (field_of a b) ≡ true)
      × (text_eq (field_of a b) (two_hours a b) ≡ is_kept a b)
  unfolding two_test
  two_parts =
      let t = two_test_lem a b less bound in
      let (w, t1) = (and-eq-true_iff _ _).0 t in
      let (e, t2) = (and-eq-true_iff _ _).0 t1 in
      let (p, t3) = (and-eq-true_iff _ _).0 t2 in
      let (f, t4) = (and-eq-true_iff _ _).0 t3 in
      let (x, y) = pair_is-eq (read_field 0 (two_hours a b) (1, 0)) (b - a) a p in
      (w, mode_is-eq _ _ e, x, y, f, bool_eq-eq _ _ t4)

  two_words :
      words (two_hours_expression m a b) ≡ decimal m ∷ two_hours a b ∷ star ∷ star ∷ star ∷ []
  two_words =
      words-join (decimal m) (two_hours a b ∷ star ∷ star ∷ star ∷ [])
        ((number_lem m minute).0, (two_parts.0, (refl, (refl, (refl, tt)))))

  two_populated :
      populate_initial_mode_state (two_hours_expression m a b) x_hours initial_editor
      ≡ record initial_editor { hourly = state }
  unfolding populate_initial_mode_state populate_x_hours
  two_populated =
      let (w, e, x, y, f, t) = two_parts in
      let (_, short, n) = number_lem m minute in rw (two_words, n, x, y)

  opened_two :
      open_editor (two_hours_expression m a b) ≡ (x_hours, record initial_editor { hourly = state })
  opened_two =
      let (w, e, x, y, f, t) = two_parts in
      let (_, short, n) = number_lem m minute in
      rw (
        open_editor-five _ _ _ _ _ _ two_words,
        determine_mode-five _ _ _ _ _ _ two_words,
        short,
        e,
        two_populated,
      )

  written_words :
      words (x_hours_expression state) ≡ decimal m ∷ field_of a b ∷ star ∷ star ∷ star ∷ []
  unfolding x_hours_expression hour_field
  written_words =
      words-join (decimal m) (field_of a b ∷ star ∷ star ∷ star ∷ [])
        ((number_lem m minute).0, (two_parts.4, (refl, (refl, (refl, tt)))))

  written_same :
      (x_hours_expression state ≡ two_hours_expression m a b)
      ↔ (text_eq (field_of a b) (two_hours a b) ≡ true)
  unfolding x_hours_expression hour_field
  written_same = (
    λ e.
        let same : field_of a b ≡ two_hours a b = cc (written_words, two_words, ap words e) in
        rw same (text_eq_refl (two_hours a b)),
    λ h. ap (λ f. join 32 (decimal m ∷ f ∷ star ∷ star ∷ star ∷ [])) (text_eq-eq _ _ h),
  )

  kept_iff : (is_kept a b ≡ true) ↔ (0 < a) × (1 < b - a) × (23 < b + (b - a))
  kept_iff = (λ h. ground arith, λ h. ground arith)

-- On an expression with a list of two hours `a` and `b` of one day, the earlier one first, the editor
-- opens in the first mode, with the distance of the two as the step and `a` as the start. What it
-- then writes is the expression exactly when `a` is not the first hour, the hours do not follow one
-- another and no third step fits before the end of the day; otherwise it is another one.
pub open_editor-two_hours :
    (m a b : ℕ)
    → m < 60
    → a < b
    → b < 24
    → (open_editor (two_hours_expression m a b) ≡ (
      x_hours,
      record initial_editor { hourly = record { hours = b - a; minute = m; start_hour = a } },
    ))
      × ((x_hours_expression (open_editor (two_hours_expression m a b)).1.hourly
            ≡ two_hours_expression m a b)
          ↔ (0 < a) × (1 < b - a) × (23 < b + (b - a)))
open_editor-two_hours m a b h l k =
    let e = opened_two m a b h l k in
    let (to, from) = written_same m a b h l k in
    let (kept, keeps) = kept_iff m a b h l k in
    let same = (two_parts m a b h l k).5 in
    (e, rw e (λ w. kept (sym same ∙ to w), λ c. from (same ∙ keeps c)))
