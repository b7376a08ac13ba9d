-- ===== src/Monitor/Valid.antt =====
-- When the settings of the monitors count as valid.
use dataops_testgen.Base.{
  String, split_if, ◌≡◌, refl, sym, ◌∙◌, Bool, true, false, not, ◌&&◌, ◌||◌, Option, none, some,
  List, [], All, if◌then◌else◌, arith, or_default, bool_ne, Bool-cases, inl, inr,
}
use mathlib.Core.Path.{subst}
use dataops_testgen.Base.Text.{text_eq_refl}
use dataops_testgen.Validators.{Floats}
use dataops_testgen.Validators.Passes.{filled, in_range, is_none-number_between}
use dataops_testgen.Inputs.{
  runs, Field, Form, valid, every, put_entry, reports, reacts, mounts, change_to,
}
use dataops_testgen.Inputs.Reports.{
  IsDistinct, runs-keeps, reports-state, reports-entries, reports-total, reports-some,
}
use dataops_testgen.Inputs.Errors.{input_laws}
use dataops_testgen.Inputs.Current.{state-change_to}
use dataops_testgen.Monitor.{
  MonitorState, MonitorEvent, tick_holidays, monitor_fields, monitor_after, lookback_field,
  min_lookback_field, codes_field, monitor_event, monitor_open,
}

-- The entry of an input in the markup says whether it has no errors, that of another is true.
abbrev held : Field MonitorState → MonitorState → Bool
held f s = not (f.shown s) || valid f s

record IsHeld (fields : List (Field MonitorState)) (form : Form MonitorState) : Type 0 where
  entries : All (λ f. form.validity f.name ≡ some (held f form.state)) fields
  total : form.is_valid ≡ every fields form.validity

-- An input that is taken away does not report on the change that does it.
abbrev IsQuiet : MonitorState → MonitorState → Field MonitorState → Type 0
IsQuiet old new f = f.shown old ≡ true → f.shown new ≡ false → reacts old new f ≡ false

held_entry :
    (f : Field MonitorState) (old new : MonitorState) (m0 m m' m'' : Option Bool)
    → m0 ≡ some (held f old)
    → m ≡ (if f.shown old && not (f.shown new) then some true else m0)
    → IsQuiet old new f
    → m' ≡ (if reacts old new f then some (valid f new) else m)
    → m'' ≡ (if mounts old new f then some (valid f new) else m')
    → m'' ≡ some (held f new)
held_entry f old new m0 m m' m'' h r quiet e e' = elim (Bool-cases (f.shown old)) [
  | inl was ↦ elim (Bool-cases (f.shown new)) [
    | inl on ↦ ground arith
    | inr off ↦ let q : reacts old new f ≡ false = quiet was off in ground arith
  ]
  | inr away ↦ elim (Bool-cases (f.shown new)) [ inl on ↦ ground arith | inr off ↦ ground arith ]
]

module _ (floats : Floats) where
  fields-IsDistinct : IsDistinct (monitor_fields floats)
  unfolding monitor_fields
  fields-IsDistinct = (refl, (refl, (refl, tt)))

  -- A change of the states, with the entries and `isValid` that the derive has left.
  change_to-IsHeld :
      (new : MonitorState) (form : Form MonitorState) (p : String → Option Bool) (v : Bool)
      → All (IsQuiet form.state new) (monitor_fields floats)
      → All (λ f. form.validity f.name ≡ some (held f form.state)) (monitor_fields floats)
      → All
          (λ f.
            p f.name
            ≡ (if f.shown form.state && not (f.shown new) then some true else form.validity f.name))
          (monitor_fields floats)
      → v ≡ every (monitor_fields floats) p
      → IsHeld
          (monitor_fields floats)
          (change_to (monitor_fields floats) new (record form { validity = p; is_valid = v }))
  unfolding change_to monitor_fields
  change_to-IsHeld new form p v quiet was left total =
      let fields : List (Field MonitorState) = monitor_fields floats in
      let start : Form MonitorState = record form { state = new; validity = p; is_valid = v } in
      let first : Form MonitorState = reports fields (reacts form.state new) new fields start in
      let second : Form MonitorState = reports fields (mounts form.state new) new fields first in
      let at_new : second.state ≡ new =
        state-change_to fields new (record form { validity = p; is_valid = v }) in
      let one : _ =
        reports-entries fields (reacts form.state new) new fields start fields-IsDistinct in
      let two : _ =
        reports-entries fields (mounts form.state new) new fields first fields-IsDistinct in
      record {
        entries =
            subst (λ t. All (λ f. second.validity f.name ≡ some (held f t)) fields) (sym at_new)
              (
                held_entry (lookback_field floats) form.state new _ _ _ _ was.0 left.0 quiet.0 one.0
                    two.0,
                (
                  held_entry (min_lookback_field floats) form.state new _ _ _ _ was.1.0 left.1.0
                      quiet.1.0 one.1.0 two.1.0,
                  (
                    held_entry codes_field form.state new _ _ _ _ was.1.1.0 left.1.1.0 quiet.1.1.0
                        one.1.1.0 two.1.1.0,
                    tt,
                  ),
                ),
              );
        total =
            reports-total fields (mounts form.state new) new fields first
              (reports-total fields (reacts form.state new) new fields start total);
      }

  codes-IsQuiet : (e : MonitorEvent) (s : MonitorState) → IsQuiet s (monitor_after e s) codes_field
  unfolding monitor_after
  codes-IsQuiet (tick_holidays true) s on off = absurd cc
  codes-IsQuiet (tick_holidays false) s on off =
      rw (text_eq_refl (or_default s.holiday_codes [])) (ground arith)
  codes-IsQuiet e s on off = absurd cc

  -- Only the box for the holidays takes the input for the codes away, and it leaves the codes alone.
  monitor_after-IsQuiet :
      (e : MonitorEvent) (s : MonitorState)
      → All (IsQuiet s (monitor_after e s)) (monitor_fields floats)
  unfolding monitor_fields monitor_after
  monitor_after-IsQuiet e s = (λ on off. absurd cc, (λ on off. absurd cc, (codes-IsQuiet e s, tt)))

  monitor_event-IsHeld :
      (e : MonitorEvent) (form : Form MonitorState)
      → IsHeld (monitor_fields floats) form
      → IsHeld (monitor_fields floats) (monitor_event floats e form)
  unfolding monitor_event
  monitor_event-IsHeld e form h =
      let fields : List (Field MonitorState) = monitor_fields floats in
      let new : MonitorState = monitor_after e form.state in
      let quiet : All (IsQuiet form.state new) fields = monitor_after-IsQuiet e form.state in
      split_if (λ x. IsHeld fields (change_to fields new x))
        (bool_ne form.state.exclude_holidays new.exclude_holidays)
        (λ switched.
          split_if (λ x. IsHeld fields (change_to fields new x)) new.exclude_holidays
            (λ on.
              change_to-IsHeld new form form.validity form.is_valid quiet h.entries
                (refl, (refl, (ground arith, tt))) h.total)
            (λ off.
              change_to-IsHeld new form
                (put_entry form.validity "predict_holiday_codes" (some true))
                (every fields (put_entry form.validity "predict_holiday_codes" (some true))) quiet
                h.entries (refl, (refl, (ground arith, tt))) refl))
        (λ same.
          change_to-IsHeld new form form.validity form.is_valid quiet h.entries
            (refl, (refl, (ground arith, tt))) h.total)

  shown_entry :
      (b v : Bool) (m m' : Option Bool)
      → (b ≡ false → m ≡ some true)
      → m' ≡ (if b then some v else m)
      → m' ≡ some (not b || v)
  shown_entry true v m m' h e = e
  shown_entry false v m m' h e = e ∙ h refl

  reports-IsHeld :
      (s : MonitorState) (p : String → Option Bool) (v : Bool)
      → (s.exclude_holidays ≡ false → p "predict_holiday_codes" ≡ some true)
      → IsHeld (monitor_fields floats) (
          reports
            (monitor_fields floats)
            (λ f. f.shown s)
            s
            (monitor_fields floats)
            (record { state = s; validity = p; is_valid = v }))
  unfolding monitor_fields
  reports-IsHeld s p v free =
      let fields : List (Field MonitorState) = monitor_fields floats in
      let start : Form MonitorState = record { state = s; validity = p; is_valid = v } in
      let all_in : _ = reports-entries fields (λ f. f.shown s) s fields start fields-IsDistinct in
      let last : Form MonitorState = reports fields (λ f. f.shown s) s fields start in
      let at_s : last.state ≡ s = reports-state fields (λ f. f.shown s) s fields start in
      record {
        entries =
            subst (λ t. All (λ f. last.validity f.name ≡ some (held f t)) fields) (sym at_s)
              (
                all_in.0,
                (
                  all_in.1.0,
                  (shown_entry s.exclude_holidays (valid codes_field s) _ _ free all_in.1.1.0, tt),
                ),
              );
        total = reports-some fields (λ f. f.shown s) s fields start refl;
      }

  monitor_open-IsHeld : (s : MonitorState) → IsHeld (monitor_fields floats) (monitor_open floats s)
  unfolding monitor_open
  monitor_open-IsHeld s =
      let fields : List (Field MonitorState) = monitor_fields floats in
      let empty : String → Option Bool = λ name. none in
      split_if (λ x. IsHeld fields (reports fields (λ f. f.shown s) s fields x)) s.exclude_holidays
        (λ on. reports-IsHeld s empty false (λ off. absurd cc))
        (λ off.
          reports-IsHeld s (put_entry empty "predict_holiday_codes" (some true))
            (every fields (put_entry empty "predict_holiday_codes" (some true))) (λ o. refl))

-- Both numbers in their ranges with one digit after the point at most, and codes where they are asked for.
abbrev pub monitor_ok : Floats → MonitorState → Bool
monitor_ok floats s =
    in_range floats 1 200 1 s.lookback
    && in_range floats 20 1000 1 s.min_lookback
    && (not s.exclude_holidays || filled (or_default s.holiday_codes []))

every-IsHeld :
    (floats : Floats) (form : Form MonitorState)
    → IsHeld (monitor_fields floats) form
    → every (monitor_fields floats) form.validity ≡ monitor_ok floats form.state
unfolding monitor_fields
every-IsHeld floats form h =
    rw (h.entries.0, h.entries.1.0, h.entries.1.1.0)
      (simp (input_laws, is_none-number_between) (ground arith))

-- The settings of the monitors count as valid, after any changes, exactly when the lookback is a
-- number from 1 to 200 and the training lookback one from 20 to 1000, with one digit after the point
-- at most, and there are codes if holidays are excluded.
pub is_valid-monitor_event :
    (floats : Floats) (es : List MonitorEvent) (s : MonitorState)
    → (runs (monitor_event floats) es (monitor_open floats s)).is_valid
      ≡ monitor_ok floats (runs (monitor_event floats) es (monitor_open floats s)).state
is_valid-monitor_event floats es s =
    let form : Form MonitorState = runs (monitor_event floats) es (monitor_open floats s) in
    let h : IsHeld (monitor_fields floats) form =
      runs-keeps (IsHeld (monitor_fields floats)) (monitor_event floats)
        (monitor_event-IsHeld floats) es (monitor_open floats s) (monitor_open-IsHeld floats s) in
    h.total ∙ every-IsHeld floats form h
