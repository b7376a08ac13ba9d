-- ===== src/Monitor.antt =====
-- Component `MonitorSettingsForm` (testgen/ui/static/js/components/monitor_settings_form.js): its
-- states, the inputs and what they report, and the payload. Numbers are the texts of their inputs.
pub mod Duration
pub mod Valid
pub mod Reopened
mod Tests
use dataops_testgen.Base.{
  Bool, true, false, not, ◌&&◌, Option, none, some, List, [], ◌∷◌, String, if◌then◌else◌,
  or_default, bool_ne,
}
use dataops_testgen.Base.Text.{Text, codes, is_empty}
use dataops_testgen.Validators.{Floats, required, number_between}
use dataops_testgen.Inputs.{Field, Form, input, fixed_input, put_entry, every, reports, change_to}

pub record Schedule : Type 0 where
  pub cron_tz : Option Text
  pub cron_expr : Option Text
  pub active : Option Bool

pub record MonitorSuite : Type 0 where
  pub id : Option Text
  pub table_groups_id : Option Text
  pub test_suite : Option Text
  pub monitor_lookback : Option Text
  pub monitor_regenerate_freshness : Option Bool
  pub predict_sensitivity : Option Text
  pub predict_min_lookback : Option Text
  pub predict_exclude_weekends : Option Bool
  pub predict_holiday_codes : Option Text

-- `cron_tz` is none once no time zone is selected.
pub record MonitorState : Type 0 where
  pub cron_tz : Option Text
  pub cron_expr : Text
  pub active : Bool
  pub lookback : Text
  pub regenerate : Bool
  pub sensitivity : Text
  pub min_lookback : Text
  pub exclude_weekends : Bool
  pub holiday_codes : Option Text
  pub exclude_holidays : Bool

-- `!!value`
abbrev pub is_truthy : Option Text → Bool
is_truthy none = false
is_truthy (some t) = not (is_empty t)

-- The states; `local` is the time zone of the browser.
unfoldable pub monitor_start : Text → Schedule → MonitorSuite → MonitorState
monitor_start local schedule suite = record {
  cron_tz = some (or_default schedule.cron_tz local);
  cron_expr = or_default schedule.cron_expr (codes "0 */12 * * *");
  active = or_default schedule.active true;
  lookback = or_default suite.monitor_lookback (codes "14");
  regenerate = or_default suite.monitor_regenerate_freshness true;
  sensitivity = or_default suite.predict_sensitivity (codes "medium");
  min_lookback = or_default suite.predict_min_lookback (codes "30");
  exclude_weekends = or_default suite.predict_exclude_weekends false;
  holiday_codes = suite.predict_holiday_codes;
  exclude_holidays = is_truthy suite.predict_holiday_codes;
}

unfoldable pub updated_schedule : MonitorState → Schedule
updated_schedule s = record {
  cron_tz = s.cron_tz;
  cron_expr = some s.cron_expr;
  active = some s.active;
}

unfoldable pub updated_suite : MonitorSuite → MonitorState → MonitorSuite
updated_suite suite s = record {
  id = suite.id;
  table_groups_id = suite.table_groups_id;
  test_suite = suite.test_suite;
  monitor_lookback = some s.lookback;
  monitor_regenerate_freshness = some s.regenerate;
  predict_sensitivity = some s.sensitivity;
  predict_min_lookback = some s.min_lookback;
  predict_exclude_weekends = some s.exclude_weekends;
  predict_holiday_codes = if s.exclude_holidays then s.holiday_codes else none;
}

abbrev pub lookback_field : Floats → Field MonitorState
lookback_field floats =
    fixed_input "monitor_lookback" (λ s. s.lookback) (λ s. number_between floats 1 200 1 ∷ [])

abbrev pub min_lookback_field : Floats → Field MonitorState
min_lookback_field floats =
    fixed_input "predict_min_lookback" (λ s. s.min_lookback)
      (λ s. number_between floats 20 1000 1 ∷ [])

abbrev pub codes_field : Field MonitorState
codes_field =
    input "predict_holiday_codes" (λ s. s.exclude_holidays) (λ old new. false)
      (λ s. or_default s.holiday_codes []) (λ s. required ∷ [])

-- The three inputs; the one for the codes is in the markup while holidays are excluded.
unfoldable pub monitor_fields : Floats → List (Field MonitorState)
monitor_fields floats = lookback_field floats ∷ min_lookback_field floats ∷ codes_field ∷ []

pub data MonitorEvent : Type 0 where
  edit_lookback edit_min_lookback edit_codes : Text → MonitorEvent
  -- The select hands on none for an entry that is empty.
  pick_timezone : Option Text → MonitorEvent
  pick_expression pick_sensitivity : Text → MonitorEvent
  tick_active tick_regenerate tick_weekends tick_holidays : Bool → MonitorEvent

-- The states after an event; the input for the codes writes its value back when it is built, as the
-- empty text if there was none.
unfoldable pub monitor_after : MonitorEvent → MonitorState → MonitorState
monitor_after (edit_lookback t) s = record s { lookback = t }
monitor_after (edit_min_lookback t) s = record s { min_lookback = t }
monitor_after (edit_codes t) s = record s {
  holiday_codes = if s.exclude_holidays then some t else s.holiday_codes;
}
monitor_after (pick_timezone t) s = record s { cron_tz = t }
monitor_after (pick_expression t) s = record s { cron_expr = t }
monitor_after (pick_sensitivity t) s = record s { sensitivity = t }
monitor_after (tick_active b) s = record s { active = b }
monitor_after (tick_regenerate b) s = record s { regenerate = b }
monitor_after (tick_weekends b) s = record s { exclude_weekends = b }
monitor_after (tick_holidays b) s = record s {
  exclude_holidays = b;
  holiday_codes = if b then some (or_default s.holiday_codes []) else s.holiday_codes;
}

-- `setFieldValidity`, and `isValid` of the derive that reads the entries
abbrev pub set_validity :
    List (Field MonitorState) → String → Bool → Form MonitorState → Form MonitorState
set_validity fields name b form = record form {
  validity = put_entry form.validity name (some b);
  is_valid = every fields (put_entry form.validity name (some b));
}

-- The derive on `excludeHolidays`, where this has the value given.
abbrev pub release_codes : List (Field MonitorState) → Bool → Form MonitorState → Form MonitorState
release_codes fields excluded form =
    if excluded then form else set_validity fields "predict_holiday_codes" true form

-- An event: this derive runs before the inputs report, if the state has changed.
unfoldable pub monitor_event : Floats → MonitorEvent → Form MonitorState → Form MonitorState
unfolding monitor_after monitor_fields
monitor_event floats e form =
    let new = monitor_after e form.state in
    change_to (monitor_fields floats) new (
      if bool_ne form.state.exclude_holidays new.exclude_holidays
      then release_codes (monitor_fields floats) new.exclude_holidays form
      else form)

-- The form is built: the derive runs first, then the inputs of the markup report.
unfoldable pub monitor_open : Floats → MonitorState → Form MonitorState
unfolding monitor_fields
monitor_open floats s =
    reports (monitor_fields floats) (λ f. f.shown s) s (monitor_fields floats)
      (release_codes (monitor_fields floats) s.exclude_holidays
        (record { state = s; validity = λ name. none; is_valid = false }))
