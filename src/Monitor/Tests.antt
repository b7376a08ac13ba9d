-- ===== src/Monitor/Tests.antt =====
-- The settings of the monitors at concrete values.
use dataops_testgen.Base.{◌≡◌, refl, true, false, none, some, List, [], ◌∷◌, ltb, arith, or_default}
use dataops_testgen.Base.Text.{codes, number, is_empty}
use dataops_testgen.Validators.{Floats, number_between, required}
use dataops_testgen.Inputs.{runs, change_to, reports, errors_of}
use dataops_testgen.Cron.{XHours, XDays, x_hours_expression, x_days_expression}
use dataops_testgen.Monitor.{
  MonitorState, MonitorSuite, Schedule, MonitorEvent, edit_lookback, edit_codes, pick_timezone,
  tick_holidays, monitor_start, updated_schedule, updated_suite, monitor_event, monitor_open,
}
use dataops_testgen.Monitor.Duration.{determine_duration, determine_duration-expressions}
use dataops_testgen.Monitor.Valid.{monitor_ok, is_valid-monitor_event}
use dataops_testgen.Monitor.Reopened.{sent, monitor_start-runs}

-- `parseFloat` on digits.
abbrev whole : Floats
whole = record {
  is_nan = λ t. is_empty t;
  less = λ t n. ltb (or_default (number t) 0) n;
  greater = λ t n. ltb n (or_default (number t) 0);
}

abbrev new_suite : MonitorSuite
new_suite = record {
  id = none;
  table_groups_id = none;
  test_suite = none;
  monitor_lookback = none;
  monitor_regenerate_freshness = none;
  predict_sensitivity = none;
  predict_min_lookback = none;
  predict_exclude_weekends = none;
  predict_holiday_codes = none;
}

abbrev new_schedule : Schedule
new_schedule = record { cron_tz = none; cron_expr = none; active = none }

abbrev started : MonitorState
started = monitor_start (codes "UTC") new_schedule new_suite

abbrev with_codes : List MonitorEvent
with_codes = edit_lookback (codes "20") ∷ tick_holidays true ∷ edit_codes (codes "US") ∷ []

valid_test : (runs (monitor_event whole) with_codes (monitor_open whole started)).is_valid ≡ true
unfolding runs monitor_event monitor_open monitor_start number change_to reports errors_of
    number_between required
valid_test = refl

-- No codes yet.
no_codes_test :
    (runs (monitor_event whole) (tick_holidays true ∷ []) (monitor_open whole started)).is_valid
    ≡ false
unfolding runs monitor_event monitor_open monitor_start number change_to reports errors_of
    number_between required
no_codes_test = refl

is_valid-monitor_event_example :
    (runs (monitor_event whole) with_codes (monitor_open whole started)).is_valid
    ≡ monitor_ok whole (runs (monitor_event whole) with_codes (monitor_open whole started)).state
is_valid-monitor_event_example = is_valid-monitor_event whole with_codes started

-- No time zone is selected any more.
abbrev without_zone : List MonitorEvent
without_zone = edit_lookback (codes "20") ∷ pick_timezone none ∷ []

zone_test : (runs (monitor_event whole) without_zone (monitor_open whole started)).is_valid ≡ true
unfolding runs monitor_event monitor_open monitor_start number change_to reports errors_of
    number_between required
zone_test = refl

monitor_start-runs_example :
    monitor_start
      (codes "CET")
      (updated_schedule
        (runs (monitor_event whole) without_zone (monitor_open whole started)).state)
      (updated_suite new_suite
        (runs (monitor_event whole) without_zone (monitor_open whole started)).state)
    ≡ sent
        (codes "CET")
        (runs (monitor_event whole) without_zone (monitor_open whole started)).state
monitor_start-runs_example =
    monitor_start-runs whole without_zone started (codes "CET") new_suite zone_test

-- Every 6 hours from 2, and every 20 days from 15.
abbrev six_hours : XHours
six_hours = record { hours = 6; minute = 30; start_hour = 2 }

abbrev twenty_days : XDays
twenty_days = record { days = 20; hour = 3; minute = 0; start_day = 15 }

determine_duration-expressions_example :
    (determine_duration (x_hours_expression six_hours) ≡ some 21600)
    × (determine_duration (x_days_expression twenty_days) ≡ none)
determine_duration-expressions_example =
    determine_duration-expressions six_hours twenty_days
      (record {
        some_hours = omega arith;
        hours = omega arith;
        start = omega arith;
        minute = omega arith;
      })
      (record {
        some_days = omega arith;
        days = omega arith;
        first = omega arith;
        start = omega arith;
        hour = omega arith;
        minute = omega arith;
      })
