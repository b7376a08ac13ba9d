-- ===== src/Monitor/Reopened.antt =====
-- The form opened again on what it has sent.
use dataops_testgen.Base.{
  ◌≡◌, sym, ◌∙◌, ap, true, not, ◌||◌, Option, none, some, List, [], if◌then◌else◌, arith,
  or_default, Bool-cases, inl, inr,
}
use dataops_testgen.Base.Text.{Text}
use dataops_testgen.Validators.{Floats}
use dataops_testgen.Validators.Passes.{filled}
use dataops_testgen.Inputs.{runs}
use dataops_testgen.Monitor.{
  MonitorState, MonitorSuite, MonitorEvent, is_truthy, monitor_start, updated_schedule,
  updated_suite, monitor_event, monitor_open,
}
use dataops_testgen.Monitor.Valid.{monitor_ok, is_valid-monitor_event}

-- The states that are kept: the codes only while holidays are excluded, and the time zone if one is
-- selected, or else that of the browser.
abbrev pub sent : Text → MonitorState → MonitorState
sent local s = record s {
  cron_tz = some (or_default s.cron_tz local);
  holiday_codes = if s.exclude_holidays then s.holiday_codes else none;
}

truthy_some : (o : Option Text) → filled (or_default o []) ≡ true → is_truthy o ≡ true
truthy_some none h = cc
truthy_some (some t) h = h

truthy_sent :
    (local : Text) (s : MonitorState)
    → (not s.exclude_holidays || filled (or_default s.holiday_codes [])) ≡ true
    → is_truthy (sent local s).holiday_codes ≡ s.exclude_holidays
truthy_sent local s h = elim (Bool-cases s.exclude_holidays) [
  | inl on ↦ simp on (truthy_some s.holiday_codes (simp on at h))
  | inr off ↦ simp off
]

monitor_start-sent :
    (local : Text) (suite : MonitorSuite) (s : MonitorState)
    → (not s.exclude_holidays || filled (or_default s.holiday_codes [])) ≡ true
    → monitor_start local (updated_schedule s) (updated_suite suite s) ≡ sent local s
unfolding monitor_start updated_schedule updated_suite
monitor_start-sent local suite s h =
    ap (λ b. record (sent local s) { exclude_holidays = b }) (truthy_sent local s h)

-- A form that counts as valid, after any changes, opens again on the schedule and the suite that it
-- hands on in the states that it has, but without codes while no holidays are excluded, and with the
-- time zone of the browser, whatever this is, if none is selected.
pub monitor_start-runs :
    (floats : Floats) (es : List MonitorEvent) (start : MonitorState) (local : Text)
    (suite : MonitorSuite)
    → (runs (monitor_event floats) es (monitor_open floats start)).is_valid ≡ true
    → monitor_start local
        (updated_schedule (runs (monitor_event floats) es (monitor_open floats start)).state)
        (updated_suite suite (runs (monitor_event floats) es (monitor_open floats start)).state)
      ≡ sent local (runs (monitor_event floats) es (monitor_open floats start)).state
monitor_start-runs floats es start local suite h =
    let s : MonitorState = (runs (monitor_event floats) es (monitor_open floats start)).state in
    let ok : monitor_ok floats s ≡ true = sym (is_valid-monitor_event floats es start) ∙ h in
    monitor_start-sent local suite s (ground arith)
