-- ===== src/Cron/Editing.antt =====
-- The editor while it is open (`CrontabEditorPortal`): the selects, the checkboxes and the modes
-- on the left, and the `van.derive` that writes the expression. The derive runs again when a state
-- that it reads has changed; what it writes for states that have not changed is what stands there.
use dataops_testgen.Base.{
  any, ◌⊎◌, ℕ, ◌+◌, ◌<◌, ◌≤◌, ◌≡◌, ◌≢◌, refl, Bool, true, List, [], ◌∷◌, if◌then◌else◌, leb, arith,
}
use dataops_testgen.Base.Text.{Text}
use dataops_testgen.Cron.{
  Mode, x_hours, x_days, certain_days, custom, CertainDays, x_hours_expression, x_days_expression,
  certain_days_expression, ticks,
}
use dataops_testgen.Cron.Parse.{Editor, initial_editor, open_editor}
use dataops_testgen.Cron.Week.{open_editor-certain_days_expression}
use dataops_testgen.Cron.RoundTrip.{
  InHours, InDays, open_editor-x_hours_expression, open_editor-x_days_expression,
}

pub record Session : Type 0 where
  pub mode : Mode
  pub states : Editor
  pub expression : Text

pub data Day : Type 0 where
  sunday monday tuesday wednesday thursday friday saturday : Day

-- What the user does. `type` is a change of the text field, which is shown in the custom mode.
pub data Event : Type 0 where
  pick_mode : Mode → Event
  pick_hours pick_hours_minute pick_start_hour : ℕ → Event
  pick_days pick_days_hour pick_days_minute pick_start_day : ℕ → Event
  tick : Day → Bool → Event
  pick_week_hour pick_week_minute : ℕ → Event
  type : Text → Event

-- The derive: the expression that the mode writes.
unfoldable pub written : Mode → Editor → Text → Text
written x_hours e old = x_hours_expression e.hourly
written x_days e old = x_days_expression e.daily
written certain_days e old = certain_days_expression e.weekly
written custom e old = old

pub tick_day : Day → Bool → CertainDays → CertainDays
tick_day sunday v w = record w { sunday = v }
tick_day monday v w = record w { monday = v }
tick_day tuesday v w = record w { tuesday = v }
tick_day wednesday v w = record w { wednesday = v }
tick_day thursday v w = record w { thursday = v }
tick_day friday v w = record w { friday = v }
tick_day saturday v w = record w { saturday = v }

-- The handlers on the states of the modes.
unfoldable pub change : Event → Editor → Editor
change (pick_hours n) e =
    let h = e.hourly in
    record e { hourly = record h { hours = n; start_hour = if leb n 1 then 0 else h.start_hour } }
change (pick_hours_minute n) e = let h = e.hourly in record e { hourly = record h { minute = n } }
change (pick_start_hour n) e = let h = e.hourly in record e { hourly = record h { start_hour = n } }
change (pick_days n) e =
    let d = e.daily in
    record e { daily = record d { days = n; start_day = if leb n 1 then 1 else d.start_day } }
change (pick_days_hour n) e = let d = e.daily in record e { daily = record d { hour = n } }
change (pick_days_minute n) e = let d = e.daily in record e { daily = record d { minute = n } }
change (pick_start_day n) e = let d = e.daily in record e { daily = record d { start_day = n } }
change (tick day v) e = record e { weekly = tick_day day v e.weekly }
change (pick_week_hour n) e = let w = e.weekly in record e { weekly = record w { hour = n } }
change (pick_week_minute n) e = let w = e.weekly in record e { weekly = record w { minute = n } }
change (pick_mode m) e = e
change (type t) e = e

abbrev mode_after : Event → Mode → Mode
mode_after (pick_mode m) mode = m
mode_after _ mode = mode

-- `onChange` of the text field writes in the custom mode alone.
abbrev typed : Event → Mode → Text → Text
typed (type t) custom old = t
typed _ _ old = old

unfoldable pub act : Session → Event → Session
act s ev =
    let mode = mode_after ev s.mode in
    let states = change ev s.states in
    record {
      mode = mode;
      states = states;
      expression = written mode states (typed ev s.mode s.expression);
    }

unfoldable pub run : Session → List Event → Session
run s [] = s
run s (ev ∷ evs) = run (act s ev) evs

-- The options of the selects; those of the starts are hidden for a count of one.
abbrev pub IsOffered : Editor → Event → Type 0
IsOffered e (pick_hours n) = (0 < n) × (n < 25)
IsOffered e (pick_hours_minute n) = n < 60
IsOffered e (pick_start_hour n) = (n < 24) × (1 < e.hourly.hours)
IsOffered e (pick_days n) = (0 < n) × (n < 32)
IsOffered e (pick_days_hour n) = n < 24
IsOffered e (pick_days_minute n) = n < 60
IsOffered e (pick_start_day n) = (0 < n) × (n < 32) × (1 < e.daily.days)
IsOffered e (pick_week_hour n) = n < 24
IsOffered e (pick_week_minute n) = n < 60
IsOffered e _ = Unit

abbrev pub AllOffered : Session → List Event → Type 0
AllOffered s [] = Unit
AllOffered s (ev ∷ evs) = IsOffered s.states ev × AllOffered (act s ev) evs

pub record InRange (e : Editor) : Type 0 where
  pub hourly : InHours e.hourly
  pub from_first_hour : e.hourly.hours ≤ 1 → e.hourly.start_hour ≡ 0
  pub daily : InDays e.daily
  pub from_first_day : e.daily.days ≤ 1 → e.daily.start_day ≡ 1
  pub hour : e.weekly.hour < 24
  pub minute : e.weekly.minute < 60

tick_day-time :
    (d : Day) (v : Bool) (w : CertainDays)
    → ((tick_day d v w).hour ≡ w.hour) × ((tick_day d v w).minute ≡ w.minute)
unfolding tick_day
tick_day-time sunday v w = (refl, refl)
tick_day-time monday v w = (refl, refl)
tick_day-time tuesday v w = (refl, refl)
tick_day-time wednesday v w = (refl, refl)
tick_day-time thursday v w = (refl, refl)
tick_day-time friday v w = (refl, refl)
tick_day-time saturday v w = (refl, refl)

change-InRange : (ev : Event) (e : Editor) → IsOffered e ev → InRange e → InRange (change ev e)
unfolding change
change-InRange (tick d v) e o r = ground (arith, tick_day-time d v e.weekly)
change-InRange _ e o r = ground arith

-- The states are in range, and the expression is the one that the mode writes.
pub record IsValid (s : Session) : Type 0 where
  pub in_range : InRange s.states
  pub up_to_date : s.expression ≡ written s.mode s.states s.expression

written-written : (m : Mode) (e : Editor) (t : Text) → written m e t ≡ written m e (written m e t)
unfolding written
written-written x_hours e t = refl
written-written _ e t = refl

act-IsValid : (s : Session) (ev : Event) → IsOffered s.states ev → IsValid s → IsValid (act s ev)
unfolding act
act-IsValid s ev o v = record {
  in_range = change-InRange ev s.states o v.in_range;
  up_to_date = written-written _ _ _;
}

pub run-IsValid :
    (evs : List Event) (s : Session) → AllOffered s evs → IsValid s → IsValid (run s evs)
unfolding run
run-IsValid [] s o v = v
run-IsValid (ev ∷ evs) s o v = run-IsValid evs (act s ev) o.1 (act-IsValid s ev o.0 v)

-- A new editor with no expression, after its first derive.
abbrev pub new_session : Session
new_session = record {
  mode = x_hours;
  states = initial_editor;
  expression = x_hours_expression initial_editor.hourly;
}

new_session-IsValid : IsValid new_session
unfolding written
new_session-IsValid = record { in_range = ground arith; up_to_date = refl }

-- When the state of a mode can be read back from what it writes; the custom mode writes nothing.
abbrev pub CanReopen : Mode → Editor → Type 0
CanReopen x_hours e = (e.hourly.start_hour ≡ 0) ⊎ (e.hourly.start_hour + e.hourly.hours ≤ 23)
CanReopen x_days e = (e.daily.start_day ≡ 1) ⊎ (e.daily.start_day + e.daily.days ≤ 31)
CanReopen certain_days e = any (λ b. b) (ticks e.weekly) ≡ true
CanReopen custom e = Unit

-- A new editor with the state of the one mode.
abbrev pub restored : Mode → Editor → Editor
restored x_hours e = record initial_editor { hourly = e.hourly }
restored x_days e = record initial_editor { daily = e.daily }
restored certain_days e = record initial_editor { weekly = e.weekly }
restored custom e = initial_editor

reopen :
    (m : Mode) (e : Editor) (t : Text)
    → m ≢ custom
    → InRange e
    → CanReopen m e
    → open_editor (written m e t) ≡ (m, restored m e)
unfolding written
reopen x_hours e t k r c = open_editor-x_hours_expression e.hourly r.hourly (ground arith)
reopen x_days e t k r c = open_editor-x_days_expression e.daily r.daily (ground arith)
reopen certain_days e t k r c = open_editor-certain_days_expression e.weekly c r.hour r.minute
reopen custom e t k r c = absurd (k refl)

-- After any session in a new editor, with options that its selects offer, that is not left in the
-- custom mode, the editor opens on the expression in the mode in which it was left, with the state
-- that this mode had: in the first two modes if the first start is picked or a second run fits
-- before the end of the day or month, in the third if some day is ticked.
pub open_editor-run :
    (evs : List Event)
    → AllOffered new_session evs
    → (run new_session evs).mode ≢ custom
    → CanReopen (run new_session evs).mode (run new_session evs).states
    → open_editor (run new_session evs).expression ≡ (
      (run new_session evs).mode,
      restored (run new_session evs).mode (run new_session evs).states,
    )
open_editor-run evs o k c =
    let v = run-IsValid evs new_session o new_session-IsValid in
    rw v.up_to_date (reopen _ _ _ k v.in_range c)
