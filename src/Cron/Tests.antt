-- ===== src/Cron/Tests.antt =====
-- Expressions that the editor writes and reads, and the theorems at concrete states.
use dataops_testgen.Base.{◌+◌, ◌-◌, ◌<◌, ◌≡◌, ◌↔◌, ◌≢◌, refl, List, [], ◌∷◌, inr, arith}
use dataops_testgen.Base.Text.{codes, words, decimal, join}
use dataops_testgen.Cron.Loop.{Ends, Ends-stepped_values}
use dataops_testgen.Cron.{
  stepped_values, x_hours, x_days, certain_days, custom, x_hours_expression, hour_field,
}
use dataops_testgen.Cron.Parse.{
  determine_mode, mode_of, mode_of_fields, initial_editor, open_editor,
}
use dataops_testgen.Cron.Rewrites.{two_hours_expression, open_editor-two_hours}
use dataops_testgen.Cron.Editing.{
  Event, pick_hours, pick_start_hour, pick_hours_minute, run, act, change, written, new_session,
  restored, AllOffered, CanReopen, open_editor-run,
}

mode_tests :
    (determine_mode (codes "0 */4 * * *") ≡ x_hours)
    × (determine_mode (codes "5  2,4,6 * * *") ≡ x_hours)
    × (determine_mode (codes "5 2,4,7 * * *") ≡ custom)
    × (determine_mode (codes "0 12 */2 * *") ≡ x_days)
    × (determine_mode (codes " 0 9 * * MON-FRI,SUN") ≡ certain_days)
    × (determine_mode (codes "0 0 1 1 *") ≡ custom)
unfolding determine_mode mode_of mode_of_fields words
mode_tests = (refl, refl, refl, refl, refl, refl)

-- Every 6 hours from 2, at minute 30.
abbrev picks : List Event
picks = pick_hours 6 ∷ pick_start_hour 2 ∷ pick_hours_minute 30 ∷ []

written_test : (run new_session picks).expression ≡ codes "30 2,8,14,20 * * *"
unfolding run act change written x_hours_expression hour_field decimal join
written_test = refl

picks_offered : AllOffered new_session picks
unfolding act change
picks_offered = omega arith

picks_mode : (run new_session picks).mode ≢ custom
unfolding run act change
picks_mode h = cc

picks_fit : CanReopen (run new_session picks).mode (run new_session picks).states
unfolding run act change
picks_fit = inr (omega arith)

open_editor-run_example : open_editor (run new_session picks).expression ≡ (
  (run new_session picks).mode,
  restored (run new_session picks).mode (run new_session picks).states,
)
open_editor-run_example = open_editor-run picks picks_offered picks_mode picks_fit

open_editor-two_hours_example :
    (open_editor (two_hours_expression 0 9 10) ≡ (
      x_hours,
      record initial_editor { hourly = record { hours = 1; minute = 0; start_hour = 9 } },
    ))
    × ((x_hours_expression (open_editor (two_hours_expression 0 9 10)).1.hourly
          ≡ two_hours_expression 0 9 10)
        ↔ (0 < 9) × (1 < 10 - 9) × (23 < 10 + (10 - 9)))
open_editor-two_hours_example =
    open_editor-two_hours 0 9 10 (omega arith) (omega arith) (omega arith)

Ends-stepped_values_example :
    Ends 6 23 2 (2 ∷ 8 ∷ 14 ∷ 20 ∷ []) ↔ (2 ∷ 8 ∷ 14 ∷ 20 ∷ [] ≡ stepped_values 2 6 23)
Ends-stepped_values_example = Ends-stepped_values 2 6 23 (2 ∷ 8 ∷ 14 ∷ 20 ∷ []) (omega arith)
