-- ===== src/Display/Tests.antt =====
-- Runs of the duration functions at concrete times.
use dataops_testgen.Base.{◌+◌, ◌*◌, ◌≡◌, refl, false, none, some, arith}
use dataops_testgen.Base.Int.{pos}
use dataops_testgen.Base.Text.{codes, join, decimal}
use dataops_testgen.Display.{
  part_text, trim, format_duration_seconds, human_readable_duration, parts,
}
use dataops_testgen.Display.Duration.{human_readable_duration-format}

format_example : format_duration_seconds (some (pos 90061)) ≡ codes "1d 1h 1m 1s"
unfolding format_duration_seconds parts part_text trim join decimal
format_example = refl

-- one day and five minutes: the hours leave a second space
gap_example : format_duration_seconds (some (pos 86700)) ≡ codes "1d  5m"
unfolding format_duration_seconds parts part_text trim join decimal
gap_example = refl

human_readable_duration-format_example :
    human_readable_duration
      (format_duration_seconds (some (pos (1 * 86400 + 0 * 3600 + 5 * 60 + 0))))
      false
    ≡ none
human_readable_duration-format_example =
    human_readable_duration-format 1 0 5 0 (omega arith) (omega arith) (omega arith) (omega arith)
