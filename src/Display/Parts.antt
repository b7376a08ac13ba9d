-- ===== src/Display/Parts.antt =====
-- What a duration should show: its parts from the first to the last that is not zero.
use dataops_testgen.Base.{
  ℕ, zero, suc, ◌+◌, ◌*◌, Bool, ◌||◌, Option, ◌++◌, none, some, List, [], ◌∷◌, ◌==◌, ltb,
  if◌then◌else◌,
}
use dataops_testgen.Base.Text.{Text, codes, decimal}
use dataops_testgen.Display.{Part, parts}

abbrev pub unit_word : ℕ → Text
unit_word u =
    if u == b'd'
    then codes "day"
    else if u == b'h'
    then codes "hour"
    else if u == b'm'
    then codes "minute"
    else codes "second"

-- The seconds in a unit.
abbrev pub unit_seconds : ℕ → ℕ
unit_seconds u =
    if u == b'd' then 86400 else if u == b'h' then 3600 else if u == b'm' then 60 else 1

abbrev pub is_unit : ℕ → Bool
is_unit u = u == b'd' || u == b'h' || u == b'm' || u == b's'

abbrev pub total : List Part → ℕ
total [] = 0
total (p ∷ ps) = p.value * unit_seconds p.unit + total ps

-- Less than one of the next unit; days have no limit.
abbrev pub within : Part → Bool
within p = p.unit == b'd' || ltb p.value (if p.unit == b'h' then 24 else 60)

abbrev pub is_zero : Part → Bool
is_zero p = p.value == 0

-- A number of things in words.
abbrev pub counted : ℕ → Text → Text
counted zero word = codes "0 " ++ word ++ codes "s"
counted (suc zero) word = codes "1 " ++ word
counted (suc (suc n)) word = decimal (suc (suc n)) ++ 32 ∷ word ++ codes "s"

abbrev pub phrase : Part → Text
phrase p = counted p.value (unit_word p.unit)

-- Days, hours, minutes and seconds.
abbrev pub four : (d h m s : ℕ) → List Part
four d h m s =
    record { value = d; unit = b'd' }
    ∷ record { value = h; unit = b'h' }
    ∷ record { value = m; unit = b'm' }
    ∷ record { value = s; unit = b's' }
    ∷ []

-- The parts without the zeros at the front.
abbrev pub lead : List Part → List Part
lead [] = []
lead (p ∷ ps) = let rest = lead ps in if is_zero p then rest else p ∷ ps

-- `p` before `ps`, unless it is a last zero.
abbrev pub put : Part → List Part → List Part
put p [] = if is_zero p then [] else p ∷ []
put p (q ∷ qs) = p ∷ q ∷ qs

-- The parts without the zeros at the end.
abbrev pub trail : List Part → List Part
trail [] = []
trail (p ∷ ps) = put p (trail ps)

-- The parts from the first to the last that is not zero.
abbrev pub trimmed : List Part → List Part
trimmed ps = trail (lead ps)

abbrev pub shown : ℕ → List Part
shown n = trimmed (parts n)

abbrev pub first_phrase : List Part → Option Text
first_phrase [] = none
first_phrase (p ∷ ps) = some (phrase p)
