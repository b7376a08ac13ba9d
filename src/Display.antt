-- ===== src/Display.antt =====
-- The durations of testgen/ui/static/js/display_utils.js, in whole seconds. A result `none` of
-- `human_readable_duration` is a TypeError: `unitTemplates` has no such unit. `Number` is read on
-- digits alone, so that a fraction, which no written duration has, would count as NaN here.
pub mod Trim
pub mod Parts
pub mod Reading
pub mod Writing
pub mod Duration
mod Tests
use dataops_testgen.Base.{
  ℕ, ◌+◌, ◌*◌, ◌/◌, ◌%◌, Bool, true, false, ◌&&◌, Option, none, some, List, [], ◌∷◌, ◌++◌, map,
  if◌then◌else◌, ◌==◌,
}
use dataops_testgen.Base.Int.{ℤ, pos, negsuc}
use dataops_testgen.Base.Text.{
  Text, codes, text_eq, is_space, is_empty, split_by, join, decimal, number,
}

-- `{ value, unit }`, the unit by its letter
pub record Part : Type 0 where
  pub value : ℕ
  pub unit : ℕ

pub parts : ℕ → List Part
parts n =
    record { value = n / (3600 * 24); unit = b'd' }
    ∷ record { value = n % (3600 * 24) / 3600; unit = b'h' }
    ∷ record { value = n % 3600 / 60; unit = b'm' }
    ∷ record { value = n % 60; unit = b's' }
    ∷ []

-- `value ? `${value}${unit}` : ''`
pub part_text : Part → Text
part_text p = if p.value == 0 then [] else decimal p.value ++ p.unit ∷ []

unfoldable pub trim_start : Text → Text
trim_start [] = []
trim_start (c ∷ s) = let rest = trim_start s in if is_space c then rest else c ∷ s

unfoldable pub trim_end : Text → Text
trim_end [] = []
trim_end (c ∷ s) = let rest = trim_end s in if is_space c && is_empty rest then [] else c ∷ rest

unfoldable pub trim : Text → Text
unfolding trim_start trim_end
trim s = trim_end (trim_start s)

-- `s || d`
abbrev pub text_or : Text → Text → Text
text_or [] d = d
text_or (c ∷ s) d = c ∷ s

pub format_duration_seconds : Option ℤ → Text
format_duration_seconds none = codes "--"
format_duration_seconds (some (negsuc n)) = codes "--"
format_duration_seconds (some (pos n)) =
    text_or (trim (join 32 (map part_text (parts n)))) (codes "< 1s")

-- `part.slice(-1)[0]`
pub last_letter : Text → Option ℕ
last_letter [] = none
last_letter (c ∷ []) = some c
last_letter (c ∷ d ∷ s) = last_letter (d ∷ s)

-- `part.replace(unit, '')`: the first occurrence
pub remove_letter : ℕ → Text → Text
remove_letter u [] = []
remove_letter u (c ∷ s) = if c == u then s else c ∷ remove_letter u s

-- `${value} day${value === 1 ? '' : 's'}`, where the value `none` is NaN
abbrev pub plural : Option ℕ → Text → Text
plural none word = codes "NaN " ++ word ++ codes "s"
plural (some value) word = decimal value ++ 32 ∷ word ++ (if value == 1 then [] else codes "s")

-- `unitTemplates[unit](value)`
pub unit_template : ℕ → Option ℕ → Option Text
unit_template unit value =
    if unit == b'd'
    then some (plural value (codes "day"))
    else if unit == b'h'
    then some (plural value (codes "hour"))
    else if unit == b'm'
    then some (plural value (codes "minute"))
    else if unit == b's'
    then some (plural value (codes "second"))
    else none

-- `unitTemplates[unit](Number(part.replace(unit, '')))`
abbrev pub read_with : Option ℕ → Text → Option Text
read_with none part = none
read_with (some unit) part = unit_template unit (number (remove_letter unit part))

-- The function that `map` applies to a part.
pub read_part : Text → Option Text
read_part part = read_with (last_letter part) part

abbrev pub both : Option Text → Option (List Text) → Option (List Text)
both (some t) (some ts) = some (t ∷ ts)
both _ _ = none

-- `parts.map(part => ...)`: the first throw ends it.
pub read_all : List Text → Option (List Text)
read_all [] = some []
read_all (p ∷ ps) = both (read_part p) (read_all ps)

-- `parts[0]`, read; a split always gives a piece
abbrev pub read_first : List Text → Option Text
read_first [] = none
read_first (p ∷ ps) = read_part p

-- `texts.join(' ')`
abbrev pub joined : Option (List Text) → Option Text
joined none = none
joined (some ts) = some (join 32 ts)

pub human_readable_duration : Text → Bool → Option Text
human_readable_duration duration round =
    if text_eq duration (codes "< 1s")
    then some (codes "Less than 1 second")
    else if round
    then read_first (split_by (λ c. c == 32) duration)
    else joined (read_all (split_by (λ c. c == 32) duration))
