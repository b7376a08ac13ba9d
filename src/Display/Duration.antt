-- ===== src/Display/Duration.antt =====
-- A duration in seconds, written by `formatDurationSeconds` and read by `humanReadableDuration`.
use dataops_testgen.Base.{
  ℕ, ◌+◌, ◌*◌, ◌/◌, ◌%◌, ◌<◌, ◌≡◌, refl, ◌∙◌, ap, Bool, true, false, none, some, List, [], ◌∷◌, map,
  any, all, ◌==◌, ltb, if◌then◌else◌, Bool-cases, inl, inr, arith,
}
use dataops_testgen.Base.Int.{pos}
use dataops_testgen.Base.Text.{Text, codes, text_eq, join, split_by}
use dataops_testgen.Display.{
  Part, parts, part_text, text_or, format_duration_seconds, read_all, read_first, joined,
  human_readable_duration, trim,
}
use dataops_testgen.Display.Trim.{drop_back, trim-join, split_by-join_again, no_texts}
use dataops_testgen.Display.Parts.{
  is_unit, total, within, is_zero, phrase, lead, trail, four, trimmed, shown, first_phrase,
}
use dataops_testgen.Display.Reading.{read_part-part_text, read_all-part_text}
use dataops_testgen.Display.Writing.{
  drop_front-part_text, drop_back-part_text, part_text-AllSolid, units-trail, units-lead, put-full,
  starts_digit-part_text, starts_digit-join, text_or-starts_digit, text_eq-starts_digit,
  starts_digit,
}

-- A list of parts that begins with one that is not zero.
IsLed : List Part → Type 0
IsLed [] = ⊥
IsLed (p ∷ ps) = is_zero p ≡ false

IsLed-lead : (ps : List Part) → all is_zero ps ≡ false → IsLed (lead ps)
unfolding IsLed
IsLed-lead [] h = cc
IsLed-lead (p ∷ ps) h = elim (Bool-cases (is_zero p)) [
  | inl e ↦ rw e (IsLed-lead ps (ground arith))
  | inr e ↦ rw e e
]

IsLed-trail : (ps : List Part) → IsLed ps → IsLed (trail ps)
unfolding IsLed
IsLed-trail [] h = absurd h
IsLed-trail (p ∷ ps) h = rw (put-full p (trail ps) h) h

starts_digit-IsLed : (ps : List Part) → IsLed ps → starts_digit (join 32 (map part_text ps)) ≡ true
unfolding IsLed
starts_digit-IsLed [] h = absurd h
starts_digit-IsLed (p ∷ ps) h =
    starts_digit-join (part_text p) (map part_text ps) (starts_digit-part_text p h)

some_text-IsLed : (ps : List Part) → IsLed ps → no_texts (map part_text ps) ≡ false
unfolding IsLed
some_text-IsLed [] h = absurd h
some_text-IsLed (p ∷ ps) h = refl

trim-parts :
    (ps : List Part)
    → all (λ p. is_unit p.unit) ps ≡ true
    → trim (join 32 (map part_text ps)) ≡ join 32 (map part_text (trail (lead ps)))
trim-parts ps h =
    trim-join (map part_text ps) (part_text-AllSolid ps h)
    ∙ ap (λ xs. join 32 (drop_back xs)) (drop_front-part_text ps)
    ∙ ap (join 32) (drop_back-part_text (lead ps))

some_part : (n : ℕ) → 0 < n → all is_zero (parts n) ≡ false
unfolding parts
some_part n h = elim (Bool-cases (all is_zero (parts n))) [
  | inl e ↦
      let days : n / 86400 ≡ 0 = ground arith in
      let hours : n % 86400 / 3600 ≡ 0 = ground arith in
      let minutes : n % 3600 / 60 ≡ 0 = ground arith in
      let seconds : n % 60 ≡ 0 = ground arith in absurd (omega arith)
  | inr e ↦ e
]

IsLed-shown : (n : ℕ) → 0 < n → IsLed (shown n)
unfolding parts
IsLed-shown n h = IsLed-trail (lead (parts n)) (IsLed-lead (parts n) (some_part n h))

units-parts : (n : ℕ) → all (λ p. is_unit p.unit) (parts n) ≡ true
unfolding parts
units-parts n = refl

written :
    (n : ℕ) → 0 < n → format_duration_seconds (some (pos n)) ≡ join 32 (map part_text (shown n))
unfolding format_duration_seconds
written n h =
    ap (λ s. text_or s (codes "< 1s")) (trim-parts (parts n) (units-parts n))
    ∙ text_or-starts_digit _ _ (starts_digit-IsLed (shown n) (IsLed-shown n h))

-- The parts of `n` seconds add up to `n`, with hours below 24, and minutes and seconds below 60.
pub total-parts : (n : ℕ) → (total (parts n) ≡ n) × (all within (parts n) ≡ true)
unfolding parts
total-parts n =
    let hours : ltb (n % 86400 / 3600) 24 ≡ true = ground arith in
    let minutes : ltb (n % 3600 / 60) 60 ≡ true = ground arith in
    let seconds : ltb (n % 60) 60 ≡ true = ground arith in
    (omega arith, rw (hours, minutes, seconds) refl)

units-shown : (n : ℕ) → all (λ p. is_unit p.unit) (shown n) ≡ true
units-shown n = units-trail (lead (parts n)) (units-lead (parts n) (units-parts n))

pieces :
    (n : ℕ)
    → 0 < n
    → split_by (λ c. c == 32) (format_duration_seconds (some (pos n))) ≡ map part_text (shown n)
pieces n h =
    ap (split_by (λ c. c == 32)) (written n h)
    ∙ split_by-join_again (map part_text (shown n)) (part_text-AllSolid (shown n) (units-shown n))
        (some_text-IsLed (shown n) (IsLed-shown n h))

human_readable_duration-written :
    (n : ℕ) (round : Bool)
    → 0 < n
    → human_readable_duration (format_duration_seconds (some (pos n))) round ≡ (
        if round
        then read_first (map part_text (shown n))
        else joined (read_all (map part_text (shown n))))
unfolding human_readable_duration
human_readable_duration-written n round h =
    let other : text_eq (format_duration_seconds (some (pos n))) (codes "< 1s") ≡ false =
      ap (λ t. text_eq t (codes "< 1s")) (written n h)
      ∙ text_eq-starts_digit _ (starts_digit-IsLed (shown n) (IsLed-shown n h)) in
    rw (other, pieces n h) refl

joined-if :
    (b : Bool) (ts : List Text)
    → joined (if b then none else some ts) ≡ (if b then none else some (join 32 ts))
joined-if true ts = refl
joined-if false ts = refl

human_readable_duration-shown :
    (n : ℕ)
    → 0 < n
    → human_readable_duration (format_duration_seconds (some (pos n))) false
      ≡ (if any is_zero (shown n) then none else some (join 32 (map phrase (shown n))))
human_readable_duration-shown n h =
    human_readable_duration-written n false h
    ∙ ap joined (read_all-part_text (shown n) (units-shown n))
    ∙ joined-if (any is_zero (shown n)) (map phrase (shown n))

-- Days, hours, minutes and seconds that make up `n` are the parts of `n`.
parts_eq :
    (d h m s : ℕ)
    → h < 24
    → m < 60
    → s < 60
    → parts (d * 86400 + h * 3600 + m * 60 + s) ≡ four d h m s
unfolding parts
parts_eq d h m s hs ms ss =
    let n : ℕ = d * 86400 + h * 3600 + m * 60 + s in
    let days : n / 86400 ≡ d = omega arith in
    let hours : n % 86400 / 3600 ≡ h = omega arith in
    let minutes : n % 3600 / 60 ≡ m = omega arith in
    let seconds : n % 60 ≡ s = omega arith in rw (days, hours, minutes, seconds) refl

-- A duration of `d` days, `h` hours, `m` minutes and `s` seconds, not all zero, is read without
-- `round` as these numbers with their units in words, from the first to the last that is not zero,
-- where the word for one has no `s`; when one of these numbers is zero there is a TypeError.
pub human_readable_duration-format :
    (d h m s : ℕ)
    → h < 24
    → m < 60
    → s < 60
    → 0 < d * 86400 + h * 3600 + m * 60 + s
    → human_readable_duration
        (format_duration_seconds (some (pos (d * 86400 + h * 3600 + m * 60 + s))))
        false
      ≡ (if any is_zero (trimmed (four d h m s))
          then none
          else some (join 32 (map phrase (trimmed (four d h m s)))))
human_readable_duration-format d h m s hs ms ss some_time =
    human_readable_duration-shown (d * 86400 + h * 3600 + m * 60 + s) some_time
    ∙ ap (λ ps. if any is_zero (trimmed ps) then none else some (join 32 (map phrase (trimmed ps))))
        (parts_eq d h m s hs ms ss)

read_first-IsLed :
    (ps : List Part)
    → all (λ p. is_unit p.unit) ps ≡ true
    → IsLed ps
    → read_first (map part_text ps) ≡ first_phrase ps
unfolding IsLed
read_first-IsLed [] h k = absurd k
read_first-IsLed (p ∷ ps) h k = read_part-part_text p (ground arith) ∙ rw k refl

-- With `round`, a duration of one second or more is read as its largest part that is not zero.
pub human_readable_duration-round :
    (n : ℕ)
    → 0 < n
    → human_readable_duration (format_duration_seconds (some (pos n))) true ≡ first_phrase (shown n)
human_readable_duration-round n h =
    human_readable_duration-written n true h
    ∙ read_first-IsLed (shown n) (units-shown n) (IsLed-shown n h)
