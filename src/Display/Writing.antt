-- ===== src/Display/Writing.antt =====
-- Writing the parts of a duration.
use dataops_testgen.Base.{
  ℕ, ◌≡◌, refl, ◌∙◌, ap, Bool, true, false, ◌&&◌, List, [], ◌∷◌, ◌++◌, map, all, All, ◌==◌,
  if◌then◌else◌, Bool-cases, inl, inr, arith,
}
use dataops_testgen.Base.Text.{
  Text, codes, text_eq, is_digit, is_empty, join, decimal, digits-decimal, nonempty-decimal,
}
use dataops_testgen.Display.{Part, part_text, text_or}
use dataops_testgen.Display.Trim.{drop_front, drop_back, no_texts, IsSolid}
use dataops_testgen.Display.Parts.{is_unit, is_zero, lead, put, trail}

is_empty-append : (s : Text) (c : ℕ) → is_empty (s ++ c ∷ []) ≡ false
is_empty-append [] c = refl
is_empty-append (d ∷ s) c = refl

pub is_empty-part_text : (p : Part) → is_empty (part_text p) ≡ is_zero p
unfolding part_text
is_empty-part_text p = elim (Bool-cases (is_zero p)) [
  | inl e ↦ rw e refl
  | inr e ↦ rw e (is_empty-append (decimal p.value) p.unit)
]

drop_front-full :
    (x : Text) (xs : List Text)
    → drop_front (x ∷ xs) ≡ (if is_empty x then drop_front xs else x ∷ xs)
drop_front-full [] xs = refl
drop_front-full (c ∷ s) xs = refl

pub drop_front-part_text :
    (ps : List Part) → drop_front (map part_text ps) ≡ map part_text (lead ps)
drop_front-part_text [] = refl
drop_front-part_text (p ∷ ps) =
    drop_front-full (part_text p) (map part_text ps)
    ∙ ap (λ b. if b then drop_front (map part_text ps) else part_text p ∷ map part_text ps)
        (is_empty-part_text p)
    ∙ elim (Bool-cases (is_zero p)) [ inl e ↦ rw e (drop_front-part_text ps) | inr e ↦ rw e refl ]

put-part_text :
    (p : Part) (ps : List Part)
    → (if is_empty (part_text p) && no_texts (map part_text ps)
        then []
        else part_text p ∷ map part_text ps)
      ≡ map part_text (put p ps)
put-part_text p [] = elim (Bool-cases (is_zero p)) [
  | inl e ↦ rw (is_empty-part_text p) (rw e refl)
  | inr e ↦ rw (is_empty-part_text p) (rw e refl)
]
put-part_text p (q ∷ qs) = elim (Bool-cases (is_zero p)) [
  | inl e ↦ rw (is_empty-part_text p) (rw e refl)
  | inr e ↦ rw (is_empty-part_text p) (rw e refl)
]

pub drop_back-part_text : (ps : List Part) → drop_back (map part_text ps) ≡ map part_text (trail ps)
drop_back-part_text [] = refl
drop_back-part_text (p ∷ ps) =
    ap (λ r. if is_empty (part_text p) && no_texts r then [] else part_text p ∷ r)
      (drop_back-part_text ps)
    ∙ put-part_text p (trail ps)

IsSolid-digits :
    (s : Text) (u : ℕ) → all is_digit s ≡ true → is_unit u ≡ true → IsSolid (s ++ u ∷ [])
IsSolid-digits [] u d h = (ground arith, tt)
IsSolid-digits (c ∷ s) u d h = (ground arith, IsSolid-digits s u (ground arith) h)

part_text-IsSolid : (p : Part) → is_unit p.unit ≡ true → IsSolid (part_text p)
unfolding part_text
part_text-IsSolid p h = elim (Bool-cases (is_zero p)) [
  | inl e ↦ rw e tt
  | inr e ↦ rw e (IsSolid-digits (decimal p.value) p.unit (digits-decimal p.value) h)
]

pub part_text-AllSolid :
    (ps : List Part) → all (λ p. is_unit p.unit) ps ≡ true → All IsSolid (map part_text ps)
part_text-AllSolid [] h = tt
part_text-AllSolid (p ∷ ps) h =
    (part_text-IsSolid p (ground arith), part_text-AllSolid ps (ground arith))

units-put :
    (p : Part) (ps : List Part)
    → is_unit p.unit ≡ true
    → all (λ q. is_unit q.unit) ps ≡ true
    → all (λ q. is_unit q.unit) (put p ps) ≡ true
units-put p [] h k = elim (Bool-cases (is_zero p)) [ inl e ↦ rw e refl | inr e ↦ rw e (rw h refl) ]
units-put p (q ∷ qs) h k = rw h k

pub units-trail :
    (ps : List Part)
    → all (λ p. is_unit p.unit) ps ≡ true
    → all (λ p. is_unit p.unit) (trail ps) ≡ true
units-trail [] h = refl
units-trail (p ∷ ps) h = units-put p (trail ps) (ground arith) (units-trail ps (ground arith))

pub units-lead :
    (ps : List Part)
    → all (λ p. is_unit p.unit) ps ≡ true
    → all (λ p. is_unit p.unit) (lead ps) ≡ true
units-lead [] h = refl
units-lead (p ∷ ps) h = elim (Bool-cases (is_zero p)) [
  | inl e ↦ rw e (units-lead ps (ground arith))
  | inr e ↦ rw e h
]

pub put-full : (p : Part) (ps : List Part) → is_zero p ≡ false → put p ps ≡ p ∷ ps
put-full p [] h = rw h refl
put-full p (q ∷ qs) h = refl

pub starts_digit : Text → Bool
starts_digit [] = false
starts_digit (c ∷ s) = is_digit c

starts_digit-append :
    (s rest : Text) → is_empty s ≡ false → all is_digit s ≡ true → starts_digit (s ++ rest) ≡ true
unfolding starts_digit
starts_digit-append [] rest h d = cc
starts_digit-append (c ∷ s) rest h d = ground arith

pub starts_digit-part_text : (p : Part) → is_zero p ≡ false → starts_digit (part_text p) ≡ true
unfolding part_text
starts_digit-part_text p h = rw h (
    starts_digit-append (decimal p.value) (p.unit ∷ []) (nonempty-decimal p.value)
      (digits-decimal p.value))

pub starts_digit-join :
    (x : Text) (xs : List Text) → starts_digit x ≡ true → starts_digit (join 32 (x ∷ xs)) ≡ true
unfolding starts_digit join
starts_digit-join x [] h = h
starts_digit-join [] (y ∷ xs) h = cc
starts_digit-join (c ∷ s) (y ∷ xs) h = h

-- A text that starts with a digit is neither empty nor `< 1s`.
pub text_or-starts_digit : (s d : Text) → starts_digit s ≡ true → text_or s d ≡ s
unfolding starts_digit
text_or-starts_digit [] d h = cc
text_or-starts_digit (c ∷ s) d h = refl

pub text_eq-starts_digit : (s : Text) → starts_digit s ≡ true → text_eq s (codes "< 1s") ≡ false
unfolding starts_digit
text_eq-starts_digit [] h = refl
text_eq-starts_digit (c ∷ s) h = let other : (c == b'<') ≡ false = ground arith in rw other refl
