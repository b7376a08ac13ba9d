-- ===== src/Display/Reading.antt =====
-- Reading the parts of a written duration.
use dataops_testgen.Base.{
  ℕ, zero, suc, ◌≡◌, refl, ◌∙◌, ap, ap₂, Bool, true, false, ◌||◌, Option, none, some, List, [], ◌∷◌,
  ◌++◌, map, any, all, ◌==◌, if◌then◌else◌, Bool-cases, inl, inr, arith, append-nil,
}
use dataops_testgen.Base.Text.{
  Text, codes, is_digit, decimal, number, number-decimal, digits-decimal,
}
use dataops_testgen.Display.{
  Part, part_text, last_letter, remove_letter, plural, read_with, unit_template, read_part,
  read_all, both,
}
use dataops_testgen.Display.Parts.{unit_word, is_unit, is_zero, counted, phrase}

last_letter-append : (s : Text) (u : ℕ) → last_letter (s ++ u ∷ []) ≡ some u
unfolding last_letter
last_letter-append [] u = refl
last_letter-append (c ∷ []) u = refl
last_letter-append (c ∷ d ∷ s) u = last_letter-append (d ∷ s) u

remove_letter-append :
    (s : Text) (u : ℕ)
    → is_digit u ≡ false
    → all is_digit s ≡ true
    → remove_letter u (s ++ u ∷ []) ≡ s
unfolding remove_letter
remove_letter-append [] u h d = let same : (u == u) ≡ true = ground arith in rw same
remove_letter-append (c ∷ s) u h d =
    let other : (c == u) ≡ false = ground arith in
    rw other (ap (c ∷◌) (remove_letter-append s u h (ground arith)))

unit_template-is_unit :
    (u : ℕ) (v : Option ℕ) → is_unit u ≡ true → unit_template u v ≡ some (plural v (unit_word u))
unfolding unit_template
unit_template-is_unit u v h = ground arith

is_digit-is_unit : (u : ℕ) → is_unit u ≡ true → is_digit u ≡ false
is_digit-is_unit u h = ground arith

read_part-decimal :
    (v u : ℕ)
    → is_unit u ≡ true
    → read_part (decimal v ++ u ∷ []) ≡ some (plural (some v) (unit_word u))
unfolding read_part
read_part-decimal v u h =
    ap (λ o. read_with o (decimal v ++ u ∷ [])) (last_letter-append (decimal v) u)
    ∙ ap (λ t. unit_template u (number t))
        (remove_letter-append (decimal v) u (is_digit-is_unit u h) (digits-decimal v))
    ∙ ap (unit_template u) (number-decimal v)
    ∙ unit_template-is_unit u (some v) h

plural_lem : (v : ℕ) (word : Text) → plural (some v) word ≡ counted v word
unfolding decimal
plural_lem zero word = refl
plural_lem (suc zero) word = ap (λ t. codes "1 " ++ t) (append-nil word)
plural_lem (suc (suc n)) word =
    let other : (suc (suc n) == 1) ≡ false = ground arith in rw other refl

pub read_part-part_text :
    (p : Part)
    → is_unit p.unit ≡ true
    → read_part (part_text p) ≡ (if is_zero p then none else some (phrase p))
unfolding read_part last_letter part_text
read_part-part_text p h = elim (Bool-cases (is_zero p)) [
  | inl e ↦ rw e refl
  | inr e ↦
      rw e (read_part-decimal p.value p.unit h ∙ ap some (plural_lem p.value (unit_word p.unit)))
]

both-some :
    (x : Bool) (t : Text) (ts : List Text)
    → both (some t) (if x then none else some ts) ≡ (if x then none else some (t ∷ ts))
both-some true t ts = refl
both-some false t ts = refl

both-none : (o : Option (List Text)) → both none o ≡ none
both-none none = refl
both-none (some ts) = refl

read_step :
    (p : Part) (x : Bool) (ts : List Text)
    → both (if is_zero p then none else some (phrase p)) (if x then none else some ts)
      ≡ (if is_zero p || x then none else some (phrase p ∷ ts))
read_step p x ts = elim (Bool-cases (is_zero p)) [
  | inl e ↦ rw e (both-none (if x then none else some ts))
  | inr e ↦ rw e (both-some x (phrase p) ts)
]

pub read_all-part_text :
    (ps : List Part)
    → all (λ p. is_unit p.unit) ps ≡ true
    → read_all (map part_text ps) ≡ (if any is_zero ps then none else some (map phrase ps))
unfolding read_all
read_all-part_text [] h = refl
read_all-part_text (p ∷ ps) h =
    ap₂ both (read_part-part_text p (ground arith)) (read_all-part_text ps (ground arith))
    ∙ read_step p (any is_zero ps) (map phrase ps)
