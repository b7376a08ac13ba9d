-- ===== src/Base/Text.antt =====
-- Text as the list of its code points, with the string methods that the components use.
use Prim.Native.Nat.{ℕ, zero, suc, ◌+◌, ◌-◌, ◌*◌, ◌/◌, ◌%◌, ◌<◌}
use Prim.Native.Char.{code}
use Prim.Native.String.{String}
use mathlib.Core.Path.{◌≡◌, refl, ap, ◌∙◌}
use mathlib.Core.Logic.{inl, inr}
use mathlib.Core.Bool.{Bool, true, false, not, ◌&&◌, ◌||◌}
use mathlib.Core.Option.{Option, none, some}
use mathlib.Core.List.{List, [], ◌∷◌, ◌++◌}
use native.Mathlib.Omega.{arith}
use dataops_testgen.Base.Tests.{ltb, leb, ◌==◌, if◌then◌else◌, Bool-cases}
use dataops_testgen.Base.Lists.{all, keep, All}

abbrev pub Text : Type 0
Text = List ℕ

abbrev pub codes : String → Text
codes String.[] = []
codes (String.◌∷◌ c s) = code c ∷ codes s

abbrev pub text_eq : Text → Text → Bool
text_eq [] [] = true
text_eq (c ∷ s) (d ∷ t) = c == d && text_eq s t
text_eq _ _ = false

abbrev pub starts_with : Text → Text → Bool
starts_with s [] = true
starts_with [] (d ∷ t) = false
starts_with (c ∷ s) (d ∷ t) = c == d && starts_with s t

-- `\d`
abbrev pub is_digit : ℕ → Bool
is_digit c = leb b'0' c && leb c b'9'

-- `\s`
abbrev pub is_space : ℕ → Bool
is_space c =
    c == 32
    || leb 9 c && leb c 13
    || c == 0xa0
    || c == 0x1680
    || leb 0x2000 c && leb c 0x200a
    || c == 0x2028
    || c == 0x2029
    || c == 0x202f
    || c == 0x205f
    || c == 0x3000
    || c == 0xfeff

abbrev pub onto_first : ℕ → List Text → List Text
onto_first c [] = (c ∷ []) ∷ []
onto_first c (x ∷ xs) = (c ∷ x) ∷ xs

-- The pieces between the characters that pass the test: `s.split(',')`.
unfoldable pub split_by : (ℕ → Bool) → Text → List Text
split_by p [] = [] ∷ []
split_by p (c ∷ s) = let rest = split_by p s in if p c then [] ∷ rest else onto_first c rest

-- `xs.join(sep)` for a separator of one character
unfoldable pub join : ℕ → List Text → Text
join sep [] = []
join sep (x ∷ []) = x
join sep (x ∷ y ∷ xs) = x ++ sep ∷ join sep (y ∷ xs)

abbrev pub is_empty : Text → Bool
is_empty [] = true
is_empty (c ∷ s) = false

-- The words of `s.trim().split(/\s+/)`.
unfoldable pub words : Text → List Text
unfolding split_by
words s = keep (λ w. not (is_empty w)) (split_by is_space s)

decimal_from : ℕ → ℕ → Text → Text
decimal_from zero n rest = rest
decimal_from (suc fuel) n rest =
    let more = decimal_from fuel (n / 10) ((b'0' + n % 10) ∷ rest) in
    if ltb n 10 then (b'0' + n) ∷ rest else more

-- `n.toString()`
unfoldable pub decimal : ℕ → Text
unfolding decimal_from
decimal n = decimal_from (suc n) n []

-- `Number(s)`: 0 for the empty text, `none` for NaN.
number_from : ℕ → Text → Option ℕ
number_from acc [] = some acc
number_from acc (c ∷ s) =
    let rest = number_from (acc * 10 + (c - b'0')) s in if is_digit c then rest else none

unfoldable pub number : Text → Option ℕ
unfolding number_from
number s = number_from 0 s

number-decimal_from :
    (fuel n : ℕ) (rest : Text)
    → n < fuel
    → number_from 0 (decimal_from fuel n rest) ≡ number_from n rest
unfolding number_from decimal_from
number-decimal_from zero n rest h = absurd (omega arith)
number-decimal_from (suc fuel) n rest h = elim (Bool-cases (ltb n 10)) [
  | inl small ↦
      let digit : is_digit (b'0' + n) ≡ true = ground arith in
      let same : 0 + (b'0' + n - b'0') ≡ n = omega arith in rw (small, digit, same)
  | inr big ↦
      let digit : is_digit (b'0' + n % 10) ≡ true = ground arith in
      let same : n / 10 * 10 + (b'0' + n % 10 - b'0') ≡ n = omega arith in
      rw big (
        number-decimal_from fuel (n / 10) ((b'0' + n % 10) ∷ rest) (ground arith)
        ∙ rw (digit, same))
]

-- `Number` reads back what `toString` writes.
pub number-decimal : (n : ℕ) → number (decimal n) ≡ some n
unfolding number decimal
number-decimal n = number-decimal_from (suc n) n [] (omega arith)

digits-decimal_from :
    (fuel n : ℕ) (rest : Text)
    → all is_digit rest ≡ true
    → all is_digit (decimal_from fuel n rest) ≡ true
unfolding decimal_from
digits-decimal_from zero n rest h = h
digits-decimal_from (suc fuel) n rest h = elim (Bool-cases (ltb n 10)) [
  | inl small ↦ let digit : is_digit (b'0' + n) ≡ true = ground arith in rw (small, digit) h
  | inr big ↦
      let digit : is_digit (b'0' + n % 10) ≡ true = ground arith in
      rw big (digits-decimal_from fuel (n / 10) ((b'0' + n % 10) ∷ rest) (rw digit h))
]

pub digits-decimal : (n : ℕ) → all is_digit (decimal n) ≡ true
unfolding decimal
digits-decimal n = digits-decimal_from (suc n) n [] refl

nonempty-decimal_from :
    (fuel n : ℕ) (rest : Text) → is_empty rest ≡ false → is_empty (decimal_from fuel n rest) ≡ false
unfolding decimal_from
nonempty-decimal_from zero n rest h = h
nonempty-decimal_from (suc fuel) n rest h = elim (Bool-cases (ltb n 10)) [
  | inl small ↦ rw small
  | inr big ↦ rw big (nonempty-decimal_from fuel (n / 10) ((b'0' + n % 10) ∷ rest) refl)
]

pub nonempty-decimal : (n : ℕ) → is_empty (decimal n) ≡ false
unfolding decimal decimal_from
nonempty-decimal n = elim (Bool-cases (ltb n 10)) [
  | inl small ↦ rw small
  | inr big ↦ rw big (nonempty-decimal_from n (n / 10) ((b'0' + n % 10) ∷ []) refl)
]

decimal_example : decimal 1207 ≡ codes "1207"
unfolding decimal
decimal_example = refl

words_example : words (codes "  0 */4  * ") ≡ codes "0" ∷ codes "*/4" ∷ codes "*" ∷ []
unfolding words
words_example = refl

abbrev pub IsFree : (ℕ → Bool) → Text → Type 0
IsFree p [] = Unit
IsFree p (c ∷ s) = (p c ≡ false) × IsFree p s

abbrev pub is_free : (ℕ → Bool) → Text → Bool
is_free p s = all (λ c. not (p c)) s

pub IsFree-of_is_free : (p : ℕ → Bool) (s : Text) → is_free p s ≡ true → IsFree p s
IsFree-of_is_free p [] h = tt
IsFree-of_is_free p (c ∷ s) h = (ground arith, IsFree-of_is_free p s (ground arith))

pub split_by-free : (p : ℕ → Bool) (s : Text) → IsFree p s → split_by p s ≡ s ∷ []
unfolding split_by
split_by-free p [] h = refl
split_by-free p (c ∷ s) h = rw (h.0, split_by-free p s h.1) refl

pub split_by-append :
    (p : ℕ → Bool) (s rest : Text) (sep : ℕ)
    → IsFree p s
    → p sep ≡ true
    → split_by p (s ++ sep ∷ rest) ≡ s ∷ split_by p rest
unfolding split_by
split_by-append p [] rest sep h e = rw e refl
split_by-append p (c ∷ s) rest sep h e = rw (h.0, split_by-append p s rest sep h.1 e) refl

-- A join of pieces that do not hold the separator is taken apart by the split.
pub split_by-join :
    (p : ℕ → Bool) (sep : ℕ) (x : Text) (xs : List Text)
    → p sep ≡ true
    → All (IsFree p) (x ∷ xs)
    → split_by p (join sep (x ∷ xs)) ≡ x ∷ xs
unfolding join
split_by-join p sep x [] e h = split_by-free p x h.0
split_by-join p sep x (y ∷ ys) e h =
    split_by-append p x (join sep (y ∷ ys)) sep h.0 e ∙ ap (x ∷◌) (split_by-join p sep y ys e h.1)

-- A word: not empty, and no white space.
abbrev pub is_word : Text → Bool
is_word s = not (is_empty s) && is_free is_space s

abbrev pub IsWord : Text → Type 0
IsWord s = is_word s ≡ true

keep-words : (xs : List Text) → All IsWord xs → keep (λ w. not (is_empty w)) xs ≡ xs
keep-words [] h = refl
keep-words ([] ∷ xs) h = cc
keep-words ((c ∷ s) ∷ xs) h = rw (keep-words xs h.1) refl

IsFree-of_words : (xs : List Text) → All IsWord xs → All (IsFree is_space) xs
IsFree-of_words [] h = tt
IsFree-of_words ([] ∷ xs) h = (tt, IsFree-of_words xs h.1)
IsFree-of_words ((c ∷ s) ∷ xs) h = (IsFree-of_is_free is_space (c ∷ s) h.0, IsFree-of_words xs h.1)

pub words-join :
    (x : Text) (xs : List Text) → All IsWord (x ∷ xs) → words (join 32 (x ∷ xs)) ≡ x ∷ xs
unfolding words
words-join x xs h =
    rw (split_by-join is_space 32 x xs refl (IsFree-of_words (x ∷ xs) h)) (keep-words (x ∷ xs) h)

pub text_eq_refl : (s : Text) → text_eq s s ≡ true
text_eq_refl [] = refl
text_eq_refl (c ∷ s) = rw (text_eq_refl s) (ground arith)

pub text_eq-eq : (s t : Text) → text_eq s t ≡ true → s ≡ t
text_eq-eq [] [] h = refl
text_eq-eq [] (d ∷ t) h = cc
text_eq-eq (c ∷ s) [] h = cc
text_eq-eq (c ∷ s) (d ∷ t) h =
    let rest : s ≡ t = text_eq-eq s t (ground arith) in
    let first : c ≡ d = ground arith in rw (rest, first) refl
