-- ===== src/Connection/Url.antt =====
-- The prefix shown before the URL field and the text in the field make up the URL.
use dataops_testgen.Base.{
  ◌≡◌, refl, sym, ◌∙◌, ap, ap₂, Bool, true, false, Option, none, some, [], ◌∷◌, ◌++◌, any, ◌==◌,
  if◌then◌else◌, Bool-cases, Option-cases, inl, inr, arith, or_default,
}
use dataops_testgen.Base.Text.{Text, codes, is_empty, starts_with}
use dataops_testgen.Connection.{before_at, scheme, two, extract_prefix, after, without, url_value}

after-append : (p s : Text) → after (p ++ s) p ≡ some s
after-append [] s = refl
after-append (c ∷ p) s =
    let same : (c == c) ≡ true = ground arith in rw (same, after-append p s) refl

without-append : (p s : Text) → without (p ++ s) p ≡ s
unfolding without
without-append [] [] = refl
without-append [] (c ∷ s) = refl
without-append (c ∷ p) s =
    ap (λ o. or_default o (c ∷ without (p ++ s) (c ∷ p))) (after-append (c ∷ p) s)

-- The text starts with the prefix.
abbrev Begins : Text → Text → Type 0
Begins s p = (rest : Text) × (s ≡ p ++ rest)

Begins-starts_with : (s p : Text) → starts_with s p ≡ true → Begins s p
Begins-starts_with s [] h = (s, refl)
Begins-starts_with [] (d ∷ p) h = absurd cc
Begins-starts_with (c ∷ s) (d ∷ p) h =
    let more : Begins s p = Begins-starts_with s p (ground arith) in
    let same : c ≡ d = ground arith in (more.0, ap₂ (λ x xs. x ∷ xs) same more.1)

Begins-before_at : (s : Text) → any (λ c. c == b'@') s ≡ true → Begins s (before_at s ++ b'@' ∷ [])
unfolding before_at
Begins-before_at [] h = absurd cc
Begins-before_at (c ∷ s) h = elim (Bool-cases (c == b'@')) [
  | inl e ↦ let same : c ≡ b'@' = ground arith in (s, rw e (ap (λ x. x ∷ s) same))
  | inr e ↦
      let more : Begins s (before_at s ++ b'@' ∷ []) = Begins-before_at s (ground arith) in
      (more.0, rw e (ap (λ t. c ∷ t) more.1))
]

Begins-scheme : (s : Text) → Begins s (or_default (scheme s) [])
unfolding scheme
Begins-scheme [] = ([], refl)
Begins-scheme (c ∷ s) = elim (Bool-cases (starts_with (c ∷ s) (codes "://"))) [
  | inl e ↦
      let more : Begins (c ∷ s) (codes "://") = Begins-starts_with (c ∷ s) (codes "://") e in
      (more.0, rw e more.1)
  | inr e ↦ elim (Option-cases (scheme s)) [
    | inl n ↦ (c ∷ s, rw (e, n) refl)
    | inr (p, n) ↦
        let more : Begins s (or_default (scheme s) []) = Begins-scheme s in
        (more.0, rw (e, n) (ap (λ t. c ∷ t) (more.1 ∙ rw n refl)))
  ]
]

Begins-two : (s : Text) → Begins s (two s)
Begins-two [] = ([], refl)
Begins-two (c ∷ []) = ([], refl)
Begins-two (c ∷ d ∷ s) = (s, refl)

Begins-if :
    (s : Text) (b : Bool) (p q : Text)
    → (b ≡ true → Begins s p)
    → (b ≡ false → Begins s q)
    → Begins s (if b then p else q)
Begins-if s true p q f g = f refl
Begins-if s false p q f g = g refl

Begins-or_default :
    (s : Text) (o : Option Text) (p : Text)
    → Begins s (or_default o [])
    → Begins s p
    → Begins s (or_default o p)
Begins-or_default s none p f g = g
Begins-or_default s (some q) p f g = f

Begins-extract_prefix : (url : Text) → Begins url (extract_prefix url)
unfolding extract_prefix
Begins-extract_prefix url =
    Begins-if url (is_empty url) _ _ (λ h. (url, refl))
      (λ h.
        Begins-if url (any (λ c. c == b'@') url) _ _
          (λ h'.
            Begins-if url (is_empty (before_at url)) _ _ (λ e. (url, refl))
              (λ e. Begins-before_at url h'))
          (λ h'. Begins-or_default url (scheme url) (two url) (Begins-scheme url) (Begins-two url)))

-- The prefix that the form shows before the URL field and the text that it puts into the field make
-- up the URL, whatever this is.
pub extract_prefix-url_value : (url : Text) → extract_prefix url ++ url_value url ≡ url
unfolding url_value
extract_prefix-url_value url =
    let whole : Begins url (extract_prefix url) = Begins-extract_prefix url in
    ap (λ t. extract_prefix url ++ without t (extract_prefix url)) whole.1
    ∙ ap (λ t. extract_prefix url ++ t) (without-append (extract_prefix url) whole.0)
    ∙ sym whole.1
