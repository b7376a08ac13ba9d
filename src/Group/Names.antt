-- ===== src/Group/Names.antt =====
-- The list of tables, normalized.
use dataops_testgen.Base.{
  append_assoc, Option, none, some, ℕ, ◌≡◌, refl, ◌∙◌, ap, Bool, true, false, not, ◌&&◌, List, [],
  ◌∷◌, map, keep, All, Bool-cases, inl, inr, if◌then◌else◌, arith,
}
use dataops_testgen.Base.Text.{
  Text, codes, is_empty, is_space, split_by, onto_first, IsFree, split_by-append, split_by-free,
}
use dataops_testgen.Display.{trim, trim_start, trim_end}
use dataops_testgen.Validators.{join_all}
use dataops_testgen.Group.{
  normalized, GroupState, updated_group, group_start, is_separator, table_names,
  normalize_table_set,
}

-- No white space in front.
abbrev leads : Text → Bool
leads [] = true
leads (c ∷ s) = not (is_space c)

leads-trim_start : (s : Text) → leads (trim_start s) ≡ true
unfolding trim_start
leads-trim_start [] = refl
leads-trim_start (c ∷ s) = elim (Bool-cases (is_space c)) [
  | inl e ↦ rw e (leads-trim_start s)
  | inr e ↦ rw (e, e) refl
]

trim_start-leads : (s : Text) → leads s ≡ true → trim_start s ≡ s
unfolding trim_start
trim_start-leads [] h = refl
trim_start-leads (c ∷ s) h = let e : is_space c ≡ false = ground arith in rw e refl

leads-trim_end : (s : Text) → leads s ≡ true → leads (trim_end s) ≡ true
unfolding trim_end
leads-trim_end [] h = refl
leads-trim_end (c ∷ s) h = let e : is_space c ≡ false = ground arith in rw (e, e) refl

trim_end-twice : (s : Text) → trim_end (trim_end s) ≡ trim_end s
unfolding trim_end
trim_end-twice [] = refl
trim_end-twice (c ∷ s) = elim (Bool-cases (is_space c && is_empty (trim_end s))) [
  | inl e ↦ rw e refl
  | inr e ↦ rw (e, trim_end-twice s, e) refl
]

trim-twice : (s : Text) → trim (trim s) ≡ trim s
unfolding trim
trim-twice s =
    ap trim_end (
      trim_start-leads (trim_end (trim_start s))
        (leads-trim_end (trim_start s) (leads-trim_start s)))
    ∙ trim_end-twice (trim_start s)

module _ (p : ℕ → Bool) where
  IsFree-trim_start : (s : Text) → IsFree p s → IsFree p (trim_start s)
  unfolding trim_start
  IsFree-trim_start [] h = tt
  IsFree-trim_start (c ∷ s) h = elim (Bool-cases (is_space c)) [
    | inl e ↦ rw e (IsFree-trim_start s h.1)
    | inr e ↦ rw e h
  ]

  IsFree-trim_end : (s : Text) → IsFree p s → IsFree p (trim_end s)
  unfolding trim_end
  IsFree-trim_end [] h = tt
  IsFree-trim_end (c ∷ s) h = elim (Bool-cases (is_space c && is_empty (trim_end s))) [
    | inl e ↦ rw e tt
    | inr e ↦ rw e (h.0, IsFree-trim_end s h.1)
  ]

  onto_first-All :
      (c : ℕ) (xs : List Text) → p c ≡ false → All (IsFree p) xs → All (IsFree p) (onto_first c xs)
  onto_first-All c [] n h = ((n, tt), tt)
  onto_first-All c (x ∷ xs) n h = ((n, h.0), h.1)

  split_by-All : (s : Text) → All (IsFree p) (split_by p s)
  unfolding split_by
  split_by-All [] = (tt, tt)
  split_by-All (c ∷ s) = elim (Bool-cases (p c)) [
    | inl e ↦ rw e (tt, split_by-All s)
    | inr e ↦ rw e (onto_first-All c (split_by p s) e (split_by-All s))
  ]

-- A name as `normalizeTableSet` keeps it.
pub record IsName (s : Text) : Type 0 where
  pub trimmed : trim s ≡ s
  pub nonempty : is_empty s ≡ false
  pub single : IsFree is_separator s

kept-IsName :
    (x : Text) (xs : List Text)
    → All IsName xs
    → IsFree is_separator x
    → All IsName (if not (is_empty (trim x)) then trim x ∷ xs else xs)
unfolding trim
kept-IsName x xs h f = elim (Bool-cases (is_empty (trim x))) [
  | inl e ↦ rw e h
  | inr e ↦ rw e (
    record {
      trimmed = trim-twice x;
      nonempty = e;
      single = IsFree-trim_end is_separator (trim_start x) (IsFree-trim_start is_separator x f);
    },
    h,
  )
]

names-IsName :
    (xs : List Text)
    → All (IsFree is_separator) xs
    → All IsName (keep (λ part. not (is_empty part)) (map trim xs))
names-IsName [] h = tt
names-IsName (x ∷ xs) h =
    kept-IsName x (keep (λ part. not (is_empty part)) (map trim xs)) (names-IsName xs h.1) h.0

table_names-IsName : (value : Text) → All IsName (table_names value)
unfolding table_names
table_names-IsName value =
    names-IsName (split_by is_separator value) (split_by-All is_separator value)

abbrev clean : List Text → List Text
clean xs = keep (λ part. not (is_empty part)) (map trim xs)

clean-onto_first : (xs : List Text) → clean (onto_first 32 xs) ≡ clean xs
unfolding trim trim_start trim_end
clean-onto_first [] = refl
clean-onto_first (x ∷ xs) = refl

clean-cons : (x : Text) (xs : List Text) → IsName x → clean (x ∷ xs) ≡ x ∷ clean xs
clean-cons x xs n = rw (n.trimmed, n.nonempty) refl

clean-split_by_space :
    (s : Text) → clean (split_by is_separator (32 ∷ s)) ≡ clean (split_by is_separator s)
unfolding split_by
clean-split_by_space s = clean-onto_first (split_by is_separator s)

clean-join_all : (xs : List Text) → All IsName xs → clean (split_by is_separator (join_all xs)) ≡ xs
unfolding join_all
clean-join_all [] h = unfold split_by trim trim_start trim_end in refl
clean-join_all (x ∷ []) h = rw (split_by-free is_separator x h.0.single) (clean-cons x [] h.0)
clean-join_all (x ∷ y ∷ xs) h =
    let rest : Text = join_all (y ∷ xs) in
    ap (λ t. clean (split_by is_separator t)) (append_assoc x (codes ", ") rest)
    ∙ ap clean (split_by-append is_separator x (32 ∷ rest) b',' h.0.single refl)
    ∙ clean-cons x (split_by is_separator (32 ∷ rest)) h.0
    ∙ ap (λ ys. x ∷ ys) (clean-split_by_space rest ∙ clean-join_all (y ∷ xs) h.1)

pub table_names-normalize :
    (value : Text) → table_names (normalize_table_set value) ≡ table_names value
unfolding normalize_table_set table_names
table_names-normalize value =
    clean-join_all (clean (split_by is_separator value))
      (names-IsName (split_by is_separator value) (split_by-All is_separator value))

pub normalize-normalize :
    (value : Text) → normalize_table_set (normalize_table_set value) ≡ normalize_table_set value
unfolding normalize_table_set
normalize-normalize value = ap join_all (table_names-normalize value)

normalized-twice : (o : Option Text) → normalized (normalized (normalized o)) ≡ normalized o
normalized-twice none = refl
normalized-twice (some v) =
    ap (λ t. some t) (ap normalize_table_set (normalize-normalize v) ∙ normalize-normalize v)

-- The form of a table group with a list of tables, opened again on the table group that it hands on, has
-- the states that it had, with the list that it has handed on, and hands on the same one; the list that it hands on is read as the names of the one in the form,
-- which are trimmed, not empty, and have no separator.
pub updated_group-group_start :
    (id : Option Text) (s : GroupState) (value : Text)
    → s.profiling_table_set ≡ some value
    → (group_start (updated_group id s)
        ≡ record s { profiling_table_set = some (normalize_table_set value) })
      × (updated_group id (group_start (updated_group id s)) ≡ updated_group id s)
      × ((updated_group id s).profiling_table_set ≡ some (normalize_table_set value))
      × (table_names (normalize_table_set value) ≡ table_names value)
      × All IsName (table_names value)
unfolding updated_group group_start
updated_group-group_start id s value e = (
  ap (λ o. record s { profiling_table_set = o })
      (ap (λ o. normalized (normalized o)) e ∙ ap (λ t. some t) (normalize-normalize value)),
  ap (λ o. record (updated_group id s) { profiling_table_set = o })
      (normalized-twice s.profiling_table_set),
  ap normalized e,
  table_names-normalize value,
  table_names-IsName value,
)
