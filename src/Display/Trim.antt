-- ===== src/Display/Trim.antt =====
-- `trim` and `split(' ')` on a join of texts without white space, some of which may be empty.
use dataops_testgen.Base.{
  ℕ, ◌≡◌, refl, ◌∙◌, ap, Bool, true, false, ◌&&◌, List, [], ◌∷◌, ◌++◌, All, arith, append-nil, sym,
  ◌==◌, if◌then◌else◌, Bool-cases, inl, inr,
}
use dataops_testgen.Base.Text.{Text, is_space, is_empty, split_by, join, IsFree, split_by-join}
use dataops_testgen.Display.{trim_start, trim_end, trim}

-- The texts without the empty ones at the front.
abbrev pub drop_front : List Text → List Text
drop_front [] = []
drop_front ([] ∷ xs) = drop_front xs
drop_front ((c ∷ s) ∷ xs) = (c ∷ s) ∷ xs

abbrev pub no_texts : List Text → Bool
no_texts [] = true
no_texts (x ∷ xs) = false

-- The texts without the empty ones at the end.
abbrev pub drop_back : List Text → List Text
drop_back [] = []
drop_back (x ∷ xs) = let rest = drop_back xs in if is_empty x && no_texts rest then [] else x ∷ rest

abbrev pub IsSolid : Text → Type 0
IsSolid = IsFree is_space

trim_start-append :
    (c : ℕ) (s rest : Text) → IsSolid (c ∷ s) → trim_start ((c ∷ s) ++ rest) ≡ (c ∷ s) ++ rest
unfolding trim_start
trim_start-append c s rest h = rw h.0

trim_start-join :
    (xs : List Text) → All IsSolid xs → trim_start (join 32 xs) ≡ join 32 (drop_front xs)
unfolding join trim_start
trim_start-join [] h = refl
trim_start-join ([] ∷ []) h = refl
trim_start-join ((c ∷ s) ∷ []) h = rw h.0.0
trim_start-join ([] ∷ y ∷ xs) h = trim_start-join (y ∷ xs) h.1
trim_start-join ((c ∷ s) ∷ y ∷ xs) h = rw h.0.0

trim_end-append : (s rest : Text) → IsSolid s → trim_end (s ++ rest) ≡ s ++ trim_end rest
unfolding trim_end
trim_end-append [] rest h = refl
trim_end-append (c ∷ s) rest h = rw (h.0, trim_end-append s rest h.1)

is_empty-join_step :
    (x : Text) (rest : List Text)
    → is_empty (join 32 rest) ≡ no_texts rest
    → is_empty (join 32 (if is_empty x && no_texts rest then [] else x ∷ rest))
      ≡ no_texts (if is_empty x && no_texts rest then [] else x ∷ rest)
unfolding join
is_empty-join_step [] [] h = refl
is_empty-join_step [] (r ∷ rs) h = refl
is_empty-join_step (c ∷ s) [] h = refl
is_empty-join_step (c ∷ s) (r ∷ rs) h = refl

is_empty-join-drop_back :
    (xs : List Text) → is_empty (join 32 (drop_back xs)) ≡ no_texts (drop_back xs)
is_empty-join-drop_back [] = unfold join in refl
is_empty-join-drop_back (x ∷ xs) = is_empty-join_step x (drop_back xs) (is_empty-join-drop_back xs)

join_step :
    (x : Text) (rest : List Text)
    → is_empty (join 32 rest) ≡ no_texts rest
    → x ++ (if is_empty (join 32 rest) then [] else 32 ∷ join 32 rest)
      ≡ join 32 (if is_empty x && no_texts rest then [] else x ∷ rest)
unfolding join
join_step [] [] h = refl
join_step (c ∷ s) [] h = append-nil (c ∷ s)
join_step [] (r ∷ rs) h = rw h refl
join_step (c ∷ s) (r ∷ rs) h = rw h refl

trim_end-join : (xs : List Text) → All IsSolid xs → trim_end (join 32 xs) ≡ join 32 (drop_back xs)
unfolding join trim_end
trim_end-join [] h = refl
trim_end-join ([] ∷ []) h = refl
trim_end-join ((c ∷ s) ∷ []) h =
    ap trim_end (sym (append-nil (c ∷ s))) ∙ trim_end-append (c ∷ s) [] h.0 ∙ append-nil (c ∷ s)
trim_end-join (x ∷ y ∷ xs) h =
    trim_end-append x (32 ∷ join 32 (y ∷ xs)) h.0
    ∙ rw (trim_end-join (y ∷ xs) h.1)
        (join_step x (drop_back (y ∷ xs)) (is_empty-join-drop_back (y ∷ xs)))

All-drop_front : (xs : List Text) → All IsSolid xs → All IsSolid (drop_front xs)
All-drop_front [] h = h
All-drop_front ([] ∷ xs) h = All-drop_front xs h.1
All-drop_front ((c ∷ s) ∷ xs) h = h

All-drop_back : (xs : List Text) → All IsSolid xs → All IsSolid (drop_back xs)
All-drop_back [] h = h
All-drop_back (x ∷ xs) h = elim (Bool-cases (is_empty x && no_texts (drop_back xs))) [
  | inl e ↦ rw e tt
  | inr e ↦ rw e (h.0, All-drop_back xs h.1)
]

-- The outer empty texts go, the inner ones stay.
pub trim-join :
    (xs : List Text) → All IsSolid xs → trim (join 32 xs) ≡ join 32 (drop_back (drop_front xs))
unfolding trim
trim-join xs h =
    ap trim_end (trim_start-join xs h) ∙ trim_end-join (drop_front xs) (All-drop_front xs h)

other-is_space : (c : ℕ) → is_space c ≡ false → (c == 32) ≡ false
other-is_space c h = ground arith

IsFree-of_IsSolid : (s : Text) → IsSolid s → IsFree (λ c. c == 32) s
IsFree-of_IsSolid [] h = h
IsFree-of_IsSolid (c ∷ s) h = (other-is_space c h.0, IsFree-of_IsSolid s h.1)

AllFree-of_AllSolid : (xs : List Text) → All IsSolid xs → All (IsFree (λ c. c == 32)) xs
AllFree-of_AllSolid [] h = h
AllFree-of_AllSolid (x ∷ xs) h = (IsFree-of_IsSolid x h.0, AllFree-of_AllSolid xs h.1)

-- `xs.join(' ').split(' ')`
pub split_by-join_again :
    (xs : List Text)
    → All IsSolid xs
    → no_texts xs ≡ false
    → split_by (λ c. c == 32) (join 32 xs) ≡ xs
split_by-join_again [] h full = cc
split_by-join_again (x ∷ xs) h full =
    split_by-join (λ c. c == 32) 32 x xs refl (AllFree-of_AllSolid (x ∷ xs) h)
