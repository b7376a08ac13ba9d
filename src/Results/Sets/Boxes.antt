-- ===== src/Results/Sets/Boxes.antt =====
-- The states of the check boxes after the loops over them.
use dataops_testgen.Base.{
  ◌≡◌, refl, sym, ◌∙◌, ap, Bool, true, false, ◌&&◌, ◌||◌, List, [], ◌∷◌, ◌++◌, map, Bool-cases, inl,
  inr, if◌then◌else◌, arith, String, str_eq, str_eq_iff,
}
use dataops_testgen.Results.Sets.{
  has, Check, Checks, has_check, get_check, set_check, tick_box, ensure, untick, untick_all,
  retick_check, retick, is_ticked,
}

has_check-append :
    (w v : String) (cs : Checks)
    → has_check w (cs ++ record { id = v; ticked = false } ∷ []) ≡ (has_check w cs || str_eq v w)
unfolding has_check
has_check-append w v [] = ground arith
has_check-append w v (c ∷ cs) = rw (has_check-append w v cs) (ground arith)

is_ticked-append :
    (w v : String) (cs : Checks)
    → is_ticked w (cs ++ record { id = v; ticked = false } ∷ []) ≡ is_ticked w cs
unfolding is_ticked
is_ticked-append w v [] = ground arith
is_ticked-append w v (c ∷ cs) = rw (is_ticked-append w v cs) refl

pub has_check-get_check :
    (w v : String) (cs : Checks) → has_check w (get_check v cs) ≡ (str_eq v w || has_check w cs)
unfolding get_check
has_check-get_check w v cs = elim (Bool-cases (has_check v cs)) [
  | inl e ↦
      let there : str_eq v w ≡ true → has_check w cs ≡ true =
        λ q. sym (ap (λ u. has_check u cs) ((str_eq_iff v w).0 q)) ∙ e in
      rw e (ground arith)
  | inr e ↦ rw (e, has_check-append w v cs) (ground arith)
]

pub is_ticked-get_check :
    (w v : String) (cs : Checks) → is_ticked w (get_check v cs) ≡ is_ticked w cs
unfolding get_check
is_ticked-get_check w v cs = elim (Bool-cases (has_check v cs)) [
  | inl e ↦ rw e refl
  | inr e ↦ rw e (is_ticked-append w v cs)
]

has_check-map :
    (f : Check → Check) (w : String) (cs : Checks)
    → ((c : Check) → (f c).id ≡ c.id)
    → has_check w (map f cs) ≡ has_check w cs
unfolding has_check
has_check-map f w [] same = refl
has_check-map f w (c ∷ cs) same = rw (same c, has_check-map f w cs same) refl

set_check-id : (v : String) (b : Bool) (c : Check) → (set_check v b c).id ≡ c.id
set_check-id v b c = elim (Bool-cases (str_eq c.id v)) [ inl e ↦ rw e refl | inr e ↦ rw e refl ]

retick_check-id : (page active : List String) (c : Check) → (retick_check page active c).id ≡ c.id
unfolding retick_check
retick_check-id page active c = elim (Bool-cases (has c.id page)) [
  | inl e ↦ rw e refl
  | inr e ↦ rw e refl
]

pub has_check-tick_box :
    (w v : String) (b : Bool) (cs : Checks)
    → has_check w (tick_box v b cs) ≡ (str_eq v w || has_check w cs)
unfolding tick_box
has_check-tick_box w v b cs =
    has_check-map (set_check v b) w (get_check v cs) (set_check-id v b) ∙ has_check-get_check w v cs

pub has_check-untick_all : (w : String) (cs : Checks) → has_check w (untick_all cs) ≡ has_check w cs
unfolding untick_all
has_check-untick_all w cs = has_check-map untick w cs (λ c. refl)

pub has_check-retick :
    (w : String) (page active : List String) (cs : Checks)
    → has_check w (retick page active cs) ≡ has_check w cs
unfolding retick
has_check-retick w page active cs =
    has_check-map (retick_check page active) w cs (retick_check-id page active)

set_check-ticked :
    (w v : String) (b : Bool) (c : Check)
    → (str_eq (set_check v b c).id w && (set_check v b c).ticked)
      ≡ (if str_eq v w then str_eq c.id w && b else str_eq c.id w && c.ticked)
set_check-ticked w v b c = elim (Bool-cases (str_eq c.id v)) [
  | inl e ↦
      let same : str_eq c.id w ≡ str_eq v w = ap (λ u. str_eq u w) ((str_eq_iff c.id v).0 e) in
      rw (e, same) (ground arith)
  | inr e ↦
      let other : str_eq v w ≡ true → str_eq c.id w ≡ false =
        λ q. ap (str_eq c.id) (sym ((str_eq_iff v w).0 q)) ∙ e in
      rw e (ground arith)
]

retick_check-here :
    (w : String) (page active : List String) (c : Check)
    → c.id ≡ w
    → (retick_check page active c).ticked ≡ (if has w page then has w active else c.ticked)
unfolding retick_check
retick_check-here w page active c e =
    let here : has c.id page ≡ has w page = ap (λ u. has u page) e in
    let on : has c.id active ≡ has w active = ap (λ u. has u active) e in
    elim (Bool-cases (has w page)) [ inl h ↦ rw (here, h) on | inr h ↦ rw (here, h) refl ]

retick_check-ticked :
    (w : String) (page active : List String) (c : Check)
    → (str_eq (retick_check page active c).id w && (retick_check page active c).ticked)
      ≡ (if has w page then str_eq c.id w && has w active else str_eq c.id w && c.ticked)
retick_check-ticked w page active c =
    rw (retick_check-id page active c) (elim (Bool-cases (str_eq c.id w)) [
      | inl e ↦ rw e (retick_check-here w page active c ((str_eq_iff c.id w).0 e) ∙ ground arith)
      | inr e ↦ rw e (ground arith)
    ])

is_ticked-set_check :
    (w v : String) (b : Bool) (cs : Checks)
    → is_ticked w (map (set_check v b) cs)
      ≡ (if str_eq v w then has_check w cs && b else is_ticked w cs)
unfolding is_ticked has_check
is_ticked-set_check w v b [] = ground arith
is_ticked-set_check w v b (c ∷ cs) =
    rw (set_check-ticked w v b c, is_ticked-set_check w v b cs) (ground arith)

pub is_ticked-tick_box :
    (w v : String) (b : Bool) (cs : Checks)
    → is_ticked w (tick_box v b cs) ≡ (if str_eq v w then b else is_ticked w cs)
unfolding tick_box
is_ticked-tick_box w v b cs =
    rw
      (
        is_ticked-set_check w v b (get_check v cs),
        has_check-get_check w v cs,
        is_ticked-get_check w v cs,
      )
      (ground arith)

pub is_ticked-untick_all : (w : String) (cs : Checks) → is_ticked w (untick_all cs) ≡ false
unfolding is_ticked untick_all
is_ticked-untick_all w [] = refl
is_ticked-untick_all w (c ∷ cs) = rw (is_ticked-untick_all w cs) (ground arith)

pub is_ticked-retick :
    (w : String) (page active : List String) (cs : Checks)
    → is_ticked w (retick page active cs)
      ≡ (if has w page then has_check w cs && has w active else is_ticked w cs)
unfolding retick is_ticked has_check
is_ticked-retick w page active [] = ground arith
is_ticked-retick w page active (c ∷ cs) =
    rw (retick_check-ticked w page active c, is_ticked-retick w page active cs) (ground arith)

pub has_check-ensure :
    (w : String) (page : List String) (cs : Checks)
    → has_check w (ensure page cs) ≡ (has w page || has_check w cs)
unfolding ensure has
has_check-ensure w [] cs = refl
has_check-ensure w (v ∷ page) cs =
    rw (has_check-ensure w page (get_check v cs), has_check-get_check w v cs) (ground arith)

pub is_ticked-ensure :
    (w : String) (page : List String) (cs : Checks) → is_ticked w (ensure page cs) ≡ is_ticked w cs
unfolding ensure
is_ticked-ensure w [] cs = refl
is_ticked-ensure w (v ∷ page) cs =
    is_ticked-ensure w page (get_check v cs) ∙ is_ticked-get_check w v cs
