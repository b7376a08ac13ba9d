-- ===== src/Lifecycle/Calls.antt =====
-- What one call of `enterPage` or `exitPage` does.
use dataops_testgen.Base.{
  ℕ, ◌<◌, ◌≡◌, refl, ◌∙◌, ap, Bool, false, ◌||◌, Option, none, some, ◌==◌, Bool-cases, inl, inr,
  arith, if◌then◌else◌, String, str_eq,
}
use dataops_testgen.Lifecycle.{
  Registry, put, abort, enter_page, exit_with, exit_page, get_page_signal, Call, enter, exit, call,
}
use dataops_testgen.Lifecycle.Live.{same_key, make-other}

abbrev pub page : Call → String
page (enter key) = key
page (exit key) = key

-- The signal that a page has after a call for it.
abbrev pub signal_after : Call → Registry → Option ℕ
signal_after (enter key) r = some r.made
signal_after (exit key) r = none

abbrev pub is_signal : Option ℕ → ℕ → Bool
is_signal none n = false
is_signal (some m) n = n == m

abort-is_signal :
    (o : Option ℕ) (flags : ℕ → Bool) (n : ℕ) → abort o flags n ≡ (flags n || is_signal o n)
unfolding abort
abort-is_signal none flags n = ground arith
abort-is_signal (some m) flags n = ground arith

exit_with-aborted :
    (o : Option ℕ) (key : String) (r : Registry) (n : ℕ)
    → (exit_with o key r).aborted n ≡ (r.aborted n || is_signal o n)
unfolding exit_with
exit_with-aborted none key r n = ground arith
exit_with-aborted (some m) key r n = abort-is_signal (some m) r.aborted n

-- A call aborts the signal that its page had, and of the other signals given out before it none.
pub call-aborted :
    (c : Call) (r : Registry) (n : ℕ)
    → n < r.made
    → (call c r).aborted n ≡ (r.aborted n || is_signal (get_page_signal (page c) r) n)
unfolding call get_page_signal enter_page exit_page
call-aborted (enter key) r n h =
    make-other r.made (abort (r.controllers key) r.aborted) n h
    ∙ abort-is_signal (r.controllers key) r.aborted n
call-aborted (exit key) r n h = exit_with-aborted (r.controllers key) key r n

exit_with-controllers :
    (o : Option ℕ) (key k : String) (r : Registry)
    → r.controllers key ≡ o
    → (exit_with o key r).controllers k ≡ (if str_eq k key then none else r.controllers k)
unfolding exit_with put
exit_with-controllers none key k r h = elim (Bool-cases (str_eq k key)) [
  | inl e ↦ rw e (ap r.controllers (same_key k key e) ∙ h)
  | inr e ↦ rw e refl
]
exit_with-controllers (some m) key k r h = refl

-- A call gives its page a new signal on entering and none on leaving, and leaves the signals of the
-- other pages as they are.
pub get_page_signal-call :
    (c : Call) (k : String) (r : Registry)
    → get_page_signal k (call c r)
      ≡ (if str_eq k (page c) then signal_after c r else get_page_signal k r)
unfolding call get_page_signal enter_page exit_page put
get_page_signal-call (enter key) k r = refl
get_page_signal-call (exit key) k r = exit_with-controllers (r.controllers key) key k r refl
