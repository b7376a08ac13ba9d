-- ===== src/Lifecycle.antt =====
-- testgen/ui/static/js/page_lifecycle.js: the registry of the abort controllers of the pages. A
-- controller is a number, given out in the order in which they are made; the store keeps whether
-- its signal is aborted.
pub mod Live
pub mod Calls
mod Tests
use dataops_testgen.Base.{
  ℕ, suc, Bool, true, false, Option, none, some, List, [], ◌∷◌, ◌==◌, if◌then◌else◌, String, str_eq,
}

pub record Registry : Type 0 where
  pub controllers : String → Option ℕ
  pub aborted : ℕ → Bool
  -- the number of controllers made so far
  pub made : ℕ

abbrev pub empty_registry : Registry
empty_registry = record { controllers = λ key. none; aborted = λ n. false; made = 0 }

-- `controllers.set(key, ...)`, and `controllers.delete(key)` for `none`
pub put : (String → Option ℕ) → String → Option ℕ → String → Option ℕ
put m key v k = if str_eq k key then v else m k

-- `controller?.abort()`
pub abort : Option ℕ → (ℕ → Bool) → ℕ → Bool
abort none flags n = flags n
abort (some m) flags n = if n == m then true else flags n

-- A new controller's signal is not aborted.
pub make : ℕ → (ℕ → Bool) → ℕ → Bool
make m flags n = if n == m then false else flags n

-- `enterPage`; the signal that it returns is that of controller `made`.
pub enter_page : String → Registry → Registry
enter_page key r = record {
  controllers = put r.controllers key (some r.made);
  aborted = make r.made (abort (r.controllers key) r.aborted);
  made = suc r.made;
}

-- `exitPage`, for the controller found
pub exit_with : Option ℕ → String → Registry → Registry
exit_with none key r = r
exit_with (some n) key r = record {
  controllers = put r.controllers key none;
  aborted = abort (some n) r.aborted;
  made = r.made;
}

pub exit_page : String → Registry → Registry
exit_page key r = exit_with (r.controllers key) key r

pub get_page_signal : String → Registry → Option ℕ
get_page_signal key r = r.controllers key

-- A call of the module's functions that changes the registry.
pub data Call : Type 0 where
  enter : String → Call
  exit : String → Call

pub call : Call → Registry → Registry
call (enter key) r = enter_page key r
call (exit key) r = exit_page key r

pub run : List Call → Registry → Registry
run [] r = r
run (c ∷ cs) r = run cs (call c r)
