-- ===== src/Lifecycle/Tests.antt =====
-- Runs of the registry on the pages of a session.
use dataops_testgen.Base.{◌≡◌, refl, true, none, some, List, [], ◌∷◌, ◌==◌}
use dataops_testgen.Lifecycle.{
  Registry, empty_registry, Call, enter, exit, call, run, get_page_signal, enter_page, exit_page,
  exit_with, put, abort, make,
}
use dataops_testgen.Lifecycle.Live.{IsSound, run-IsSound}

abbrev visits : List Call
visits = enter "tests" ∷ enter "runs" ∷ enter "tests" ∷ exit "runs" ∷ []

-- two signals of one page, the first of them aborted when the page is entered again
abbrev visited : Registry
visited = record {
  controllers = put (λ key. none) "tests" (some 1);
  aborted = λ n. n == 0;
  made = 2;
}

visits_test : get_page_signal "tests" (run visits empty_registry) ≡ some 2
unfolding get_page_signal run call enter_page exit_page exit_with put
visits_test = refl

aborted_test : (run visits empty_registry).aborted 1 ≡ true
unfolding run call enter_page exit_page exit_with put make abort
aborted_test = refl

run-IsSound_example : IsSound (run visits empty_registry)
run-IsSound_example = run-IsSound visits
