-- ===== src/Base/Tables.antt =====
-- A test at every number below a bound, which evaluation can carry out.
use Prim.Native.Nat.{ℕ, zero, suc, ◌<◌}
use mathlib.Core.Path.{◌≡◌}
use mathlib.Core.Bool.{Bool, true, ◌&&◌, and-eq-true_iff}
use native.Mathlib.Decide.{dec_lt}
use native.Mathlib.Omega.{arith}

unfoldable pub passes : ℕ → (ℕ → Bool) → Bool
passes zero test = true
passes (suc bound) test = passes bound test && test bound

pub passes-at :
    (bound : ℕ) (test : ℕ → Bool) (k : ℕ) → passes bound test ≡ true → k < bound → test k ≡ true
unfolding passes
passes-at zero test k done less = elim less [ ]
passes-at (suc bound) test k done less =
    let (before, last) = (and-eq-true_iff (passes bound test) (test bound)).0 done in
    elim (dec_lt k bound) [
      | yes lower ↦ passes-at bound test k before lower
      | no other ↦ let same : k ≡ bound = omega arith in rw same last
    ]
