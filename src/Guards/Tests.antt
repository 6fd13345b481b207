-- ===== src/Guards/Tests.antt =====
-- backend/src/common/guards: examples.
use pfe.Base.{◌≤◌, ◌≡◌, refl, [], ◌∷◌, arith}
use pfe.Guards.RateLimit.{or_default, run}
use pfe.Guards.RateLimit.Bound.{within, run-within_limit}

-- Two requests a minute: of four, the third is refused.
of_four : (run 2 60000 "client:login" (0 ∷ 10 ∷ 20 ∷ 60005 ∷ []) [] []).1 ≡ 60005 ∷ 10 ∷ 0 ∷ []
unfolding run
of_four = refl

run-within_limit_example :
    within (or_default 0 60000) 70000 (run 2 0 "client:login" (0 ∷ 10 ∷ 20 ∷ 60005 ∷ []) [] []).1
    ≤ or_default 2 100
run-within_limit_example =
    run-within_limit 2 0 "client:login" (0 ∷ 10 ∷ 20 ∷ 60005 ∷ []) 70000
      (omega arith, (omega arith, (omega arith, (omega arith, tt)))) (omega arith)
