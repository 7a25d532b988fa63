-- ===== src/Tests/Limiter.antt =====
-- The rate limiter at concrete attempts.
use sharing.Base.{ℕ, ◌≤◌, String, ◌≡◌, List, [], ◌∷◌, arith}
use sharing.RateLimit.{new_rate_limiter}
use sharing.RateLimit.Refinement.{times, run, spec_run, IsMonotone, run-eq-spec_run}
use sharing.RateLimit.Budget.{within, granted, within-granted-le-limit}

-- Three attempts of one source and one of another, the last after the window.
abbrev attempts : List (String × ℕ)
attempts = ("10.0.0.1", 5) ∷ ("10.0.0.1", 6) ∷ ("10.0.0.2", 7) ∷ ("10.0.0.1", 70) ∷ []

attempts-IsMonotone : IsMonotone 0 attempts
attempts-IsMonotone = (omega arith, (omega arith, (omega arith, (omega arith, tt))))

within-granted-le-limit_example :
    within 0 60 (times "10.0.0.1" (granted attempts (run (new_rate_limiter 1 60) attempts))) ≤ 1
within-granted-le-limit_example =
    within-granted-le-limit 1 60 attempts "10.0.0.1" 0 attempts-IsMonotone

run-eq-spec_run_example : run (new_rate_limiter 1 60) attempts ≡ spec_run 1 60 [] attempts
run-eq-spec_run_example = run-eq-spec_run 1 60 attempts attempts-IsMonotone
