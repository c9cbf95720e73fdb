-- ===== src/RateLimiter/Tests.antt =====
-- Runs of the limiter, and its theorems at concrete inputs.
use b2_mcp.Base.{
  All, List, String, [], arith, false, none, refl, true, ℕ, ◌*◌, ◌+◌, ◌-◌, ◌∷◌, ◌≡◌, ◌≤◌,
}
use b2_mcp.RateLimiter.{RateLimiterConfig, capacity, one_token, reset_rate_limiter}
use b2_mcp.RateLimiter.Single.{of_key, run, run-single_run, single_run}
use b2_mcp.RateLimiter.Throughput.{granted, granted_bounded, steady_never_refused}

abbrev tight : RateLimiterConfig
tight = record { rps = 2; burst = 2 }

-- "a" empties its burst, "b" comes between, and the bucket of "a" is evicted before its last call.
abbrev calls : List (String × ℕ)
calls =
    ("a", 10)
    ∷ ("a", 20)
    ∷ ("b", 25)
    ∷ ("a", 30)
    ∷ ("a", 600)
    ∷ ("b", 700_000)
    ∷ ("a", 1_400_000)
    ∷ []

answered :
    run tight reset_rate_limiter calls
    ≡ ("a", true)
      ∷ ("a", true)
      ∷ ("b", true)
      ∷ ("a", false)
      ∷ ("a", true)
      ∷ ("b", true)
      ∷ ("a", true)
      ∷ []
unfolding run reset_rate_limiter
answered = refl

run-single_run_example :
    of_key "a" (run tight reset_rate_limiter calls) ≡ single_run tight none (of_key "a" calls)
run-single_run_example = run-single_run tight "a" calls (omega arith)

granted_bounded_example :
    one_token * granted (of_key "a" (run tight reset_rate_limiter calls))
    ≤ capacity tight + (1_400_000 - 10) * tight.rps
granted_bounded_example =
    granted_bounded tight "a" 10 1_400_000 calls (omega arith) (omega arith) (omega arith)

abbrev slow : List (String × ℕ)
slow = ("a", 0) ∷ ("b", 10) ∷ ("a", 500) ∷ ("a", 1100) ∷ []

steady_never_refused_example :
    All (λ allowed. allowed ≡ true) (of_key "a" (run tight reset_rate_limiter slow))
steady_never_refused_example =
    steady_never_refused tight "a" slow (omega arith) (omega arith) (omega arith)
