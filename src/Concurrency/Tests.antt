-- ===== src/Concurrency/Tests.antt =====
-- A run of forEachBounded of src/utils/concurrency.ts, and the theorems at it.
use b2_mcp.Base.{All, List, [], arith, false, refl, some, ℕ, ◌∷◌, ◌≡◌}
use b2_mcp.Concurrency.{
  Event, Options, for_each_bounded, reports_abort, resolves, returned, run, runs, step,
  worker_round,
}
use b2_mcp.Concurrency.Workers.{below, run-visits}

abbrev two_workers : Options
two_workers = record { max_concurrency = some 2; aborted_at_call = false }

-- Three items: the second worker overtakes the first.
abbrev history : List Event
history = runs 0 ∷ runs 1 ∷ resolves 0 ∷ resolves 1 ∷ runs 1 ∷ resolves 1 ∷ runs 1 ∷ runs 0 ∷ []

abbrev all_taken : List ℕ
all_taken = 2 ∷ 1 ∷ 0 ∷ []

visited : (run two_workers 3 history).called ≡ all_taken
unfolding run step worker_round for_each_bounded
visited = refl

history-returned : All (λ w. w ≡ returned) (run two_workers 3 history).workers
unfolding run step worker_round for_each_bounded
history-returned = (refl, (refl, tt))

history-quiet : reports_abort (run two_workers 3 history) ≡ false
unfolding run step worker_round for_each_bounded
history-quiet = refl

run-visits_example : (run two_workers 3 history).called ≡ below 3
run-visits_example = run-visits two_workers 3 history (omega arith) history-returned history-quiet
