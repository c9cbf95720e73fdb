-- ===== src/Retry/Tests.antt =====
-- Runs of the retry budget and loop, and their theorems at concrete inputs.
use b2_mcp.Base.{
  String, [], arith, false, has, none, refl, suc, true, zero, ℕ, ◌*◌, ◌+◌, ◌-◌, ◌∷◌, ◌≡◌, ◌≤◌,
}
use b2_mcp.Value.{Store, bool, num, ref}
use b2_mcp.Retry.{
  Outcome, Surroundings, budget_tokens, is_retryable_error, max_retries, one_token, rejected,
  reset_retry_budget, resolved, with_retry,
}
use b2_mcp.Retry.Budget.{consume_all, consume_all_bounded}

-- Fails with 503 twice, then answers.
abbrev flaky : ℕ → Outcome String ℕ
flaky zero = rejected 503
flaky (suc zero) = rejected 503
flaky _ = resolved "done"

abbrev quiet : Surroundings String ℕ
quiet = record {
  fn = flaky;
  retryable = λ status. has status (408 ∷ 429 ∷ 503 ∷ []);
  aborted_before = λ _. none;
  aborted_after = λ _. none;
  aborted_asleep = λ _. none;
  clock = λ n. 1000 * n;
  others = λ _ b. b;
}

third_time : with_retry quiet max_retries (reset_retry_budget 0) ≡ record {
  result = resolved "done";
  calls = 3;
  delays = 2000 ∷ 1000 ∷ [];
  budget = record { tokens = 9900; last_refill = 1000 };
}
unfolding with_retry reset_retry_budget
third_time = refl

abbrev store : Store
store =
    (("status", num 400) ∷ ("response", ref 1) ∷ [])
    ∷ (("status", num 503) ∷ [])
    ∷ (("status", num 503) ∷ ("retryable", bool false) ∷ [])
    ∷ []

classified : (is_retryable_error store (ref 0) ≡ true) × (is_retryable_error store (ref 2) ≡ false)
unfolding is_retryable_error
classified = (refl, refl)

consume_all_bounded_example :
    one_token * (consume_all (reset_retry_budget 0) (0 ∷ 50 ∷ 20 ∷ [])).1 ≤ budget_tokens + (50 - 0)
consume_all_bounded_example =
    consume_all_bounded 0 50 (0 ∷ 50 ∷ 20 ∷ []) (omega arith) (omega arith)
