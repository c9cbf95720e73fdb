-- ===== src/Retry/Loop.antt =====
-- How the retry loop of src/utils/retry.ts ends, and what it does before that.
use b2_mcp.Base.{
  Bool, List, Option, [], false, none, some, suc, true, zero, ℕ, ◌+◌, ◌<◌, ◌∷◌, ◌≡◌, ◌≤◌,
}
use b2_mcp.Retry.{
  Outcome, RetryBudget, Run, Surroundings, consume_retry_budget_token, delay_of, rejected, resolved,
}

module _ {T E : Type 0} (s : Surroundings T E) where
  open s use {fn, retryable, aborted_before, aborted_after, aborted_asleep, clock, others}

  -- The budget when attempt `n` begins, `start` at the call: each attempt before has asked it for a
  -- token, after what others did to it.
  pub budget_at : RetryBudget → ℕ → RetryBudget
  budget_at start zero = start
  budget_at start (suc n) = (consume_retry_budget_token (others n (budget_at start n)) (clock n)).0

  -- What the budget says to a retry after attempt `n`.
  abbrev pub grants : RetryBudget → ℕ → Bool
  grants start n = (consume_retry_budget_token (others n (budget_at start n)) (clock n)).1

  -- Attempt `i` failed in a way that the loop goes on from, and the budget granted a token.
  abbrev pub Retried : RetryBudget → ℕ → Type 0
  Retried start i =
      (err : E) × (fn i ≡ rejected err)
      × (retryable err ≡ true)
      × (grants start i ≡ true)
      × (aborted_before i ≡ none)
      × (aborted_after i ≡ none)
      × (aborted_asleep i ≡ none)

  -- Why the call settles with this outcome after so many calls of `fn`.
  pub data Ends (retries : ℕ) (start : RetryBudget) : Outcome T E → ℕ → Type 0 where
    success : {n : ℕ} {v : T} → fn n ≡ resolved v → Ends retries start (resolved v) (n + 1)
    permanent :
        {n : ℕ} {err : E}
        → fn n ≡ rejected err
        → retryable err ≡ false
        → Ends retries start (rejected err) (n + 1)
    exhausted :
        {n : ℕ} {err : E}
        → n ≡ retries
        → fn n ≡ rejected err
        → Ends retries start (rejected err) (n + 1)
    over_budget :
        {n : ℕ} {err : E}
        → n < retries
        → fn n ≡ rejected err
        → retryable err ≡ true
        → grants start n ≡ false
        → Ends retries start (rejected err) (n + 1)
    cancelled_before :
        {n : ℕ} {reason : E}
        → aborted_before n ≡ some reason
        → Ends retries start (rejected reason) n
    cancelled_after :
        {n : ℕ} {reason : E}
        → aborted_after n ≡ some reason
        → Ends retries start (rejected reason) (n + 1)
    cancelled_asleep :
        {n : ℕ} {reason : E}
        → aborted_asleep n ≡ some reason
        → Ends retries start (rejected reason) (n + 1)

  -- The delays before attempt `n`, the last one first.
  pub backoff : ℕ → List ℕ
  backoff zero = []
  backoff (suc n) = delay_of s n ∷ backoff n

  pub record IsExplained (retries : ℕ) (start : RetryBudget) (r : Run T E) : Type 0 where
    pub ends : Ends retries start r.result r.calls
    pub bounded : r.calls ≤ retries + 1
    pub earlier : (i : ℕ) → i + 1 < r.calls → Retried start i
    pub slept : (n : ℕ) × (r.delays ≡ backoff n) × (n ≤ r.calls) × (n ≤ retries) × (r.calls ≤ n + 1)
    -- The budget left is the one before the last attempt, or that attempt has asked it too.
    pub left :
        (n : ℕ) × (r.budget ≡ budget_at start n) × (n ≤ r.calls) × (n ≤ retries) × (r.calls ≤ n + 1)

  module _ (start : RetryBudget) where
    abbrev AllRetried : ℕ → Type 0
    AllRetried n = (i : ℕ) → i < n → Retried start i

    -- The rest of the loop, if another attempt is left.
    abbrev Goes : (retries n : ℕ) → Option (List ℕ → RetryBudget → Run T E) → Type 0
    Goes retries n none = n ≡ retries
    Goes retries n (some rest) =
        (n < retries)
        × (Retried start n
            → IsExplained retries start (rest (backoff (suc n)) (budget_at start (suc n))))
