-- ===== src/Retry/Budget.antt =====
-- The retry budget of src/utils/retry.ts: how many retries it grants, and when it grants one.
use b2_mcp.Base.{
  All, List, [], arith, if◌then◌else◌, max, true, ℕ, ◌*◌, ◌+◌, ◌-◌, ◌↔◌, ◌∷◌, ◌≡◌, ◌≤◌,
}
use b2_mcp.Retry.{
  RetryBudget, budget_tokens, consume_retry_budget_token, one_token, reset_retry_budget,
}

pub record IsValid (b : RetryBudget) : Type 0 where
  pub within : b.tokens ≤ budget_tokens

-- Any sequence of calls, by the clock readings that they see.
pub consume_all : RetryBudget → List ℕ → RetryBudget × ℕ
consume_all b [] = (b, 0)
consume_all b (now ∷ nows) =
    let (b', granted) = consume_retry_budget_token b now in
    let (b'', n) = consume_all b' nows in (b'', if granted then n + 1 else n)

consume_step :
    (b : RetryBudget) (now : ℕ)
    → IsValid b
    → IsValid (consume_retry_budget_token b now).0
      × (b.last_refill ≤ (consume_retry_budget_token b now).0.last_refill)
      × ((consume_retry_budget_token b now).0.last_refill ≤ max b.last_refill now)
      × ((if (consume_retry_budget_token b now).1 then one_token else 0)
            + (consume_retry_budget_token b now).0.tokens
            + b.last_refill
          ≤ b.tokens + (consume_retry_budget_token b now).0.last_refill)
unfolding consume_retry_budget_token
consume_step b now v = ground arith

consume_all_step :
    (b : RetryBudget) (nows : List ℕ)
    → IsValid b
    → IsValid (consume_all b nows).0
      × (one_token * (consume_all b nows).1 + (consume_all b nows).0.tokens + b.last_refill
          ≤ b.tokens + (consume_all b nows).0.last_refill)
      × (b.last_refill ≤ (consume_all b nows).0.last_refill)
      × ((t : ℕ)
          → b.last_refill ≤ t
          → All (λ now. now ≤ t) nows
          → (consume_all b nows).0.last_refill ≤ t)
unfolding consume_all
consume_all_step b [] v = (v, omega arith, omega arith, λ t h _. h)
consume_all_step b (now ∷ nows) v =
    let (v', grows, below, paid) = consume_step b now v in
    let (v'', paid', grows', below') =
      consume_all_step (consume_retry_budget_token b now).0 nows v' in
    (v'', ground arith, omega arith, λ t h (first, rest). below' t (omega arith) rest)

-- Whatever clock readings up to time `t` the callers see, in whatever order, a budget that is full
-- at time `start` grants at most BUDGET_TOKENS retries and one for every 100 ms until `t`.
pub consume_all_bounded :
    (start t : ℕ) (nows : List ℕ)
    → start ≤ t
    → All (λ now. now ≤ t) nows
    → one_token * (consume_all (reset_retry_budget start) nows).1 ≤ budget_tokens + (t - start)
unfolding reset_retry_budget
consume_all_bounded start t nows h k =
    let (_, paid, grows, below) =
      consume_all_step (reset_retry_budget start) nows (record { within = omega arith }) in
    let last = below t h k in omega arith

-- A retry is granted exactly when the bucket, refilled up to now, holds a whole token; a refusal
-- takes nothing from it.
pub consume_granted_iff :
    (b : RetryBudget) (now : ℕ)
    → ((consume_retry_budget_token b now).1 ≡ true) ↔ (one_token ≤ b.tokens + (now - b.last_refill))
unfolding consume_retry_budget_token
consume_granted_iff b now = (λ h. ground arith, λ h. ground arith)
