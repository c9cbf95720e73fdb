-- ===== src/Retry.antt =====
-- src/utils/retry.ts: the retry budget shared by the process, and the retry loop.
-- Budget tokens are counted in hundredths: the bucket refills by BUDGET_TOKENS / BUDGET_WINDOW_MS,
-- which is a hundredth of a token per millisecond. Clocks are readings in milliseconds.
pub mod Budget
pub mod Loop
mod Tests
use b2_mcp.Base.{
  Bool, List, Option, String, [], false, has, if◌then◌else◌, leb, ltb, min, none, or_else, some,
  suc, true, zero, ℕ, ◌*◌, ◌+◌, ◌-◌, ◌^◌, ◌∷◌,
}
use b2_mcp.Value.{Store, Value, as_num, bool, is_object, prop}

-- Classification

abbrev retryable_status_codes : List ℕ
retryable_status_codes = 408 ∷ 429 ∷ 500 ∷ 502 ∷ 503 ∷ 504 ∷ []

-- `if (e.k && typeof e.k === "object") { if (typeof e.k.j === "number") … }`
abbrev nested_num : Store → Value → String → String → Option ℕ
nested_num h e k j = if is_object (prop h e k) then as_num (prop h (prop h e k) j) else none

unfoldable pub get_status_code : Store → Value → Option ℕ
get_status_code h err =
    if is_object err
    then or_else (nested_num h err "response" "status")
        (or_else (nested_num h err "$metadata" "httpStatusCode") (as_num (prop h err "status")))
    else none

abbrev status_retryable : Option ℕ → Bool
status_retryable none = false
status_retryable (some s) = has s retryable_status_codes

abbrev marked_retryable : Value → Bool → Bool
marked_retryable (bool b) by_status = b
marked_retryable _ by_status = by_status

unfoldable pub is_retryable_error : Store → Value → Bool
unfolding get_status_code
is_retryable_error h err =
    marked_retryable (prop h err "retryable") (status_retryable (get_status_code h err))

-- The token bucket

abbrev pub budget_tokens : ℕ
budget_tokens = 100 * 100

abbrev pub one_token : ℕ
one_token = 100

pub record RetryBudget : Type 0 where
  pub tokens : ℕ
  pub last_refill : ℕ

pub refill : RetryBudget → ℕ → RetryBudget
refill b now =
    if ltb b.last_refill now
    then record { tokens = min budget_tokens (b.tokens + (now - b.last_refill)); last_refill = now }
    else b

take_token : RetryBudget → RetryBudget × Bool
take_token b =
    if leb one_token b.tokens
    then (record b { tokens = b.tokens - one_token }, true)
    else (b, false)

unfoldable pub consume_retry_budget_token : RetryBudget → ℕ → RetryBudget × Bool
unfolding refill take_token
consume_retry_budget_token b now = take_token (refill b now)

pub reset_retry_budget : ℕ → RetryBudget
reset_retry_budget now = record { tokens = budget_tokens; last_refill = now }

-- The loop

abbrev pub max_retries : ℕ
max_retries = 3

abbrev base_delay_ms : ℕ
base_delay_ms = 1000

pub data Outcome (T E : Type 0) : Type 0 where
  resolved : T → Outcome T E
  rejected : E → Outcome T E

-- What surrounds one call of `withRetry`, by the number of the attempt: what `fn` gives, the
-- signal's abort reason where it is seen aborted (before `fn`, after it rejects, during the
-- sleep), the clock when the budget is asked, and what other callers do to the shared budget
-- before that.
pub record Surroundings (T E : Type 0) : Type 0 where
  pub fn : ℕ → Outcome T E
  pub retryable : E → Bool
  pub aborted_before : ℕ → Option E
  pub aborted_after : ℕ → Option E
  pub aborted_asleep : ℕ → Option E
  pub clock : ℕ → ℕ
  pub others : ℕ → RetryBudget → RetryBudget

-- The result, the number of calls of `fn`, the delays slept, and the budget left behind.
pub record Run (T E : Type 0) : Type 0 where
  pub result : Outcome T E
  pub calls : ℕ
  pub delays : List ℕ
  pub budget : RetryBudget

module _ {T E : Type 0} (s : Surroundings T E) where
  open s use {fn, retryable, aborted_before, aborted_after, aborted_asleep, clock, others}

  stop : Outcome T E → ℕ → List ℕ → RetryBudget → Run T E
  stop r calls delays b = record { result = r; calls = calls; delays = delays; budget = b }

  pub delay_of : ℕ → ℕ
  delay_of attempt = base_delay_ms * 2 ^ attempt

  -- The `catch` block. `again` is the rest of the loop, absent on the last attempt.
  pub on_rejection :
      ℕ → List ℕ → RetryBudget → E → Option (List ℕ → RetryBudget → Run T E) → Run T E
  unfolding stop
  on_rejection attempt slept b err again = elim (aborted_after attempt) [
    | some reason ↦ stop (rejected reason) (attempt + 1) slept b
    | none ↦ elim (retryable err) [
      | false ↦ stop (rejected err) (attempt + 1) slept b
      | true ↦ elim again [
        | none ↦ stop (rejected err) (attempt + 1) slept b
        | some rest ↦
            let (b', granted) = consume_retry_budget_token (others attempt b) (clock attempt) in
            elim granted [
              | false ↦ stop (rejected err) (attempt + 1) slept b'
              | true ↦ elim (aborted_asleep attempt) [
                | some reason ↦ stop (rejected reason) (attempt + 1) (delay_of attempt ∷ slept) b'
                | none ↦ rest (delay_of attempt ∷ slept) b'
              ]
            ]
      ]
    ]
  ]

  -- One round: `throwIfAborted`, the call of `fn`, and what follows it.
  pub round : ℕ → List ℕ → RetryBudget → Option (List ℕ → RetryBudget → Run T E) → Run T E
  unfolding stop
  round attempt slept b again = elim (aborted_before attempt) [
    | some reason ↦ stop (rejected reason) attempt slept b
    | none ↦ elim (fn attempt) [
      | resolved v ↦ stop (resolved v) (attempt + 1) slept b
      | rejected err ↦ on_rejection attempt slept b err again
    ]
  ]

  -- `left` is `retries - attempt`; `slept` holds the delays so far, the last one first.
  pub retry_from : ℕ → ℕ → List ℕ → RetryBudget → Run T E
  retry_from zero attempt slept b = round attempt slept b none
  retry_from (suc left) attempt slept b =
      round attempt slept b (some (λ slept' b'. retry_from left (attempt + 1) slept' b'))

  unfoldable pub with_retry : ℕ → RetryBudget → Run T E
  unfolding retry_from round on_rejection stop delay_of consume_retry_budget_token
  with_retry retries b = retry_from retries 0 [] b
