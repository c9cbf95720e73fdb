-- ===== src/OAuth/Circuit.antt =====
-- runOAuthDependencyWithRetry of src/oauth-resource-server.ts: the retries of one call of an OAuth
-- dependency, and the circuit that its calls share. The delay of a retry is waited out, or the
-- caller's signal aborts it.
use b2_mcp.Base.{
  Bool, Option, String, false, if◌then◌else◌, leb, ltb, max, none, some, suc, true, zero, ℕ, ◌+◌,
  ◌-◌, ◌/◌,
}
use b2_mcp.OAuth.Claims.{OAuthErrorCode}

pub data Reason : Type 0 where
  timeout network_error http_status open_circuit request_aborted jwks_redirect : Reason
  introspection_redirect invalid_jwks : Reason

pub record OAuthDependencyError : Type 0 where
  pub reason : Reason
  pub dependency_status : Option ℕ
  pub retry_after_seconds : Option ℕ

pub record OAuthDependencyCircuitState : Type 0 where
  pub failures : ℕ
  pub opened_until_ms : ℕ

pub record OAuthDependencyPolicy : Type 0 where
  pub max_retries : ℕ
  pub circuit_failures : ℕ
  pub circuit_open_ms : ℕ

-- What one attempt gives: an answer, one of the two kinds of OAuth errors, or something else thrown.
pub data Attempt {ℓ} (A : Type ℓ) : Type ℓ where
  answered : A → Attempt A
  dependency_failed : OAuthDependencyError → Attempt A
  oauth_failed : OAuthErrorCode → String → Attempt A
  threw : Attempt A

pub data Outcome {ℓ} (A : Type ℓ) : Type ℓ where
  returned : A → Outcome A
  unavailable_with : OAuthDependencyError → Outcome A
  refused_with : OAuthErrorCode → String → Outcome A
  unexpected : Outcome A

-- How the attempts of a call end; those that are stopped say nothing of the dependency.
pub data Ended {ℓ} (A : Type ℓ) : Type ℓ where
  came_back : A → Ended A
  gave_up : OAuthDependencyError → Ended A
  stopped : Outcome A → Ended A

-- The clock when the call starts and when its failure is noted; attempts are counted from 1.
pub record DependencyCall {ℓ} (A : Type ℓ) : Type ℓ where
  pub started_ms : ℕ
  pub finished_ms : ℕ
  pub attempts : ℕ → Attempt A
  pub delay_aborted : ℕ → Bool

abbrev pub is_abort_reason : Reason → Bool
is_abort_reason request_aborted = true
is_abort_reason _ = false

abbrev pub is_retryable : Reason → Bool
is_retryable timeout = true
is_retryable network_error = true
is_retryable http_status = true
is_retryable _ = false

abbrev pub seconds_until : ℕ → ℕ → ℕ
seconds_until until now_ms = max 1 ((until - now_ms + 999) / 1000)

abbrev pub retry_after_seconds : Option OAuthDependencyCircuitState → ℕ → Option ℕ
retry_after_seconds none now_ms = none
retry_after_seconds (some st) now_ms =
    if leb st.opened_until_ms now_ms then none else some (seconds_until st.opened_until_ms now_ms)

abbrev pub unavailable_now : Reason → Option ℕ → Option ℕ → OAuthDependencyError
unavailable_now reason status retry = record {
  reason = reason;
  dependency_status = status;
  retry_after_seconds = retry;
}

abbrev pub state_or_closed : Option OAuthDependencyCircuitState → OAuthDependencyCircuitState
state_or_closed none = record { failures = 0; opened_until_ms = 0 }
state_or_closed (some st) = st

abbrev pub after_failure :
    OAuthDependencyPolicy → ℕ → Option OAuthDependencyCircuitState → OAuthDependencyCircuitState
after_failure policy now_ms o =
    let st = state_or_closed o in
    record {
      failures = st.failures + 1;
      opened_until_ms =
          if leb policy.circuit_failures (st.failures + 1)
          then now_ms + policy.circuit_open_ms
          else st.opened_until_ms;
    }

-- The error that a failure is reported with, when it leaves the circuit in this state.
abbrev pub noted_error :
    ℕ → OAuthDependencyCircuitState → OAuthDependencyError → OAuthDependencyError
noted_error now_ms st error =
    if ltb now_ms st.opened_until_ms
    then unavailable_now open_circuit error.dependency_status
        (some (seconds_until st.opened_until_ms now_ms))
    else error

module _ {ℓ} {A : Type ℓ} where
  abbrev pub after_attempt : Attempt A → ℕ → (OAuthDependencyError → Ended A × ℕ) → Ended A × ℕ
  after_attempt (answered a) n rest = (came_back a, n)
  after_attempt (oauth_failed code message) n rest = (stopped (refused_with code message), n)
  after_attempt threw n rest = (stopped unexpected, n)
  after_attempt (dependency_failed e) n rest =
      let again = rest e in
      if is_abort_reason e.reason then (stopped (unavailable_with e), n) else again

  -- With `left` retries left; the result counts the attempts.
  abbrev pub retry_loop : ℕ → ℕ → DependencyCall A → Ended A × ℕ
  retry_loop zero n c = after_attempt (c.attempts n) n (λ e. (gave_up e, n))
  retry_loop (suc left) n c =
      let rest = retry_loop left (n + 1) c in
      after_attempt (c.attempts n) n (λ e.
        if is_retryable e.reason
        then (if c.delay_aborted n
            then (stopped (unavailable_with (unavailable_now request_aborted none none)), n)
            else rest)
        else (gave_up e, n))

  abbrev pub settle :
      OAuthDependencyPolicy
      → Option OAuthDependencyCircuitState
      → ℕ
      → Ended A
      → Outcome A × Option OAuthDependencyCircuitState
  settle policy o now_ms (came_back a) = (returned a, none)
  settle policy o now_ms (stopped outcome) = (outcome, o)
  settle policy o now_ms (gave_up e) =
      let st = after_failure policy now_ms o in
      (unavailable_with (noted_error now_ms st e), some st)

  -- A call that the open circuit keeps away, or that ended after some attempts.
  abbrev pub ended_of : OAuthDependencyPolicy → Option ℕ → DependencyCall A → Option (Ended A × ℕ)
  ended_of policy (some seconds) c = none
  ended_of policy none c = some (retry_loop policy.max_retries 1 c)

  abbrev pub by_circuit :
      OAuthDependencyPolicy
      → Option OAuthDependencyCircuitState
      → DependencyCall A
      → Option ℕ
      → Outcome A × Option OAuthDependencyCircuitState
  by_circuit policy o c (some seconds) =
      (unavailable_with (unavailable_now open_circuit none (some seconds)), o)
  by_circuit policy o c none = settle policy o c.finished_ms ((retry_loop policy.max_retries 1 c).0)

  unfoldable pub run_oauth_dependency_with_retry :
      OAuthDependencyPolicy
      → Option OAuthDependencyCircuitState
      → DependencyCall A
      → Outcome A × Option OAuthDependencyCircuitState
  run_oauth_dependency_with_retry policy o c =
      by_circuit policy o c (retry_after_seconds o c.started_ms)
