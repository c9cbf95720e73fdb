-- ===== src/CircuitBreaker.antt =====
-- src/utils/circuit-breaker.ts: which errors the circuit breakers do not count as failures of B2.
-- The breakers themselves are the opossum package's; this is the `errorFilter` given to them.
pub mod Filter
mod Tests
use b2_mcp.Base.{
  Bool, Option, String, false, if◌then◌else◌, is_some, leb, ltb, none, not, or_else, some, str_eq,
  true, ℕ, ◌&&◌, ◌==◌, ◌||◌,
}
use b2_mcp.Value.{Store, Value, as_num, as_str, coalesce, is_object, is_text, prop}
use b2_mcp.CauseChain.{error_cause, find_in_cause_chain, matching}
use b2_mcp.CauseChain.Interruption.{
  is_abort_error, is_response_lost_transport_error, is_timeout_error,
}

abbrev pub operation_status_unknown_code : String
operation_status_unknown_code = "operation_status_unknown"

unfoldable pub is_abort_like_error : Store → Value → Bool
is_abort_like_error h err =
    is_text (prop h err "name") "AbortError" || is_text (prop h err "code") "ABORT_ERR"

unfoldable pub error_code : Store → Value → Option String
error_code h err =
    or_else (as_str (prop h err "code"))
      (as_str (prop h (prop h (prop h err "response") "data") "code"))

abbrev pub is_code : Option String → String → Bool
is_code none t = false
is_code (some s) t = str_eq s t

abbrev pub has_unknown_status : Store → Value → Bool
has_unknown_status h v = is_code (error_code h v) operation_status_unknown_code

unfoldable pub operation_status_unknown_node : Store → Value → Option Value
unfolding error_code find_in_cause_chain
operation_status_unknown_node h err = find_in_cause_chain h (matching (has_unknown_status h)) err

-- A timeout or a lost response, and not an abort whose message reads like one.
abbrev pub is_provider_interruption : Store → Value → Bool
is_provider_interruption h v =
    not (is_abort_error h v) && (is_timeout_error h v || is_response_lost_transport_error h v)

unfoldable pub is_caller_abort_ambiguity : Store → Value → Bool
unfolding find_in_cause_chain is_abort_error is_timeout_error is_response_lost_transport_error
is_caller_abort_ambiguity h node =
    let cause = error_cause h node in
    if is_some (find_in_cause_chain h (matching (is_provider_interruption h)) cause)
    then false
    else is_some (find_in_cause_chain h (matching (is_abort_error h)) cause)

-- `e.status ?? e.response?.status ?? e.$metadata?.httpStatusCode`
unfoldable pub breaker_status : Store → Value → Value
breaker_status h err = coalesce (prop h err "status") (
    coalesce (prop h (prop h err "response") "status")
      (prop h (prop h err "$metadata") "httpStatusCode"))

abbrev pub client_status : Option ℕ → Bool
client_status none = false
client_status (some s) = if s == 408 || s == 429 then false else leb 400 s && ltb s 500

abbrev known_client_error : Store → Value → Bool
known_client_error h err =
    if is_abort_like_error h err
    then true
    else is_object err && client_status (as_num (breaker_status h err))

abbrev by_unknown_node : Store → Value → Option Value → Bool
by_unknown_node h err none = known_client_error h err
by_unknown_node h err (some node) = is_caller_abort_ambiguity h node

unfoldable pub is_client_error : Store → Value → Bool
unfolding operation_status_unknown_node is_caller_abort_ambiguity is_abort_like_error breaker_status
is_client_error h err = by_unknown_node h err (operation_status_unknown_node h err)
