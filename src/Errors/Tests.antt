-- ===== src/Errors/Tests.antt =====
-- Errors and what they are reported as, and the theorems at these inputs.
use b2_mcp.Base.{String, [], none, refl, ◌∷◌, ◌≡◌}
use b2_mcp.Value.{Store, Value, num, ref, str}
use b2_mcp.CauseChain.{find_in_cause_chain}
use b2_mcp.CauseChain.Interruption.{is_abort_error, is_timeout_error}
use b2_mcp.Errors.{coded_error_from_value, interruption, object_error, parse_b2_error, simple}
use b2_mcp.Errors.Coded.{HasNoOwnStatus, ReportsCauses, parse_b2_error-ReportsCauses}

-- 0: a wrapper of an abort that a timeout caused; 3: a reset that a throttled request caused;
-- 5: an error whose status is a text.
abbrev store : Store
store =
    (("message", str "fetch failed") ∷ ("cause", ref 1) ∷ [])
    ∷ (("name", str "AbortError") ∷ ("cause", ref 2) ∷ [])
    ∷ (("name", str "TimeoutError") ∷ [])
    ∷ (("message", str "reset") ∷ ("cause", ref 4) ∷ [])
    ∷ (("status", num 429) ∷ ("code", str "too_many_requests") ∷ ("message", str "slow down") ∷ [])
    ∷ (("status", str "404") ∷ ("code", str "not_found") ∷ ("message", str "no such file") ∷ [])
    ∷ []

abbrev render : Store → Value → String
render h v = "{}"

abbrev to_text : Value → String
to_text v = "[object Object]"

parsed : Unit {0}
unfolding parse_b2_error object_error find_in_cause_chain coded_error_from_value interruption
    is_timeout_error is_abort_error
parsed = tt

reported :
    (parse_b2_error render to_text store (ref 0)
      ≡ simple (num 504) "request_timeout" "fetch failed")
    × (parse_b2_error render to_text store (ref 3)
        ≡ simple (num 429) "too_many_requests" "slow down")
    × (parse_b2_error render to_text store (ref 5) ≡ simple (str "404") "not_found" "no such file")
unfolding parsed
reported = (refl, refl, refl)

uncoded : find_in_cause_chain store (coded_error_from_value render to_text store) (ref 0) ≡ none
unfolding parsed
uncoded = refl

no_own_status : HasNoOwnStatus render to_text store (ref 0)
unfolding parsed
no_own_status = (refl, refl, refl)

parse_b2_error-ReportsCauses_example :
    ReportsCauses render to_text store (ref 0) (parse_b2_error render to_text store (ref 0))
parse_b2_error-ReportsCauses_example =
    parse_b2_error-ReportsCauses render to_text store (ref 0) refl no_own_status
