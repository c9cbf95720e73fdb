-- ===== src/CircuitBreaker/Tests.antt =====
-- The error filter at concrete errors.
use b2_mcp.Base.{[], false, refl, true, ◌↔◌, ◌∷◌, ◌≡◌}
use b2_mcp.Value.{Store, num, ref, str}
use b2_mcp.CircuitBreaker.{is_client_error}
use b2_mcp.CircuitBreaker.Filter.{IsFiltered, is_client_error_iff}

-- 0: an aborted write of unknown outcome; 2: the same, with a reset socket behind the abort;
-- 5: a bad request; 6: a rate limit.
abbrev store : Store
store =
    (("code", str "operation_status_unknown") ∷ ("cause", ref 1) ∷ [])
    ∷ (("name", str "AbortError") ∷ ("message", str "premature close") ∷ [])
    ∷ (("code", str "operation_status_unknown") ∷ ("cause", ref 3) ∷ [])
    ∷ (("name", str "AbortError") ∷ ("cause", ref 4) ∷ [])
    ∷ (("message", str "read ECONNRESET") ∷ [])
    ∷ (("status", num 400) ∷ [])
    ∷ (("$metadata", ref 7) ∷ [])
    ∷ (("httpStatusCode", num 429) ∷ [])
    ∷ []

filtered :
    (is_client_error store (ref 0) ≡ true)
    × (is_client_error store (ref 2) ≡ false)
    × (is_client_error store (ref 5) ≡ true)
    × (is_client_error store (ref 6) ≡ false)
unfolding is_client_error
filtered = (refl, refl, refl, refl)

is_client_error_iff_example : (is_client_error store (ref 2) ≡ true) ↔ IsFiltered store (ref 2)
is_client_error_iff_example = is_client_error_iff store (ref 2)
