-- ===== src/CauseChain/Tests.antt =====
-- The search for a cause at concrete stores, one of them cyclic.
use b2_mcp.Base.{Option, String, [], none, refl, some, ℕ, ◌↔◌, ◌∷◌, ◌≡◌}
use b2_mcp.Value.{Store, Value, is_text, prop, ref, str}
use b2_mcp.CauseChain.{find_in_cause_chain, find_inner, matching}
use b2_mcp.CauseChain.Search.{FirstMatch, find_in_cause_chain_iff}
use b2_mcp.CauseChain.Total.{find_in_cause_chain_total}

-- 0 is caused by 1, 1 by 2, and 2 by 0.
abbrev cycle : Store
cycle =
    (("name", str "Error") ∷ ("cause", ref 1) ∷ [])
    ∷ (("name", str "TypeError") ∷ ("cause", ref 2) ∷ [])
    ∷ (("name", str "TimeoutError") ∷ ("cause", ref 0) ∷ [])
    ∷ []

abbrev named : String → Value → Option Value
named name = matching (λ v. is_text (prop cycle v "name") name)

found : find_in_cause_chain cycle (named "TimeoutError") (ref 0) ≡ some (ref 2)
unfolding find_in_cause_chain
found = refl

missed : find_in_cause_chain cycle (named "AbortError") (ref 1) ≡ none
unfolding find_in_cause_chain
missed = refl

find_in_cause_chain_iff_example :
    (find_in_cause_chain cycle (named "TimeoutError") (ref 0) ≡ some (ref 2))
    ↔ ((n : ℕ) × FirstMatch cycle (named "TimeoutError") (ref 2) n (ref 0))
find_in_cause_chain_iff_example =
    find_in_cause_chain_iff cycle (named "TimeoutError") (ref 0) (ref 2)

find_in_cause_chain_total_example :
    find_inner cycle (named "AbortError") 4 (ref 1) []
    ≡ some (find_in_cause_chain cycle (named "AbortError") (ref 1))
find_in_cause_chain_total_example = find_in_cause_chain_total cycle (named "AbortError") (ref 1)
