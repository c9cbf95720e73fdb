-- ===== src/Discovery/Tests.antt =====
-- Runs of the caches of src/server.ts, and the theorems at concrete ones.
use b2_mcp.Base.{All, List, String, [], arith, false, none, refl, some, ℕ, ◌+◌, ◌<◌, ◌∷◌, ◌≡◌}
use b2_mcp.Discovery.{
  Cache, CacheEntry, Discovery, Environment, cached_answer, capability_cache_ttl_ms,
  discovery_settles, enforce_cache_max, fetch_capabilities, join_or_discover, natural,
  remember_capabilities, requires_capability_discovery, resolved_cache_key,
}
use b2_mcp.Discovery.Laws.{IsCache}
use b2_mcp.Discovery.Agreement.{begins_lookup, requires-begins_lookup}
use b2_mcp.Discovery.Origin.{Answered, Event, HasEventKey, IsExplained, fetches, run, settles, step}
use b2_mcp.Discovery.Runs.{run-IsExplained, run-cached_answer}

-- Room for two entries, which last for 100 ms.
abbrev small : Environment
small = record {
  register_all_tools = false;
  cache_ttl_ms = some (natural 100);
  cache_max_entries = some (natural 2);
}

abbrev entry : List String → ℕ → CacheEntry (List String)
entry caps until = record { value = caps; expires_at = until }

abbrev read_only : List String
read_only = "readFiles" ∷ []

abbrev one_cached : Discovery
one_cached = record { capability_cache = ("a", entry read_only 50) ∷ []; capability_inflight = [] }

one_cached-IsCache : IsCache small one_cached.capability_cache
one_cached-IsCache = record { unique = (refl, tt); named = (refl, tt); bounded = omega arith }

-- The third entry pushes out the first.
evicts_oldest :
    remember_capabilities small "c" read_only 20
      (("a", entry read_only 50) ∷ ("b", entry read_only 60) ∷ [])
    ≡ ("b", entry read_only 60) ∷ ("c", entry read_only 120) ∷ []
unfolding remember_capabilities enforce_cache_max
evicts_oldest = refl

requires-begins_lookup_example :
    begins_lookup (fetch_capabilities small (some "a") "" 60 7 one_cached).1
    ≡ (requires_capability_discovery small "a" 60 one_cached).1
requires-begins_lookup_example = requires-begins_lookup small "a" "" 60 7 one_cached (refl, tt)

abbrev one_manager : Cache ℕ
one_manager = ("a", record { value = 1; expires_at = 50 }) ∷ []

-- A lookup for the key is begun at 10 and ends; another key's ends later.
abbrev history : List Event
history = settles "b" 30 none ∷ settles "a" 10 (some read_only) ∷ fetches (some "a") "" 10 1 ∷ []

history-keys : All HasEventKey history
history-keys = (refl, (refl, (tt, tt)))

run-IsExplained_example : IsExplained small history (run small history).capability_cache
run-IsExplained_example = run-IsExplained small history history-keys

served :
    (fetch_capabilities small (some "a") "" 90 2 (run small history)).1 ≡ cached_answer read_only
unfolding run step fetch_capabilities join_or_discover discovery_settles remember_capabilities
    enforce_cache_max
served = refl

run-cached_answer_example :
    (t : ℕ) × (Answered (resolved_cache_key (some "a") "") t read_only history
      × (90 < t + capability_cache_ttl_ms small))
run-cached_answer_example =
    run-cached_answer small history (some "a") "" 90 2 read_only history-keys served
