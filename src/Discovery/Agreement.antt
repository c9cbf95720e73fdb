-- ===== src/Discovery/Agreement.antt =====
-- `requiresCapabilityDiscovery` and `fetchCapabilities` of src/server.ts agree, and what is remembered
-- is served.
use b2_mcp.Base.{
  Bool, Bool-cases, HasUniqueKeys, List, Option, Option-cases, String, [], arith, false, inl, inr,
  is_some, leb, length, length-retain, lookup, lookup-retain, lookup-retain-none, lookup-set, ltb,
  none, not, refl, set, some, str_eq, str_eq_refl, true, ℕ, ◌+◌, ◌<◌, ◌||◌, ◌∙◌, ◌∷◌, ◌≡◌, ◌≤◌,
}
use b2_mcp.Discovery.{
  Cache, CacheEntry, Discovery, Environment, Fetched, ParsedInt, at_least, cached_answer,
  capability_cache_max_entries, capability_cache_ttl_ms, default_capability_cache_max_entries,
  discovers, discovery_settles, enforce_cache_max, fetch_capabilities, is_empty, is_fresh,
  join_or_discover, natural, negative, not_finite, remember_capabilities,
  requires_capability_discovery, sweep,
}
use b2_mcp.Discovery.Laws.{IsCache, remember-IsCache}
use b2_mcp.Discovery.Evict.{enforce_cache_max-small, enforce_evicts, enforce_kept}

abbrev pub begins_lookup : Fetched → Bool
begins_lookup (discovers p) = true
begins_lookup _ = false

lookup-sweep_fresh :
    {V : Type 0} (k : String) (now : ℕ) (m : Cache V) {e : CacheEntry V}
    → HasUniqueKeys m
    → lookup k m ≡ some e
    → is_fresh now e ≡ true
    → lookup k (sweep now m) ≡ some e
lookup-sweep_fresh k now m u found fresh =
    lookup-retain (is_fresh now) k m u ∙ (rw (found, fresh) refl)

lookup-sweep_stale :
    {V : Type 0} (k : String) (now : ℕ) (m : Cache V) {e : CacheEntry V}
    → HasUniqueKeys m
    → lookup k m ≡ some e
    → is_fresh now e ≡ false
    → lookup k (sweep now m) ≡ none
lookup-sweep_stale k now m u found stale =
    lookup-retain (is_fresh now) k m u ∙ (rw (found, stale) refl)

fetch_missing :
    (env : Environment) (k fingerprint : String) (now promise : ℕ) (s : Discovery)
    → env.register_all_tools ≡ false
    → lookup k (sweep now s.capability_cache) ≡ none
    → begins_lookup (fetch_capabilities env (some k) fingerprint now promise s).1
      ≡ not (is_some (lookup k s.capability_inflight))
unfolding fetch_capabilities join_or_discover
fetch_missing env k fingerprint now promise s filtered missing =
    elim (Option-cases (lookup k s.capability_inflight)) [
      | inl idle ↦ rw (filtered, missing, idle, fetch_capabilities, join_or_discover) refl
      | inr (p, busy) ↦ rw (filtered, missing, busy, fetch_capabilities, join_or_discover) refl
    ]

fetch_cached :
    (env : Environment) (k fingerprint : String) (now promise : ℕ) (s : Discovery)
    {e : CacheEntry (List String)}
    → env.register_all_tools ≡ false
    → lookup k (sweep now s.capability_cache) ≡ some e
    → is_fresh now e ≡ true
    → (fetch_capabilities env (some k) fingerprint now promise s).1 ≡ cached_answer e.value
unfolding fetch_capabilities
fetch_cached env k fingerprint now promise s filtered found fresh =
    rw (filtered, found, fresh, fetch_capabilities) refl

-- A lookup is begun just where it is announced: when neither a fresh entry nor a lookup under way
-- answers for the key.
pub requires-begins_lookup :
    (env : Environment) (k fingerprint : String) (now promise : ℕ) (s : Discovery)
    → HasUniqueKeys s.capability_cache
    → begins_lookup (fetch_capabilities env (some k) fingerprint now promise s).1
      ≡ (requires_capability_discovery env k now s).1
unfolding fetch_capabilities requires_capability_discovery
requires-begins_lookup env k fingerprint now promise s u =
    elim (Bool-cases env.register_all_tools) [
      | inl registered ↦ rw (registered, fetch_capabilities, requires_capability_discovery) refl
      | inr filtered ↦ elim (Option-cases (lookup k s.capability_cache)) [
        | inl missing ↦
            fetch_missing env k fingerprint now promise s filtered
              (lookup-retain-none (is_fresh now) k s.capability_cache missing)
            ∙ (rw (filtered, missing, requires_capability_discovery) refl)
        | inr (e, found) ↦ elim (Bool-cases (is_fresh now e)) [
          | inl fresh ↦
              rw
                (
                  filtered,
                  lookup-sweep_fresh k now s.capability_cache u found fresh,
                  found,
                  fresh,
                  fetch_capabilities,
                  requires_capability_discovery,
                )
                refl
          | inr stale ↦
              fetch_missing env k fingerprint now promise s filtered
                (lookup-sweep_stale k now s.capability_cache u found stale)
              ∙ (rw (filtered, found, stale, requires_capability_discovery) refl)
        ]
      ]
    ]

at_least-bound : (low fallback : ℕ) (o : Option ParsedInt) → low ≤ at_least low fallback o
at_least-bound low fallback none = omega arith
at_least-bound low fallback (some not_finite) = omega arith
at_least-bound low fallback (some negative) = omega arith
at_least-bound low fallback (some (natural n)) = omega arith

is_before : (a b : ℕ) → a < b → ltb a b ≡ true
is_before a b h = ground arith

positive : (n : ℕ) → 1 ≤ n → leb n 0 ≡ false
positive n h = ground arith

lookup-set_same :
    {V : Type 0} (k : String) (v : V) (m : List (String × V)) → lookup k (set k v m) ≡ some v
lookup-set_same k v m = lookup-set k k v m ∙ (rw (str_eq_refl k) refl)

-- An entry that is put in a cache within its limit stays there.
lookup-enforce_cache_max :
    {V : Type 0} (k : String) (e : CacheEntry V) (m : Cache V) (n : ℕ)
    → 1 ≤ n
    → length m ≤ n
    → lookup k (enforce_cache_max (set k e m) n) ≡ some e
lookup-enforce_cache_max k e [] n some_room h =
    rw (enforce_cache_max-small (set k e []) n some_room) (lookup-set_same k e [])
lookup-enforce_cache_max k e ((j, w) ∷ m) n some_room h = elim (Bool-cases (str_eq j k)) [
  | inl same ↦
      rw (enforce_cache_max-small (set k e ((j, w) ∷ m)) n (ground (arith, same, h)))
        (lookup-set_same k e ((j, w) ∷ m))
  | inr other ↦ elim (Bool-cases (leb (length ((j, w) ∷ set k e m)) n || str_eq j "")) [
    | inl stop ↦ rw (other, enforce_kept j w (set k e m) n stop, other) (lookup-set_same k e m)
    | inr go ↦
        rw (other, enforce_evicts j w (set k e m) n go)
          (lookup-enforce_cache_max k e m n some_room (omega (arith, h)))
  ]
]

lookup-remember :
    (env : Environment) (k : String) (caps : List String) (now : ℕ) (m : Cache (List String))
    → length m ≤ capability_cache_max_entries env
    → is_empty caps ≡ false
    → 1 ≤ capability_cache_ttl_ms env
    → lookup k (remember_capabilities env k caps now m)
      ≡ some (record { value = caps; expires_at = now + capability_cache_ttl_ms env })
unfolding remember_capabilities
lookup-remember env k caps now m bounded full on =
    rw (full, positive (capability_cache_ttl_ms env) on)
      (lookup-enforce_cache_max k _ (sweep now m) (capability_cache_max_entries env)
        (at_least-bound 1 default_capability_cache_max_entries env.cache_max_entries)
        (omega (arith, length-retain (is_fresh now) m, bounded)))

-- What a lookup begun at `now` ends with is served until its time is over, where caching is on and
-- something was found: the entry itself is not evicted.
pub remember-fetch :
    (env : Environment) (k fingerprint : String) (caps : List String) (now later promise : ℕ)
    (s : Discovery)
    → env.register_all_tools ≡ false
    → IsCache env s.capability_cache
    → str_eq k "" ≡ false
    → is_empty caps ≡ false
    → now ≤ later
    → later < now + capability_cache_ttl_ms env
    → (fetch_capabilities env
        (some k)
        fingerprint
        later
        promise
        (discovery_settles env k now (some caps) s)).1
      ≡ cached_answer caps
unfolding discovery_settles
remember-fetch env k fingerprint caps now later promise s filtered c named full after soon =
    let m = remember_capabilities env k caps now s.capability_cache in
    let found = lookup-remember env k caps now s.capability_cache c.bounded full (omega arith) in
    let valid = remember-IsCache env k caps now named c in
    let fresh = is_before later (now + capability_cache_ttl_ms env) soon in
    fetch_cached env k fingerprint later promise (discovery_settles env k now (some caps) s)
      filtered (lookup-sweep_fresh k later m valid.unique found fresh) fresh
