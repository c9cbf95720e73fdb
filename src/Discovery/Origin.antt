-- ===== src/Discovery/Origin.antt =====
-- Any run of the capability cache of src/server.ts: requests, ends of lookups, announcements, sweeps
-- and invalidations, in any order.
use b2_mcp.Base.{
  All, All-lookup, All-remove, All-retain, All-set, Bool-cases, List, Option, Option-cases, String,
  [], arith, false, inl, inr, lookup, remove, set, some, str_eq, subst, true, ℕ, ◌+◌, ◌<◌, ◌∷◌, ◌≡◌,
  ◌⊎◌,
}
use b2_mcp.Discovery.{
  Cache, CacheEntry, Discovery, Environment, Fetched, all_tools, cached_answer,
  capability_cache_ttl_ms, discovers, discovery_settles, fetch_capabilities,
  invalidate_capability_cache, is_fresh, join_or_discover, joins, requires_capability_discovery,
  resolved_cache_key, sweep, touch,
}
use b2_mcp.Discovery.Laws.{IsCache, remove-IsCache, sweep-IsCache, touch-IsCache}

-- What happens to the cache, the first last. A lookup ends with the time at which it was begun.
pub data Event : Type 0 where
  fetches : Option String → String → ℕ → ℕ → Event
  settles : String → ℕ → Option (List String) → Event
  announces : String → ℕ → Event
  sweeps : ℕ → Event
  invalidates : Option String → Event

-- A lookup for this key was begun then and ended with these capabilities.
abbrev pub Answered : String → ℕ → List String → List Event → Type 0
Answered k t caps [] = ⊥
Answered k t caps (e ∷ es) = (e ≡ settles k t (some caps)) ⊎ Answered k t caps es

-- The ends of lookups are for keys that are not empty.
abbrev pub HasEventKey : Event → Type 0
HasEventKey (settles k t answer) = str_eq k "" ≡ false
HasEventKey _ = Unit

module _ (env : Environment) where
  unfoldable pub step : Event → Discovery → Discovery
  step (fetches key fingerprint now promise) s =
      (fetch_capabilities env key fingerprint now promise s).0
  step (settles key now answer) s = discovery_settles env key now answer s
  step (announces key now) s = (requires_capability_discovery env key now s).0
  step (sweeps now) s = record s { capability_cache = sweep now s.capability_cache }
  step (invalidates key) s = invalidate_capability_cache key s

  unfoldable pub run : List Event → Discovery
  run [] = record { capability_cache = []; capability_inflight = [] }
  run (e ∷ es) = step e (run es)

  -- An entry is what a lookup for its key ended with, for the time from the lookup's start.
  pub record Origin (events : List Event) (entry : String × CacheEntry (List String)) : Type 0 where
    pub begun : ℕ
    pub answered : Answered entry.0 begun entry.1.value events
    pub lasts : entry.1.expires_at ≡ begun + capability_cache_ttl_ms env

  -- What holds of the cache after some events.
  pub record IsExplained (events : List Event) (m : Cache (List String)) : Type 0 where
    pub is_cache : IsCache env m
    pub origins : All (Origin events) m

  module _ (P : Discovery × Fetched → Type 0) where
    -- The four ways in which a request ends or waits.
    pub fetch-cases :
        (key : Option String) (fingerprint : String) (now promise : ℕ) (s : Discovery)
        → P (s, all_tools)
        → ((e : CacheEntry (List String))
            → lookup (resolved_cache_key key fingerprint) (sweep now s.capability_cache) ≡ some e
            → is_fresh now e ≡ true
            → P (
              record s {
                capability_cache =
                    touch (resolved_cache_key key fingerprint) e (sweep now s.capability_cache);
              },
              cached_answer e.value,
            ))
        → P (
            join_or_discover
              (resolved_cache_key key fingerprint)
              promise
              (record s { capability_cache = sweep now s.capability_cache }))
        → P (fetch_capabilities env key fingerprint now promise s)
    unfolding fetch_capabilities
    fetch-cases key fingerprint now promise s same touched swept =
        let k = resolved_cache_key key fingerprint in
        elim (Bool-cases env.register_all_tools) [
          | inl registered ↦ rw (registered, fetch_capabilities) same
          | inr filtered ↦ elim (Option-cases (lookup k (sweep now s.capability_cache))) [
            | inl missing ↦ rw (filtered, missing, fetch_capabilities) swept
            | inr (e, found) ↦ elim (Bool-cases (is_fresh now e)) [
              | inl fresh ↦ rw (filtered, found, fresh, fetch_capabilities) (touched e found fresh)
              | inr stale ↦ rw (filtered, found, stale, fetch_capabilities) swept
            ]
          ]
        ]

answer-injective : {a b : List String} → cached_answer a ≡ cached_answer b → a ≡ b
answer-injective h = cc

-- Neither way out of `join_or_discover` touches the cache, or answers from it.
join_or_discover-cases :
    (P : Discovery × Fetched → Type 0) (k : String) (promise : ℕ) (s : Discovery)
    → ((inflight : List (String × ℕ)) (p : ℕ)
        → P (record s { capability_inflight = inflight }, joins p)
          × P (record s { capability_inflight = inflight }, discovers p))
    → P (join_or_discover k promise s)
unfolding join_or_discover
join_or_discover-cases P k promise s h = elim (Option-cases (lookup k s.capability_inflight)) [
  | inl idle ↦ rw (idle, join_or_discover) (h (set k promise s.capability_inflight) promise).1
  | inr (p, busy) ↦ rw (busy, join_or_discover) (h s.capability_inflight p).0
]

module _ (env : Environment) (events : List Event) where
  pub sweep-IsExplained :
      (now : ℕ) {m : Cache (List String)}
      → IsExplained env events m
      → IsExplained env events (sweep now m)
  sweep-IsExplained now {m} x = record {
    is_cache = sweep-IsCache env now x.is_cache;
    origins = All-retain _ (is_fresh now) m x.origins;
  }

  pub remove-IsExplained :
      (k : String) {m : Cache (List String)}
      → IsExplained env events m
      → IsExplained env events (remove k m)
  remove-IsExplained k {m} x = record {
    is_cache = remove-IsCache env k x.is_cache;
    origins = All-remove _ k m x.origins;
  }

  touch-IsExplained :
      (k : String) (e : CacheEntry (List String)) {m : Cache (List String)}
      → lookup k m ≡ some e
      → IsExplained env events m
      → IsExplained env events (touch k e m)
  touch-IsExplained k e {m} found x = record {
    is_cache = touch-IsCache env k e found x.is_cache;
    origins =
        All-set _ k e (remove k m) (All-lookup _ k m found x.origins) (All-remove _ k m x.origins);
  }

  -- What a request leaves of the cache is explained, and so is its answer.
  pub record IsServed (key : String) (now : ℕ) (r : Discovery × Fetched) : Type 0 where
    pub cache : IsExplained env events r.0.capability_cache
    pub source :
        (caps : List String)
        → r.1 ≡ cached_answer caps
        → (t : ℕ) × (Answered key t caps events × (now < t + capability_cache_ttl_ms env))

  expiry :
      (now : ℕ) (e : CacheEntry (List String)) (t : ℕ)
      → is_fresh now e ≡ true
      → e.expires_at ≡ t + capability_cache_ttl_ms env
      → now < t + capability_cache_ttl_ms env
  expiry now e t fresh lasts = ground (arith, fresh, lasts)

  pub fetch-IsServed :
      (key : Option String) (fingerprint : String) (now promise : ℕ) (s : Discovery)
      → IsExplained env events s.capability_cache
      → IsServed
          (resolved_cache_key key fingerprint)
          now
          (fetch_capabilities env key fingerprint now promise s)
  fetch-IsServed key fingerprint now promise s x =
      let k = resolved_cache_key key fingerprint in
      let swept = sweep-IsExplained now x in
      fetch-cases env (IsServed k now) key fingerprint now promise s
        (record { cache = x; source = λ caps h. cc })
        (λ e found fresh.
          let o = All-lookup _ k (sweep now s.capability_cache) found swept.origins in
          record {
            cache = touch-IsExplained k e found swept;
            source = λ caps h. (
              o.begun,
              (
                subst (λ c. Answered k o.begun c events) (answer-injective h) o.answered,
                expiry now e o.begun fresh o.lasts,
              ),
            );
          })
        (join_or_discover-cases (IsServed k now) k promise _ (λ inflight p. (
          record { cache = swept; source = λ caps h. cc },
          record { cache = swept; source = λ caps h. cc },
        )))
