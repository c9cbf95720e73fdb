-- ===== src/Discovery/Runs.antt =====
-- The entries of the capability cache of src/server.ts after any run of its operations.
use b2_mcp.Base.{
  All, All-retain, All-set, Bool-cases, List, Option, Option-cases, String, [], false, get_or, inl,
  inr, kept, leb, lookup, none, refl, remove, some, str_eq, ℕ, ◌+◌, ◌<◌, ◌||◌, ◌∷◌, ◌≡◌,
}
use b2_mcp.Discovery.{
  Cache, Discovery, Environment, cached_answer, capability_cache_max_entries,
  capability_cache_ttl_ms, discovery_settles, fetch_capabilities, invalidate_capability_cache,
  is_empty, is_fresh, is_given, remember_capabilities, requires_capability_discovery,
  resolved_cache_key, sweep,
}
use b2_mcp.Discovery.Evict.{All-enforce_cache_max}
use b2_mcp.Discovery.Laws.{empty-IsCache, remember-IsCache}
use b2_mcp.Discovery.Origin.{
  Answered, Event, HasEventKey, IsExplained, Origin, announces, fetch-IsServed, fetches,
  invalidates, remove-IsExplained, run, settles, step, sweep-IsExplained, sweeps,
}

module _ (env : Environment) where
  later-origins :
      (e : Event) (es : List Event) (m : Cache (List String))
      → All (Origin env es) m
      → All (Origin env (e ∷ es)) m
  later-origins e es [] h = tt
  later-origins e es ((k, entry) ∷ m) (o, h) = (
    record { begun = o.begun; answered = inr o.answered; lasts = o.lasts },
    later-origins e es m h,
  )

  pub later-IsExplained :
      (e : Event) (es : List Event) {m : Cache (List String)}
      → IsExplained env es m
      → IsExplained env (e ∷ es) m
  later-IsExplained e es {m} x = record {
    is_cache = x.is_cache;
    origins = later-origins e es m x.origins;
  }

  remember-origins :
      (es : List Event) (k : String) (caps : List String) (now : ℕ) (m : Cache (List String))
      → Answered k now caps es
      → All (Origin env es) m
      → All (Origin env es) (remember_capabilities env k caps now m)
  unfolding remember_capabilities
  remember-origins es k caps now m answered h =
      elim (Bool-cases (leb (capability_cache_ttl_ms env) 0 || is_empty caps)) [
        | inl skipped ↦ rw skipped h
        | inr kept ↦ rw kept (
            All-enforce_cache_max _ _ (capability_cache_max_entries env) (
              All-set _ k _ (sweep now m)
                (record { begun = now; answered = answered; lasts = refl })
                (All-retain _ (is_fresh now) m h)))
      ]

  settle-IsExplained :
      (es : List Event) (k : String) (now : ℕ) (answer : Option (List String)) (s : Discovery)
      → str_eq k "" ≡ false
      → IsExplained env es s.capability_cache
      → IsExplained env
          (settles k now answer ∷ es)
          (discovery_settles env k now answer s).capability_cache
  unfolding discovery_settles
  settle-IsExplained es k now none s named x = later-IsExplained (settles k now none) es x
  settle-IsExplained es k now (some caps) s named x =
      let y = later-IsExplained (settles k now (some caps)) es x in
      record {
        is_cache = remember-IsCache env k caps now named y.is_cache;
        origins =
            remember-origins (settles k now (some caps) ∷ es) k caps now s.capability_cache
              (inl refl) y.origins;
      }

  announce-cases :
      (P : Cache (List String) → Type 0) (k : String) (now : ℕ) (s : Discovery)
      → P s.capability_cache
      → P (remove k s.capability_cache)
      → P (requires_capability_discovery env k now s).0.capability_cache
  unfolding requires_capability_discovery
  announce-cases P k now s same dropped = elim (Bool-cases env.register_all_tools) [
    | inl registered ↦ rw (registered, requires_capability_discovery) same
    | inr filtered ↦ elim (Option-cases (lookup k s.capability_cache)) [
      | inl missing ↦ rw (filtered, missing, requires_capability_discovery) same
      | inr (e, found) ↦ elim (Bool-cases (is_fresh now e)) [
        | inl fresh ↦ rw (filtered, found, fresh, requires_capability_discovery) same
        | inr stale ↦ rw (filtered, found, stale, requires_capability_discovery) dropped
      ]
    ]
  ]

  announce-IsExplained :
      (es : List Event) (k : String) (now : ℕ) (s : Discovery)
      → IsExplained env es s.capability_cache
      → IsExplained env es (requires_capability_discovery env k now s).0.capability_cache
  announce-IsExplained es k now s x =
      announce-cases (IsExplained env es) k now s x (remove-IsExplained env es k x)

  none-IsExplained : (es : List Event) → IsExplained env es []
  none-IsExplained es = record { is_cache = empty-IsCache env; origins = tt }

  invalidate-IsExplained :
      (es : List Event) (key : Option String) (s : Discovery)
      → IsExplained env es s.capability_cache
      → IsExplained env es (invalidate_capability_cache key s).capability_cache
  unfolding invalidate_capability_cache
  invalidate-IsExplained es key s x = elim (Bool-cases (is_given key)) [
    | inl given ↦ rw given (remove-IsExplained env es (get_or key "") x)
    | inr all_keys ↦ rw all_keys (none-IsExplained es)
  ]

  -- After any run in which no lookup ends for an empty key, the cache has one entry for each key, no
  -- more of them than the limit, and each entry is the answer to a lookup for its key, with its time
  -- counted from the lookup's start.
  pub run-IsExplained :
      (es : List Event) → All HasEventKey es → IsExplained env es (run env es).capability_cache
  unfolding run step
  run-IsExplained [] h = none-IsExplained []
  run-IsExplained (fetches key fingerprint now promise ∷ es) (h, hs) =
      later-IsExplained _ es
        (fetch-IsServed env es key fingerprint now promise (run env es)
          (run-IsExplained es hs)).cache
  run-IsExplained (settles k now answer ∷ es) (h, hs) =
      settle-IsExplained es k now answer (run env es) h (run-IsExplained es hs)
  run-IsExplained (announces k now ∷ es) (h, hs) =
      later-IsExplained _ es (announce-IsExplained es k now (run env es) (run-IsExplained es hs))
  run-IsExplained (sweeps now ∷ es) (h, hs) =
      later-IsExplained _ es (sweep-IsExplained env es now (run-IsExplained es hs))
  run-IsExplained (invalidates key ∷ es) (h, hs) =
      later-IsExplained _ es (invalidate-IsExplained es key (run env es) (run-IsExplained es hs))

  -- An answer from the cache, after any run in which no lookup ends for an empty key: a lookup for the
  -- same key was begun less than the cache's time ago, and ended with these capabilities.
  pub run-cached_answer :
      (es : List Event) (key : Option String) (fingerprint : String) (now promise : ℕ)
      (caps : List String)
      → All HasEventKey es
      → (fetch_capabilities env key fingerprint now promise (run env es)).1 ≡ cached_answer caps
      → (t : ℕ) × (Answered (resolved_cache_key key fingerprint) t caps es
          × (now < t + capability_cache_ttl_ms env))
  run-cached_answer es key fingerprint now promise caps h answered =
      (fetch-IsServed env es key fingerprint now promise (run env es) (run-IsExplained es h)).source
        caps answered
