-- ===== src/Discovery/Laws.antt =====
-- The invariant of the capability cache of src/server.ts, and what is served after it is remembered.
use b2_mcp.Base.{
  All-lookup, All-remove, All-retain, All-set, Bool-cases, HasUniqueKeys, List, Option-cases,
  String, [], arith, false, inl, inr, kept, leb, length, length-remove, length-remove-some,
  length-retain, length-set, lookup, remove, remove-HasUniqueKeys, retain-HasUniqueKeys, set,
  set-HasUniqueKeys, some, str_eq, ℕ, ◌||◌, ◌≡◌, ◌≤◌,
}
use b2_mcp.Discovery.{
  Cache, CacheEntry, Environment, capability_cache_max_entries, capability_cache_ttl_ms,
  enforce_cache_max, get_cached_auth_manager, is_empty, is_fresh, remember_capabilities, sweep,
  touch,
}
use b2_mcp.Discovery.Evict.{
  All-enforce_cache_max, HasKeys, enforce_cache_max-HasUniqueKeys, enforce_cache_max-bound,
}

-- One entry for each key, no empty key, and no more entries than the limit.
pub record IsCache {V : Type 0} (env : Environment) (m : Cache V) : Type 0 where
  pub unique : HasUniqueKeys m
  pub named : HasKeys m
  pub bounded : length m ≤ capability_cache_max_entries env

module _ {V : Type 0} (env : Environment) where
  pub empty-IsCache : IsCache {V = V} env []
  empty-IsCache = record { unique = tt; named = tt; bounded = omega arith }

  pub sweep-IsCache : (now : ℕ) {m : Cache V} → IsCache env m → IsCache env (sweep now m)
  sweep-IsCache now {m} c = record {
    unique = retain-HasUniqueKeys (is_fresh now) m c.unique;
    named = All-retain _ (is_fresh now) m c.named;
    bounded = omega (arith, length-retain (is_fresh now) m, c.bounded);
  }

  pub remove-IsCache : (k : String) {m : Cache V} → IsCache env m → IsCache env (remove k m)
  remove-IsCache k {m} c = record {
    unique = remove-HasUniqueKeys k m c.unique;
    named = All-remove _ k m c.named;
    bounded = omega (arith, length-remove k m, c.bounded);
  }

  pub touch-IsCache :
      (k : String) (e : CacheEntry V) {m : Cache V}
      → lookup k m ≡ some e
      → IsCache env m
      → IsCache env (touch k e m)
  touch-IsCache k e {m} h c = record {
    unique = set-HasUniqueKeys k e (remove k m) (remove-HasUniqueKeys k m c.unique);
    named = All-set _ k e (remove k m) (All-lookup _ k m h c.named) (All-remove _ k m c.named);
    bounded = omega (arith, length-remove-some k m h, length-set k e (remove k m), c.bounded);
  }

  pub enforce-IsCache :
      (k : String) (e : CacheEntry V) (m : Cache V)
      → str_eq k "" ≡ false
      → IsCache env m
      → IsCache env (enforce_cache_max (set k e m) (capability_cache_max_entries env))
  enforce-IsCache k e m named c =
      let limit = capability_cache_max_entries env in
      let keys = All-set _ k e m named c.named in
      record {
        unique =
            enforce_cache_max-HasUniqueKeys (set k e m) limit (set-HasUniqueKeys k e m c.unique);
        named = All-enforce_cache_max _ (set k e m) limit keys;
        bounded = enforce_cache_max-bound (set k e m) limit keys;
      }

pub remember-IsCache :
    (env : Environment) (k : String) (caps : List String) (now : ℕ) {m : Cache (List String)}
    → str_eq k "" ≡ false
    → IsCache env m
    → IsCache env (remember_capabilities env k caps now m)
unfolding remember_capabilities
remember-IsCache env k caps now {m} named c =
    elim (Bool-cases (leb (capability_cache_ttl_ms env) 0 || is_empty caps)) [
      | inl skipped ↦ rw skipped c
      | inr kept ↦ rw kept (enforce-IsCache env k _ (sweep now m) named (sweep-IsCache env now c))
    ]

-- The cache of authorization managers keeps one manager for each key, and no more than the limit.
pub get_cached_auth_manager-IsCache :
    (env : Environment) (k : String) (now created : ℕ) {m : Cache ℕ}
    → str_eq k "" ≡ false
    → IsCache env m
    → IsCache env (get_cached_auth_manager env k now created m).0
unfolding get_cached_auth_manager
get_cached_auth_manager-IsCache env k now created {m} named c =
    let swept = sweep-IsCache env now c in
    elim (Option-cases (lookup k (sweep now m))) [
      | inl missing ↦
          rw (missing, get_cached_auth_manager) (enforce-IsCache env k _ (sweep now m) named swept)
      | inr (e, found) ↦ elim (Bool-cases (is_fresh now e)) [
        | inl fresh ↦ rw (found, fresh, get_cached_auth_manager) (touch-IsCache env k e found swept)
        | inr stale ↦
            rw (found, stale, get_cached_auth_manager)
              (enforce-IsCache env k _ (sweep now m) named swept)
      ]
    ]
