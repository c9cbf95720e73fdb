-- ===== src/Discovery.antt =====
-- The caches of src/server.ts: the capabilities that B2 gave for a credential, the lookups that are
-- under way, and the managers of B2 authorization. A Map is the list of its entries in insertion
-- order, a promise and a manager a number, the clock an argument, and so is what the environment
-- variables hold. A lookup is two steps: its start, and its end with what B2 answered. The manager's
-- constructor is taken not to throw, so that a lookup ends after it was put in flight.
mod Evict
mod Laws
mod Agreement
mod Origin
mod Runs
mod Tests
use Prim.Native.String
use b2_mcp.Base.{
  Bool, List, Option, String, [], false, get_or, if◌then◌else◌, is_some, leb, length, lookup, ltb,
  max, none, not, remove, retain, set, some, str_eq, true, ℕ, ◌*◌, ◌+◌, ◌||◌, ◌∷◌,
}

-- A cached value with the time at which it expires: `CapabilityCacheEntry`, `AuthManagerCacheEntry`.
pub record CacheEntry (V : Type 0) : Type 0 where
  pub value : V
  pub expires_at : ℕ

abbrev pub Cache : Type 0 → Type 0
Cache V = List (String × CacheEntry V)

abbrev pub default_capability_cache_ttl_ms : ℕ
default_capability_cache_ttl_ms = 5 * 60 * 1000

abbrev pub default_capability_cache_max_entries : ℕ
default_capability_cache_max_entries = 10000

abbrev pub default_auth_manager_cache_ttl_ms : ℕ
default_auth_manager_cache_ttl_ms = 23 * 60 * 60 * 1000

-- What `parseInt` makes of a variable that is set and not empty.
pub data ParsedInt : Type 0 where
  not_finite negative : ParsedInt
  natural : ℕ → ParsedInt

pub record Environment : Type 0 where
  pub register_all_tools : Bool
  pub cache_ttl_ms : Option ParsedInt
  pub cache_max_entries : Option ParsedInt

abbrev at_least : ℕ → ℕ → Option ParsedInt → ℕ
at_least low fallback none = max low fallback
at_least low fallback (some not_finite) = max low fallback
at_least low fallback (some negative) = low
at_least low fallback (some (natural n)) = max low n

abbrev pub capability_cache_ttl_ms : Environment → ℕ
capability_cache_ttl_ms env = at_least 0 default_capability_cache_ttl_ms env.cache_ttl_ms

abbrev pub capability_cache_max_entries : Environment → ℕ
capability_cache_max_entries env =
    at_least 1 default_capability_cache_max_entries env.cache_max_entries

abbrev pub is_fresh : {V : Type 0} → ℕ → CacheEntry V → Bool
is_fresh now e = ltb now e.expires_at

-- `sweepCapabilityCache`, `sweepAuthManagerCache`
abbrev pub sweep : {V : Type 0} → ℕ → Cache V → Cache V
sweep now cache = retain (is_fresh now) cache

-- The loop of evictions, which stops at a key that is empty.
unfoldable pub enforce_cache_max : {V : Type 0} → Cache V → ℕ → Cache V
enforce_cache_max [] max_entries = []
enforce_cache_max ((k, e) ∷ cache) max_entries =
    let rest = enforce_cache_max cache max_entries in
    if leb (length ((k, e) ∷ cache)) max_entries || str_eq k "" then (k, e) ∷ cache else rest

-- `cache.delete(key); cache.set(key, entry)`
abbrev pub touch : {V : Type 0} → String → CacheEntry V → Cache V → Cache V
touch k e cache = set k e (remove k cache)

pub record Discovery : Type 0 where
  pub capability_cache : Cache (List String)
  pub capability_inflight : List (String × ℕ)

-- An empty text is as falsy as no key.
abbrev is_given : Option String → Bool
is_given none = false
is_given (some k) = not (str_eq k "")

unfoldable pub invalidate_capability_cache : Option String → Discovery → Discovery
invalidate_capability_cache key s =
    if is_given key
    then record {
      capability_cache = remove (get_or key "") s.capability_cache;
      capability_inflight = remove (get_or key "") s.capability_inflight;
    }
    else record { capability_cache = []; capability_inflight = [] }

unfoldable pub invalidate_auth_manager_cache : Option String → Cache ℕ → Cache ℕ
invalidate_auth_manager_cache key cache = if is_given key then remove (get_or key "") cache else []

abbrev pub is_empty : List String → Bool
is_empty [] = true
is_empty (c ∷ cs) = false

-- `null`, a cached answer, the promise of a lookup under way, or that of a new lookup.
pub data Fetched : Type 0 where
  all_tools : Fetched
  cached_answer : List String → Fetched
  joins : ℕ → Fetched
  discovers : ℕ → Fetched

abbrev pub resolved_cache_key : Option String → String → String
resolved_cache_key key fingerprint = get_or key (String.◌++◌ "credential:" fingerprint)

-- The end of `fetchCapabilities` for a key that the cache does not answer for, up to the await: it
-- waits for the lookup under way, or begins one, whose promise is given.
unfoldable pub join_or_discover : String → ℕ → Discovery → Discovery × Fetched
join_or_discover k promise s = elim (lookup k s.capability_inflight) [
  | some p ↦ (s, joins p)
  | none ↦
      (record s { capability_inflight = set k promise s.capability_inflight }, discovers promise)
]

module _ (env : Environment) where
  unfoldable pub requires_capability_discovery : String → ℕ → Discovery → Discovery × Bool
  requires_capability_discovery key now s =
      if env.register_all_tools then (s, false) else elim (lookup key s.capability_cache) [
        | none ↦ (s, not (is_some (lookup key s.capability_inflight)))
        | some cached ↦ if is_fresh now cached then (s, false) else (
          record s { capability_cache = remove key s.capability_cache },
          not (is_some (lookup key s.capability_inflight)),
        )
      ]

  -- The manager, and the cache. `created` is the manager that the constructor would make.
  unfoldable pub get_cached_auth_manager : String → ℕ → ℕ → Cache ℕ → Cache ℕ × ℕ
  get_cached_auth_manager key now created cache =
      let swept = sweep now cache in
      let entry : CacheEntry ℕ = record {
        value = created;
        expires_at = now + default_auth_manager_cache_ttl_ms;
      } in
      let added : Cache ℕ × ℕ =
        (enforce_cache_max (set key entry swept) (capability_cache_max_entries env), created) in
      elim (lookup key swept) [
        | none ↦ added
        | some cached ↦
            if is_fresh now cached then (touch key cached swept, cached.value) else added
      ]

  unfoldable pub remember_capabilities :
      String → List String → ℕ → Cache (List String) → Cache (List String)
  remember_capabilities key capabilities now cache =
      let ttl = capability_cache_ttl_ms env in
      if leb ttl 0 || is_empty capabilities
      then cache
      else enforce_cache_max
          (set key (record { value = capabilities; expires_at = now + ttl }) (sweep now cache))
          (capability_cache_max_entries env)

  -- `fetchCapabilities` up to its first await.
  unfoldable pub fetch_capabilities :
      Option String → String → ℕ → ℕ → Discovery → Discovery × Fetched
  fetch_capabilities key fingerprint now promise s =
      let k = resolved_cache_key key fingerprint in
      let swept = sweep now s.capability_cache in
      let looked_up = join_or_discover k promise (record s { capability_cache = swept }) in
      if env.register_all_tools then (s, all_tools) else elim (lookup k swept) [
        | none ↦ looked_up
        | some e ↦
            if is_fresh now e
            then (record s { capability_cache = touch k e swept }, cached_answer e.value)
            else looked_up
      ]

  -- The end of a lookup begun at `now`: with capabilities, or with an error.
  unfoldable pub discovery_settles : String → ℕ → Option (List String) → Discovery → Discovery
  discovery_settles k now none s = record s { capability_inflight = remove k s.capability_inflight }
  discovery_settles k now (some capabilities) s = record {
    capability_cache = remember_capabilities k capabilities now s.capability_cache;
    capability_inflight = remove k s.capability_inflight;
  }
