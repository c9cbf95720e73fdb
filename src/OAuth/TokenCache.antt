-- ===== src/OAuth/TokenCache.antt =====
-- The cache of accepted tokens in src/oauth-resource-server.ts: cachedAuthInfo and rememberAuthInfo.
-- The entries are in a map's insertion order; times are in milliseconds.
use b2_mcp.Base.{
  List, Option, String, [], if◌then◌else◌, leb, length, lookup, min, none, remove, set, some, ℕ,
  ◌*◌, ◌+◌, ◌-◌, ◌==◌, ◌||◌, ◌∷◌,
}
use b2_mcp.OAuth.Claims.{AuthInfo, OAuthResourceServerConfig}

pub record IntrospectionCacheEntry : Type 0 where
  pub auth_info : AuthInfo
  pub expires_at_ms : ℕ
  pub last_access_ms : ℕ

abbrev pub Cache : Type 0
Cache = List (String × IntrospectionCacheEntry)

abbrev pub touch : ℕ → IntrospectionCacheEntry → IntrospectionCacheEntry
touch now_ms e = record e { last_access_ms = now_ms }

-- The entry that is read goes to the end.
abbrev pub by_entry : String → ℕ → Cache → Option IntrospectionCacheEntry → Option AuthInfo × Cache
by_entry key now_ms cache none = (none, cache)
by_entry key now_ms cache (some e) =
    if leb e.expires_at_ms now_ms
    then (none, remove key cache)
    else (some e.auth_info, set key (touch now_ms e) (remove key cache))

unfoldable pub cached_auth_info : String → ℕ → Cache → Option AuthInfo × Cache
cached_auth_info key now_ms cache = by_entry key now_ms cache (lookup key cache)

abbrev pub without_oldest : ℕ → Cache → Cache
without_oldest limit [] = []
without_oldest limit (e ∷ es) = if leb limit (length (e ∷ es)) then es else e ∷ es

-- A difference below 0 is 0 here, and both are no later than `now_ms`.
abbrev pub kept_until : OAuthResourceServerConfig → ℕ → ℕ → ℕ
kept_until config exp now_ms =
    min (exp * 1000 - config.token_cache_skew_seconds * 1000)
      (now_ms + config.token_cache_ttl_seconds * 1000)

abbrev pub entry_until : AuthInfo → ℕ → ℕ → IntrospectionCacheEntry
entry_until info until now_ms = record {
  auth_info = info;
  expires_at_ms = until;
  last_access_ms = now_ms;
}

unfoldable pub remember_auth_info :
    String → AuthInfo → OAuthResourceServerConfig → ℕ → Cache → Cache
remember_auth_info key info config now_ms cache =
    let until = kept_until config info.expires_at now_ms in
    if (config.token_cache_max_entries == 0) || leb until now_ms
    then cache
    else set key (entry_until info until now_ms)
        (without_oldest config.token_cache_max_entries (remove key cache))
