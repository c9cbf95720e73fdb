-- ===== src/OAuth/Signed.antt =====
-- What OAuthJwtVerifier of src/oauth-resource-server.ts knows of a key that a token is signed by. `Served`
-- is what holds of every JWKS document that a fetch gives.
use b2_mcp.Base.{
  Bool, Bool-cases, List, Option, String, [], arith, false, filter, inl, inr, kept, lookup, none,
  not, refl, some, subst, true, ℕ, ◌&&◌, ◌∷◌, ◌≡◌,
}
use b2_mcp.Json.{Fields, get, is_str}
use b2_mcp.OAuth.Jwks.{
  Fetched, JwksCacheEntry, JwksState, Verdict, after_refresh, after_unknown, by_kid, candidate_keys,
  cooling, fetch_first, fetched, forbids_verify, from_entry, is_live_entry, is_other,
  jwk_matches_header, keep_fetched, key_matches, refresh_allowed, settled, signed_by,
  supported_jwt_algorithms, try_keys, unavailable, unknown_kid_cache_key, verify_signature,
  with_keys,
}
use b2_mcp.OAuth.Claims.{string_claim}

first_and_last : (a b c d e : Bool) → (a && (b && (c && (d && e)))) ≡ true → (a ≡ true) × (e ≡ true)
first_and_last a b c d e h = ground arith

first_same : {A : Type 0} (x y : A) (xs ys : List A) → (x ∷ xs) ≡ (y ∷ ys) → x ≡ y
first_same x y xs ys e = cc

filter-first :
    {A : Type 0} (p : A → Bool) (xs : List A) (y : A) (ys : List A)
    → filter p xs ≡ (y ∷ ys)
    → p y ≡ true
filter-first p [] y ys e = cc
filter-first p (x ∷ xs) y ys e = elim (Bool-cases (p x)) [
  | inl here ↦ subst (λ z. p z ≡ true) (first_same x y (filter p xs) ys (rw here at e)) here
  | inr there ↦ filter-first p xs y ys (rw there at e)
]

module _ (Served : List Fields → Type 0) where
  abbrev pub IsFetched : Fetched → Type 0
  IsFetched unavailable = Unit
  IsFetched (fetched keys ttl) = Served keys

  abbrev pub IsKept : Option JwksCacheEntry → Type 0
  IsKept none = Unit
  IsKept (some e) = Served e.jwks

  keep_fetched-IsKept :
      (now_ms : ℕ) (f : Fetched) (st : JwksState)
      → IsFetched f
      → IsKept st.cached
      → IsKept (keep_fetched now_ms f st).cached
  keep_fetched-IsKept now_ms unavailable st h k = k
  keep_fetched-IsKept now_ms (fetched keys ttl) st h k = h

  module _ (jose : Fields → String → Bool) (refresh_cooldown_ms : ℕ) where
    -- The key has the name that the token gives and is of the kind that its algorithm needs.
    abbrev pub IsFit : String → String → Fields → Type 0
    IsFit kid algorithm jwk =
        (is_str kid (get "kid" jwk) ≡ true)
        × (key_matches (lookup algorithm supported_jwt_algorithms) jwk ≡ true)

    -- The key is the one key of a served document that fits the header, and jose verifies with it.
    abbrev pub IsKeyOf : String → String → Fields → Type 0
    IsKeyOf kid algorithm jwk =
        (keys : List Fields) × Served keys
        × (candidate_keys keys algorithm kid ≡ (jwk ∷ []))
        × IsFit kid algorithm jwk
        × (jose jwk algorithm ≡ true)

    matches-IsFit :
        (kid algorithm : String) (jwk : Fields)
        → jwk_matches_header jwk algorithm kid ≡ true
        → IsFit kid algorithm jwk
    unfolding jwk_matches_header
    matches-IsFit kid algorithm jwk h =
        first_and_last (is_str kid (get "kid" jwk)) (not (is_other "sig" (get "use" jwk)))
          (not (forbids_verify (get "key_ops" jwk))) (not (is_other algorithm (get "alg" jwk)))
          (key_matches (lookup algorithm supported_jwt_algorithms) jwk) h

    abbrev pub IsSignedBy : String → String → Verdict → Type 0
    IsSignedBy kid algorithm (signed_by jwk) = IsKeyOf kid algorithm jwk
    IsSignedBy kid algorithm _ = Unit

    abbrev pub IsOutcome : String → String → Verdict × JwksState → Type 0
    IsOutcome kid algorithm (v, st) = IsSignedBy kid algorithm v × IsKept st.cached

    try_keys-IsSignedBy :
        (kid algorithm : String) (keys candidates : List Fields)
        → Served keys
        → candidate_keys keys algorithm kid ≡ candidates
        → IsSignedBy kid algorithm (try_keys jose refresh_cooldown_ms candidates algorithm)
    try_keys-IsSignedBy kid algorithm keys [] h e = tt
    try_keys-IsSignedBy kid algorithm keys (jwk ∷ []) h e = elim (Bool-cases (jose jwk algorithm)) [
      | inl verified ↦ rw verified (
        keys,
        h,
        e,
        matches-IsFit kid algorithm jwk
            (filter-first (λ k. jwk_matches_header k algorithm kid) keys jwk [] e),
        verified,
      )
      | inr forged ↦ rw forged tt
    ]
    try_keys-IsSignedBy kid algorithm keys (jwk ∷ other ∷ rest) h e = tt

    settled-IsOutcome :
        (now_ms : ℕ) (kid algorithm : String) (ambiguous : Bool) (st : JwksState) (v : Verdict)
        → IsSignedBy kid algorithm v
        → IsKept st.cached
        → IsOutcome kid algorithm
            (settled jose refresh_cooldown_ms now_ms kid algorithm ambiguous st v)
    settled-IsOutcome now_ms kid algorithm ambiguous st (signed_by jwk) h k = (h, k)
    settled-IsOutcome now_ms kid algorithm true st _ h k = (tt, k)
    settled-IsOutcome now_ms kid algorithm false st _ h k = (tt, k)

    after_refresh-IsOutcome :
        (st : JwksState) (now_ms : ℕ) (kid algorithm : String) (again : Fetched)
        → IsFetched again
        → IsKept st.cached
        → IsOutcome kid algorithm
            (after_refresh jose refresh_cooldown_ms st now_ms kid algorithm again)
    after_refresh-IsOutcome st now_ms kid algorithm unavailable h k = (tt, k)
    after_refresh-IsOutcome st now_ms kid algorithm (fetched keys ttl) h k =
        settled-IsOutcome now_ms kid algorithm _ _ _
          (try_keys-IsSignedBy kid algorithm keys (candidate_keys keys algorithm kid) h refl) h

    after_unknown-IsOutcome :
        (st : JwksState) (now_ms : ℕ) (kid algorithm : String) (again : Fetched)
        → IsFetched again
        → IsKept st.cached
        → IsOutcome kid algorithm
            (after_unknown jose refresh_cooldown_ms st now_ms kid algorithm again)
    after_unknown-IsOutcome st now_ms kid algorithm again h k =
        let key = unknown_kid_cache_key kid algorithm in
        elim (Bool-cases (cooling now_ms (lookup key st.unknown_kids))) [
          | inl cold ↦ rw cold (tt, k)
          | inr warm ↦
              elim (Bool-cases
                (refresh_allowed refresh_cooldown_ms now_ms st.last_forced_refresh_ms)) [
                  | inl allowed ↦
                      rw (warm, allowed) (after_refresh-IsOutcome _ now_ms kid algorithm again h k)
                  | inr too_soon ↦ rw (warm, too_soon) (tt, k)
                ]
        ]

    with_keys-IsOutcome :
        (st : JwksState) (now_ms : ℕ) (kid algorithm : String) (from_cache : Bool) (again : Fetched)
        (keys candidates : List Fields)
        → IsFetched again
        → IsKept st.cached
        → Served keys
        → candidate_keys keys algorithm kid ≡ candidates
        → IsOutcome kid algorithm
            (with_keys jose refresh_cooldown_ms st now_ms kid algorithm from_cache again candidates)
    with_keys-IsOutcome st now_ms kid algorithm true again keys [] h k served e =
        after_unknown-IsOutcome st now_ms kid algorithm again h k
    with_keys-IsOutcome st now_ms kid algorithm false again keys [] h k served e = (tt, k)
    with_keys-IsOutcome st now_ms kid algorithm from_cache again keys (jwk ∷ rest) h k served e =
        (try_keys-IsSignedBy kid algorithm keys (jwk ∷ rest) served e, k)

    fetch_first-IsOutcome :
        (st : JwksState) (now_ms : ℕ) (kid algorithm : String) (first again : Fetched)
        → IsFetched first
        → IsFetched again
        → IsKept st.cached
        → IsOutcome kid algorithm
            (fetch_first jose refresh_cooldown_ms st now_ms kid algorithm first again)
    fetch_first-IsOutcome st now_ms kid algorithm unavailable again f h k = (tt, k)
    fetch_first-IsOutcome st now_ms kid algorithm (fetched keys ttl) again f h k =
        with_keys-IsOutcome (keep_fetched now_ms (fetched keys ttl) st) now_ms kid algorithm false
          again keys (candidate_keys keys algorithm kid) h f f refl

    from_entry-IsOutcome :
        (st : JwksState) (now_ms : ℕ) (kid algorithm : String) (first again : Fetched)
        (o : Option JwksCacheEntry)
        → IsFetched first
        → IsFetched again
        → IsKept st.cached
        → IsKept o
        → IsOutcome kid algorithm
            (from_entry jose refresh_cooldown_ms st now_ms kid algorithm first again o)
    from_entry-IsOutcome st now_ms kid algorithm first again none f h k o =
        fetch_first-IsOutcome st now_ms kid algorithm first again f h k
    from_entry-IsOutcome st now_ms kid algorithm first again (some e) f h k served =
        elim (Bool-cases (is_live_entry now_ms e)) [
          | inl fresh ↦ rw fresh (
              with_keys-IsOutcome st now_ms kid algorithm true again e.jwks
                (candidate_keys e.jwks algorithm kid) h k served refl)
          | inr stale ↦ rw stale (
              fetch_first-IsOutcome (record st { cached = none }) now_ms kid algorithm first again f
                h tt)
        ]

    -- Whatever the state and the fetches give, the key is named by the header.
    abbrev pub IsSigned : Fields → String → Verdict → Type 0
    IsSigned header algorithm v =
        (jwk : Fields)
        → v ≡ signed_by jwk
        → (kid : String) × (string_claim (get "kid" header) ≡ some kid) × IsKeyOf kid algorithm jwk

    signed_key :
        (kid algorithm : String) (v : Verdict) (jwk : Fields)
        → IsSignedBy kid algorithm v
        → v ≡ signed_by jwk
        → IsKeyOf kid algorithm jwk
    signed_key kid algorithm v jwk h e = subst (IsSignedBy kid algorithm) e h

    abbrev pub IsAnswer : Fields → String → Verdict × JwksState → Type 0
    IsAnswer header algorithm (v, st) = IsSigned header algorithm v × IsKept st.cached

    by_kid-IsAnswer :
        (st : JwksState) (now_ms : ℕ) (header : Fields) (algorithm : String) (first again : Fetched)
        (o : Option String)
        → IsFetched first
        → IsFetched again
        → IsKept st.cached
        → string_claim (get "kid" header) ≡ o
        → IsAnswer header algorithm
            (by_kid jose refresh_cooldown_ms st now_ms algorithm first again o)
    by_kid-IsAnswer st now_ms header algorithm first again none f h k e = (λ jwk signed. cc, k)
    by_kid-IsAnswer st now_ms header algorithm first again (some kid) f h k e =
        let (signed, kept) =
          from_entry-IsOutcome st now_ms kid algorithm first again st.cached f h k k in
        (λ jwk same. (kid, e, signed_key kid algorithm _ jwk signed same), kept)

    pub verify_signature-IsAnswer :
        (st : JwksState) (now_ms : ℕ) (header : Fields) (algorithm : String) (first again : Fetched)
        → IsFetched first
        → IsFetched again
        → IsKept st.cached
        → IsAnswer header algorithm
            (verify_signature jose refresh_cooldown_ms st now_ms header algorithm first again)
    unfolding verify_signature
    verify_signature-IsAnswer st now_ms header algorithm first again f h k =
        by_kid-IsAnswer st now_ms header algorithm first again (string_claim (get "kid" header)) f h
          k refl
