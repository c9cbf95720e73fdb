-- ===== src/RateLimiter/Throughput.antt =====
-- How many requests of one key the limiter of src/utils/rate-limiter.ts lets through.
use b2_mcp.Base.{
  All, Bool, List, String, [], arith, if◌then◌else◌, none, some, subst, suc, sym, true, zero, ℕ,
  ◌*◌, ◌+◌, ◌-◌, ◌<◌, ◌∷◌, ◌≡◌, ◌≤◌,
}
use b2_mcp.RateLimiter.{Bucket, RateLimiterConfig, capacity, one_token, reset_rate_limiter}
use b2_mcp.RateLimiter.Single.{
  NeverBack, Ordered, of_key, run, run-single_run, single_request, single_run,
}

pub granted : List Bool → ℕ
granted [] = 0
granted (b ∷ bs) = if b then granted bs + 1 else granted bs

elapsed_split :
    (last now t r : ℕ) → last ≤ now → now ≤ t → (t - last) * r ≡ (now - last) * r + (t - now) * r
elapsed_split last now t r h k =
    let parts : t - last ≡ (now - last) + (t - now) = omega arith in rw parts (omega arith)

module _ (c : RateLimiterConfig) where
  request_paid :
      (now t : ℕ) (b : Bucket)
      → b.last_refill ≤ now
      → now ≤ t
      → (if (single_request c now (some b)).1 then one_token else 0)
          + ((single_request c now (some b)).0.tokens
              + (t - (single_request c now (some b)).0.last_refill) * c.rps)
        ≤ b.tokens + (t - b.last_refill) * c.rps
  unfolding single_request
  request_paid now t b old le = ground (arith, elapsed_split b.last_refill now t c.rps old le)

  request_last :
      (now : ℕ) (b : Bucket)
      → b.last_refill ≤ now
      → (single_request c now (some b)).0.last_refill ≡ now
  unfolding single_request
  request_last now b old = ground arith

  first_request_paid :
      (now : ℕ)
      → (if (single_request c now none).1 then one_token else 0)
          + (single_request c now none).0.tokens
        ≤ capacity c
  unfolding single_request
  first_request_paid now = ground arith

  first_request_last : (now : ℕ) → (single_request c now none).0.last_refill ≡ now
  unfolding single_request
  first_request_last now = ground arith

  -- A bucket pays for what it grants out of its tokens and the refill up to `t`.
  single_run_paid :
      (t : ℕ) (b : Bucket) (nows : List ℕ)
      → Ordered b.last_refill nows
      → All (λ now. now ≤ t) nows
      → one_token * granted (single_run c (some b) nows) ≤ b.tokens + (t - b.last_refill) * c.rps
  unfolding single_run granted
  single_run_paid t b [] h k = omega arith
  single_run_paid t b (now ∷ nows) (old, h) (le, k) =
      let b' = (single_request c now (some b)).0 in
      let last : b'.last_refill ≡ now = request_last now b old in
      ground (
        arith,
        single_run_paid t b' nows (subst (λ l. Ordered l nows) (sym last) h) k,
        request_paid now t b old le,
      )

  elapsed_mono : (start now t : ℕ) → start ≤ now → (t - now) * c.rps ≤ (t - start) * c.rps
  elapsed_mono start now t h = grind arith

  first_run_paid :
      (start t : ℕ) (nows : List ℕ)
      → Ordered start nows
      → All (λ now. now ≤ t) nows
      → one_token * granted (single_run c none nows) ≤ capacity c + (t - start) * c.rps
  unfolding single_run granted
  first_run_paid start t [] h k = omega arith
  first_run_paid start t (now ∷ nows) (old, h) (le, k) =
      let b = (single_request c now none).0 in
      let last : b.last_refill ≡ now = first_request_last now in
      ground (
        arith,
        single_run_paid t b nows (subst (λ l. Ordered l nows) (sym last) h) k,
        first_request_paid now,
        elapsed_mono start now t old,
      )

-- Whatever other keys do, a key gets at most its burst and the sustained rate for the time that
-- passes: with clock readings that do not fall, of its requests from `start` to `t` at most
-- `burst + rps * (t - start) / 1000` are let through.
pub granted_bounded :
    (c : RateLimiterConfig) (k : String) (start t : ℕ) (calls : List (String × ℕ))
    → NeverBack 0 calls
    → Ordered start (of_key k calls)
    → All (λ now. now ≤ t) (of_key k calls)
    → one_token * granted (of_key k (run c reset_rate_limiter calls))
      ≤ capacity c + (t - start) * c.rps
granted_bounded c k start t calls h o a =
    rw (run-single_run c k calls h) (first_run_paid c start t (of_key k calls) o a)

-- Each request comes at least as long after the one before as one token takes to refill.
abbrev pub IsSpaced : RateLimiterConfig → ℕ → List ℕ → Type 0
IsSpaced c last [] = Unit
IsSpaced c last (now ∷ nows) = (one_token ≤ (now - last) * c.rps) × IsSpaced c now nows

abbrev pub IsSteady : RateLimiterConfig → List ℕ → Type 0
IsSteady c [] = Unit
IsSteady c (first ∷ rest) = IsSpaced c first rest

pos_of_product : (d r : ℕ) → one_token ≤ d * r → 0 < d
pos_of_product zero r h = grind arith
pos_of_product (suc d) r h = omega arith

module _ (c : RateLimiterConfig) (some_burst : 0 < c.burst) where
  spaced_request :
      (now : ℕ) (b : Bucket)
      → one_token ≤ (now - b.last_refill) * c.rps
      → ((single_request c now (some b)).1 ≡ true)
        × ((single_request c now (some b)).0.last_refill ≡ now)
  unfolding single_request
  spaced_request now b gap =
      let later : 0 < now - b.last_refill = pos_of_product _ _ gap in (ground arith, ground arith)

  first_request_allowed : (now : ℕ) → (single_request c now none).1 ≡ true
  unfolding single_request
  first_request_allowed now = ground arith

  spaced_run :
      (b : Bucket) (nows : List ℕ)
      → IsSpaced c b.last_refill nows
      → All (λ allowed. allowed ≡ true) (single_run c (some b) nows)
  unfolding single_run
  spaced_run b [] h = tt
  spaced_run b (now ∷ nows) (gap, h) =
      let (allowed, last) = spaced_request now b gap in
      (
        allowed,
        spaced_run (single_request c now (some b)).0 nows
            (subst (λ l. IsSpaced c l nows) (sym last) h),
      )

  steady_run :
      (nows : List ℕ) → IsSteady c nows → All (λ allowed. allowed ≡ true) (single_run c none nows)
  unfolding single_run
  steady_run [] h = tt
  steady_run (now ∷ nows) h = (
    first_request_allowed now,
    spaced_run (single_request c now none).0 nows
        (subst (λ l. IsSpaced c l nows) (sym (first_request_last c now)) h),
  )

-- A client that keeps to the sustained rate is never refused: if the burst is not zero and each
-- request of a key comes no sooner after the one before than a token takes to refill, all of them
-- are let through, whatever the other keys do.
pub steady_never_refused :
    (c : RateLimiterConfig) (k : String) (calls : List (String × ℕ))
    → 0 < c.burst
    → NeverBack 0 calls
    → IsSteady c (of_key k calls)
    → All (λ allowed. allowed ≡ true) (of_key k (run c reset_rate_limiter calls))
steady_never_refused c k calls b h steady =
    rw (run-single_run c k calls h) (steady_run c b (of_key k calls) steady)
