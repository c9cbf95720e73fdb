-- ===== src/RateLimiter.antt =====
-- src/utils/rate-limiter.ts: a token bucket for each key, and the eviction of idle buckets.
-- Tokens are counted in thousandths, so that a bucket refills by `rps` of them each millisecond.
-- The configuration, which the code reads from the environment at each call, is an argument.
-- Clock readings are naturals: `now - b.last_refill` stops at 0 where the code's is negative, and
-- the code treats the two alike (`elapsed > 0`, `Math.max(0, idleMs)`, `idleMs > IDLE_TTL_MS`).
pub mod Single
pub mod Throughput
mod Tests
use b2_mcp.Base.{
  Bool, List, Option, String, [], false, if◌then◌else◌, leb, lookup, ltb, min, none, not, retain,
  set, some, true, ℕ, ◌&&◌, ◌*◌, ◌+◌, ◌-◌,
}

pub record RateLimiterConfig : Type 0 where
  pub rps : ℕ
  pub burst : ℕ

abbrev pub idle_ttl_ms : ℕ
idle_ttl_ms = 10 * 60 * 1000

abbrev pub one_token : ℕ
one_token = 1000

-- `config.burst` in thousandths of a token.
abbrev pub capacity : RateLimiterConfig → ℕ
capacity c = c.burst * one_token

pub record Bucket : Type 0 where
  pub tokens : ℕ
  pub last_refill : ℕ

pub record Limiter : Type 0 where
  pub buckets : List (String × Bucket)
  pub next_opportunistic_sweep_at : ℕ

-- The state in which the module starts, and to which the tests reset it.
pub reset_rate_limiter : Limiter
reset_rate_limiter = record { buckets = []; next_opportunistic_sweep_at = 0 }

module _ (c : RateLimiterConfig) where
  -- The test by which a sweep keeps a bucket.
  abbrev pub is_in_use : ℕ → Bucket → Bool
  is_in_use now b =
      let idle_ms = now - b.last_refill in
      let refilled_tokens = min (capacity c) (b.tokens + idle_ms * c.rps) in
      not (ltb idle_ttl_ms idle_ms && leb (capacity c) refilled_tokens)

  pub sweep_idle_buckets : ℕ → Limiter → Limiter
  sweep_idle_buckets now s = record s { buckets = retain (is_in_use now) s.buckets }

  pub maybe_sweep_idle_buckets : ℕ → Limiter → Limiter
  unfolding sweep_idle_buckets
  maybe_sweep_idle_buckets now s =
      if ltb now s.next_opportunistic_sweep_at
      then s
      else sweep_idle_buckets now (record s { next_opportunistic_sweep_at = now + idle_ttl_ms })

  -- `buckets.get(key)`, or the new bucket that the code puts in its place.
  abbrev pub bucket_or_full : ℕ → Option Bucket → Bucket
  bucket_or_full now none = record { tokens = capacity c; last_refill = now }
  bucket_or_full now (some b) = b

  abbrev pub refill : ℕ → Bucket → Bucket
  refill now b =
      let elapsed = now - b.last_refill in
      if ltb 0 elapsed
      then record { tokens = min (capacity c) (b.tokens + elapsed * c.rps); last_refill = now }
      else b

  abbrev pub take_token : Bucket → Bucket × Bool
  take_token b =
      if leb one_token b.tokens
      then (record b { tokens = b.tokens - one_token }, true)
      else (b, false)

  unfoldable pub allow_request : String → ℕ → Limiter → Limiter × Bool
  unfolding maybe_sweep_idle_buckets
  allow_request key now s =
      let swept = maybe_sweep_idle_buckets now s in
      let (b, allowed) = take_token (refill now (bucket_or_full now (lookup key swept.buckets))) in
      (record swept { buckets = set key b swept.buckets }, allowed)
