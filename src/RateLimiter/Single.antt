-- ===== src/RateLimiter/Single.antt =====
-- The limiter of src/utils/rate-limiter.ts refines one bucket per key that is never evicted.
use b2_mcp.Base.{
  Bool, Bool-cases, HasUniqueKeys, List, Option, String, [], ap, ap₂, arith, false, if◌then◌else◌,
  inl, inr, kept, lookup, lookup-retain, lookup-set, ltb, none, refl, retain-HasUniqueKeys,
  set-HasUniqueKeys, some, str_eq, str_eq_iff, str_eq_refl, ℕ, ◌*◌, ◌+◌, ◌-◌, ◌∷◌, ◌≡◌, ◌≤◌,
}
use b2_mcp.RateLimiter.{
  Bucket, Limiter, RateLimiterConfig, allow_request, bucket_or_full, capacity, is_in_use,
  maybe_sweep_idle_buckets, refill, reset_rate_limiter, take_token,
}

-- One request against the bucket of its key, with no map and no eviction.
unfoldable pub single_request : RateLimiterConfig → ℕ → Option Bucket → Bucket × Bool
single_request c now o = take_token c (refill c now (bucket_or_full c now o))

unfoldable pub single_run : RateLimiterConfig → Option Bucket → List ℕ → List Bool
single_run c o [] = []
single_run c o (now ∷ nows) =
    let (b, allowed) = single_request c now o in allowed ∷ single_run c (some b) nows

-- The answers of the limiter to a sequence of requests, and those that one key gets.
unfoldable pub run : RateLimiterConfig → Limiter → List (String × ℕ) → List (String × Bool)
unfolding allow_request
run c s [] = []
run c s ((key, now) ∷ calls) =
    let (s', allowed) = allow_request c key now s in (key, allowed) ∷ run c s' calls

abbrev pub of_key {ℓ} : {A : Type ℓ} → String → List (String × A) → List A
of_key k [] = []
of_key k ((j, a) ∷ rest) = let others = of_key k rest in if str_eq j k then a ∷ others else others

abbrev pub Ordered : ℕ → List ℕ → Type 0
Ordered t [] = Unit
Ordered t (now ∷ nows) = (t ≤ now) × Ordered now nows

-- The clock readings of a sequence of requests do not fall, and start at `t` or later.
abbrev pub NeverBack {ℓ} : {A : Type ℓ} → ℕ → List (A × ℕ) → Type 0
NeverBack t [] = Unit
NeverBack t ((_, now) ∷ calls) = (t ≤ now) × NeverBack now calls

module _ (c : RateLimiterConfig) where
  -- The bucket that the specification holds, and the one in the map: the same, or one that was
  -- evicted and is full at time `t`.
  abbrev Agrees : ℕ → Option Bucket → Option Bucket → Type 0
  Agrees t none none = Unit
  Agrees t none (some b') = ⊥
  Agrees t (some b) none =
      (b.last_refill ≤ t)
      × (b.tokens ≤ capacity c)
      × (capacity c ≤ b.tokens + (t - b.last_refill) * c.rps)
  Agrees t (some b) (some b') = (b.last_refill ≤ t) × (b.tokens ≤ capacity c) × (b ≡ b')

  full_later :
      (t now last tokens : ℕ)
      → t ≤ now
      → capacity c ≤ tokens + (t - last) * c.rps
      → capacity c ≤ tokens + (now - last) * c.rps
  full_later t now last tokens h k = grind arith

  kept-Agrees :
      (t now : ℕ) (o real : Option Bucket)
      → t ≤ now
      → Agrees t o real
      → Agrees now o (kept (is_in_use c now) real)
  kept-Agrees t now none none h a = tt
  kept-Agrees t now none (some b') h a = absurd a
  kept-Agrees t now (some b) none h (last, few, full) =
      (omega arith, few, full_later t now b.last_refill b.tokens h full)
  kept-Agrees t now (some b) (some b') h (last, few, same) =
      elim (Bool-cases (is_in_use c now b')) [
        | inl used ↦ rw used (omega arith, few, same)
        | inr idle ↦ rw idle (omega arith, few, ground arith)
      ]

  request-Agrees :
      (now : ℕ) (o real : Option Bucket)
      → Agrees now o real
      → (single_request c now real ≡ single_request c now o)
        × Agrees now (some (single_request c now o).0) (some (single_request c now o).0)
  unfolding single_request
  request-Agrees now none none a = (refl, (ground arith, ground arith, refl))
  request-Agrees now none (some b') a = absurd a
  request-Agrees now (some b) none (last, few, full) =
      (ground arith, (ground arith, ground arith, refl))
  request-Agrees now (some b) (some b') (last, few, same) =
      (rw same, (ground arith, ground arith, refl))

  -- The map after a sweep that may or may not be due.
  swept-Agrees :
      (t now : ℕ) (k : String) (o : Option Bucket) (s : Limiter)
      → t ≤ now
      → HasUniqueKeys s.buckets
      → Agrees t o (lookup k s.buckets)
      → Agrees now o (lookup k (maybe_sweep_idle_buckets c now s).buckets)
        × HasUniqueKeys (maybe_sweep_idle_buckets c now s).buckets
  unfolding maybe_sweep_idle_buckets
  swept-Agrees t now k o s h u a = elim (Bool-cases (ltb now s.next_opportunistic_sweep_at)) [
    | inl early ↦ rw early (later o (lookup k s.buckets) a, u)
    | inr due ↦ rw due (
      rw (lookup-retain (is_in_use c now) k s.buckets u)
          (kept-Agrees t now o (lookup k s.buckets) h a),
      retain-HasUniqueKeys (is_in_use c now) s.buckets u,
    )
  ]
    where
      later : (o real : Option Bucket) → Agrees t o real → Agrees now o real
      later none none a = tt
      later none (some b') a = absurd a
      later (some b) none (last, few, full) =
          (omega arith, few, full_later t now b.last_refill b.tokens h full)
      later (some b) (some b') (last, few, same) = (omega arith, few, same)

  swept-HasUniqueKeys :
      (now : ℕ) (s : Limiter)
      → HasUniqueKeys s.buckets
      → HasUniqueKeys (maybe_sweep_idle_buckets c now s).buckets
  unfolding maybe_sweep_idle_buckets
  swept-HasUniqueKeys now s u = elim (Bool-cases (ltb now s.next_opportunistic_sweep_at)) [
    | inl early ↦ rw early u
    | inr due ↦ rw due (retain-HasUniqueKeys (is_in_use c now) s.buckets u)
  ]

  allow-HasUniqueKeys :
      (now : ℕ) (key : String) (s : Limiter)
      → HasUniqueKeys s.buckets
      → HasUniqueKeys (allow_request c key now s).0.buckets
  unfolding allow_request
  allow-HasUniqueKeys now key s u = set-HasUniqueKeys key _ _ (swept-HasUniqueKeys now s u)

  -- A request of another key leaves the bucket.
  allow_other :
      (t now : ℕ) (k key : String) (o : Option Bucket) (s : Limiter)
      → t ≤ now
      → HasUniqueKeys s.buckets
      → Agrees t o (lookup k s.buckets)
      → str_eq key k ≡ false
      → Agrees now o (lookup k (allow_request c key now s).0.buckets)
  unfolding allow_request
  allow_other t now k key o s h u a other =
      rw (lookup-set k key _ (maybe_sweep_idle_buckets c now s).buckets, other)
        (swept-Agrees t now k o s h u a).0

  -- A request of the key is answered as by its own bucket.
  allow_own :
      (t now : ℕ) (k : String) (o : Option Bucket) (s : Limiter)
      → t ≤ now
      → HasUniqueKeys s.buckets
      → Agrees t o (lookup k s.buckets)
      → ((allow_request c k now s).1 ≡ (single_request c now o).1)
        × Agrees now
            (some (single_request c now o).0)
            (lookup k (allow_request c k now s).0.buckets)
  unfolding allow_request single_request
  allow_own t now k o s h u a =
      let swept = (maybe_sweep_idle_buckets c now s).buckets in
      let (same, next) = request-Agrees now o (lookup k swept) (swept-Agrees t now k o s h u a).0 in
      (
        ap (λ r. r.1) same,
        rw (lookup-set k k (single_request c now (lookup k swept)).0 swept, str_eq_refl k, same)
            next,
      )

  run-Agrees :
      (t : ℕ) (k : String) (o : Option Bucket) (s : Limiter) (calls : List (String × ℕ))
      → NeverBack t calls
      → HasUniqueKeys s.buckets
      → Agrees t o (lookup k s.buckets)
      → of_key k (run c s calls) ≡ single_run c o (of_key k calls)
  unfolding run single_run
  run-Agrees t k o s [] h u a = refl
  run-Agrees t k o s ((key, now) ∷ calls) (le, h) u a = elim (Bool-cases (str_eq key k)) [
    | inr other ↦ rw (other) (
        run-Agrees now k o (allow_request c key now s).0 calls h (allow-HasUniqueKeys now key s u)
          (allow_other t now k key o s le u a other))
    | inl same ↦
        rw ((str_eq_iff key k).0 same, str_eq_refl k)
          (ap₂ ◌∷◌ (allow_own t now k o s le u a).0 (
            run-Agrees now k (some (single_request c now o).0) (allow_request c k now s).0 calls h
              (allow-HasUniqueKeys now k s u) (allow_own t now k o s le u a).1))
  ]

-- With clock readings that do not fall, the answers that a key gets are those of one bucket of its
-- own: neither the requests of other keys nor the eviction of idle buckets can be observed.
pub run-single_run :
    (c : RateLimiterConfig) (k : String) (calls : List (String × ℕ))
    → NeverBack 0 calls
    → of_key k (run c reset_rate_limiter calls) ≡ single_run c none (of_key k calls)
unfolding reset_rate_limiter
run-single_run c k calls h = run-Agrees c 0 k none reset_rate_limiter calls h tt tt
