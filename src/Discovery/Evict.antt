-- ===== src/Discovery/Evict.antt =====
-- `enforceCacheMax` of src/server.ts: what it evicts, and what it keeps.
use b2_mcp.Base.{
  All, Bool-cases, HasUniqueKeys, String, [], arith, false, inl, inr, leb, length, refl, str_eq,
  true, ℕ, ◌||◌, ◌∷◌, ◌≡◌, ◌≤◌,
}
use b2_mcp.Discovery.{Cache, CacheEntry, enforce_cache_max}

-- No key is empty, as the keys are that the server makes.
abbrev pub HasKeys : {V : Type 0} → Cache V → Type 0
HasKeys m = All (λ e. str_eq e.0 "" ≡ false) m

pub enforce_cache_max-bound :
    {V : Type 0} (m : Cache V) (n : ℕ) → HasKeys m → length (enforce_cache_max m n) ≤ n
unfolding enforce_cache_max
enforce_cache_max-bound [] n h = omega arith
enforce_cache_max-bound ((k, e) ∷ m) n (hk, h) = ground (arith, hk, enforce_cache_max-bound m n h)

-- Nothing is evicted from a cache that is small enough.
pub enforce_cache_max-small :
    {V : Type 0} (m : Cache V) (n : ℕ) → length m ≤ n → enforce_cache_max m n ≡ m
unfolding enforce_cache_max
enforce_cache_max-small [] n h = refl
enforce_cache_max-small ((k, e) ∷ m) n h = ground (arith, h)

module _ {V : Type 0} (k : String) (e : CacheEntry V) (m : Cache V) (n : ℕ) where
  pub enforce_kept :
      (leb (length ((k, e) ∷ m)) n || str_eq k "") ≡ true
      → enforce_cache_max ((k, e) ∷ m) n ≡ (k, e) ∷ m
  unfolding enforce_cache_max
  enforce_kept stop = rw stop refl

  pub enforce_evicts :
      (leb (length ((k, e) ∷ m)) n || str_eq k "") ≡ false
      → enforce_cache_max ((k, e) ∷ m) n ≡ enforce_cache_max m n
  unfolding enforce_cache_max
  enforce_evicts go = rw go refl

pub enforce_cache_max-HasUniqueKeys :
    {V : Type 0} (m : Cache V) (n : ℕ) → HasUniqueKeys m → HasUniqueKeys (enforce_cache_max m n)
unfolding enforce_cache_max
enforce_cache_max-HasUniqueKeys [] n u = tt
enforce_cache_max-HasUniqueKeys ((k, e) ∷ m) n (f, u) =
    ground (arith, f, u, enforce_cache_max-HasUniqueKeys m n u)

-- The first entries to have been put in a cache are the first to go: what is left is an end of it.
pub data IsSuffix {V : Type 0} : Cache V → Cache V → Type 0 where
  all_of : (m : Cache V) → IsSuffix m m
  later : (e : String × CacheEntry V) (m r : Cache V) → IsSuffix r m → IsSuffix r (e ∷ m)

pub enforce_cache_max-IsSuffix :
    {V : Type 0} (m : Cache V) (n : ℕ) → IsSuffix (enforce_cache_max m n) m
unfolding enforce_cache_max
enforce_cache_max-IsSuffix [] n = all_of []
enforce_cache_max-IsSuffix ((k, e) ∷ m) n =
    elim (Bool-cases (leb (length ((k, e) ∷ m)) n || str_eq k "")) [
      | inl stop ↦ rw stop (all_of ((k, e) ∷ m))
      | inr go ↦ rw go (later (k, e) m _ (enforce_cache_max-IsSuffix m n))
    ]

pub All-enforce_cache_max :
    {V : Type 0} (P : String × CacheEntry V → Type 0) (m : Cache V) (n : ℕ)
    → All P m
    → All P (enforce_cache_max m n)
unfolding enforce_cache_max
All-enforce_cache_max P [] n h = tt
All-enforce_cache_max P ((k, e) ∷ m) n (p, h) =
    elim (Bool-cases (leb (length ((k, e) ∷ m)) n || str_eq k "")) [
      | inl stop ↦ rw stop (p, h)
      | inr go ↦ rw go (All-enforce_cache_max P m n h)
    ]
