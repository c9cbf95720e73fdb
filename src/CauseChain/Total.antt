-- ===== src/CauseChain/Total.antt =====
-- The search of src/utils/named-error.ts ends, also where the causes form a cycle.
use b2_mcp.Base.{
  Bool-cases, List, Option, Option-cases, [], ap, arith, false, get_elem?, has, if◌then◌else◌, inl,
  inr, length, none, some, suc, zero, ℕ, ◌+◌, ◌<◌, ◌==◌, ◌∷◌, ◌≡◌, ◌≢◌, ◌≤◌,
}
use b2_mcp.Value.{Store, Value, ref, undefined}
use b2_mcp.CauseChain.{
  add_seen, blocked, error_cause, find_in_cause_chain, find_inner, is_undefined,
}

-- How many of the addresses below `n` are not in the set.
pub unseen : ℕ → List ℕ → ℕ
unseen zero seen = 0
unseen (suc n) seen = (if has n seen then 0 else 1) + unseen n seen

unseen-cons-le : (n a : ℕ) (seen : List ℕ) → unseen n (a ∷ seen) ≤ unseen n seen
unfolding unseen
unseen-cons-le zero a seen = omega arith
unseen-cons-le (suc n) a seen = ground (arith, unseen-cons-le n a seen)

unseen-cons-lt :
    (n a : ℕ) (seen : List ℕ) → a < n → has a seen ≡ false → unseen n (a ∷ seen) < unseen n seen
unfolding unseen
unseen-cons-lt zero a seen h k = elim h [ ]
unseen-cons-lt (suc n) a seen h k = elim (Bool-cases (a == n)) [
  | inl same ↦ ground (arith, unseen-cons-le n a seen)
  | inr other ↦ ground (arith, unseen-cons-lt n a seen (ground arith) k)
]

unseen-le : (n : ℕ) (seen : List ℕ) → unseen n seen ≤ n
unfolding unseen
unseen-le zero seen = omega arith
unseen-le (suc n) seen = ground (arith, unseen-le n seen)

get_elem?_below {ℓ} :
    {A : Type ℓ} (xs : List A) (i : ℕ) (x : A) → get_elem? xs i ≡ some x → i < length xs
get_elem?_below [] i x e = cc
get_elem?_below (y ∷ xs) zero x e = omega arith
get_elem?_below (y ∷ xs) (suc i) x e = omega (arith, get_elem?_below xs i x e)

cause_below : (h : Store) (a : ℕ) → error_cause h (ref a) ≢ undefined → a < length h
unfolding error_cause
cause_below h a e = elim (Option-cases (get_elem? h a)) [
  | inl missing ↦ absurd (e (rw missing))
  | inr (fs, found) ↦ get_elem?_below h a fs found
]

module _ {ℓ} {T : Type ℓ} (h : Store) (predicate : Value → Option T) where
  fewer :
      (v : Value) (seen : List ℕ)
      → blocked v seen ≡ false
      → is_undefined (error_cause h v) ≡ false
      → unseen (length h) (add_seen v seen) < unseen (length h) seen
  fewer (ref a) seen go more =
      unseen-cons-lt (length h) a seen (cause_below h a (λ e. cc (ap (is_undefined) e))) go
  fewer _ seen go more = cc

  find_inner_total :
      (fuel : ℕ) (v : Value) (seen : List ℕ)
      → unseen (length h) seen < fuel
      → (r : Option T) × (find_inner h predicate fuel v seen ≡ some r)
  unfolding find_inner
  find_inner_total zero v seen lt = elim lt [ ]
  find_inner_total (suc fuel) v seen lt = elim (Option-cases (predicate v)) [
    | inr (t, found) ↦ (some t, rw (found, find_inner))
    | inl missed ↦ elim (Bool-cases (blocked v seen)) [
      | inl stop ↦ (none, rw (missed, stop, find_inner))
      | inr go ↦ elim (Bool-cases (is_undefined (error_cause h v))) [
        | inl end ↦ (none, rw (missed, go, end, find_inner))
        | inr more ↦
            rw (missed, go, more, find_inner)
              (find_inner_total fuel (error_cause h v) (add_seen v seen)
                (omega (arith, fewer v seen go more)))
      ]
    ]
  ]

  -- The recursion always ends with an answer, before its fuel of one call more than the store has
  -- objects runs out, whatever the causes point to.
  pub find_in_cause_chain_total :
      (v : Value)
      → find_inner h predicate (suc (length h)) v [] ≡ some (find_in_cause_chain h predicate v)
  unfolding find_in_cause_chain
  find_in_cause_chain_total v =
      let (r, e) =
        find_inner_total (suc (length h)) v [] (omega (arith, unseen-le (length h) [])) in
      rw e
