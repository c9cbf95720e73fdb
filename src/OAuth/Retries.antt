-- ===== src/OAuth/Retries.antt =====
-- The attempts of one call of runOAuthDependencyWithRetry of src/oauth-resource-server.ts.
use b2_mcp.Base.{
  Bool-cases, arith, false, inl, inr, refl, subst, suc, sym, true, zero, ℕ, ◌+◌, ◌<◌, ◌∙◌, ◌≡◌, ◌≤◌,
  ◌⊎◌,
}
use b2_mcp.OAuth.Circuit.{
  Attempt, DependencyCall, Ended, OAuthDependencyError, after_attempt, answered, came_back,
  dependency_failed, gave_up, is_abort_reason, is_retryable, oauth_failed, retry_loop, stopped,
  threw, unavailable_with,
}

none_between : (n i : ℕ) → n ≤ i → i < n → ⊥
none_between n i a b = omega arith

at_or_after : (n i : ℕ) → n ≤ i → (n ≡ i) ⊎ (n + 1 ≤ i)
at_or_after n i h = ground (arith, h)

module _ {ℓ} {A : Type ℓ} (c : DependencyCall A) where
  -- Why attempt `m` is the last one, when `limit` is the last one allowed.
  abbrev pub IsEnd : ℕ → ℕ → Ended A → Type ℓ
  IsEnd limit m (came_back a) = c.attempts m ≡ answered a
  IsEnd limit m (gave_up e) =
      (c.attempts m ≡ dependency_failed e) × ((is_retryable e.reason ≡ false) ⊎ (m ≡ limit))
  IsEnd limit m (stopped outcome) = (a : A) → ¬ (c.attempts m ≡ answered a)

  -- A failure that is tried again.
  abbrev pub IsRetried : ℕ → Type ℓ
  IsRetried i =
      (e : OAuthDependencyError) × (c.attempts i ≡ dependency_failed e)
      × (is_retryable e.reason ≡ true)
      × (c.delay_aborted i ≡ false)

  pub record AreAttempts (first limit : ℕ) (ended : Ended A) (last : ℕ) : Type ℓ where
    pub begun : first ≤ last
    pub bounded : last ≤ limit
    pub retried : (i : ℕ) → first ≤ i → i < last → IsRetried i
    pub ending : IsEnd limit last ended

  one_attempt :
      (n limit : ℕ) (ended : Ended A)
      → n ≤ limit
      → IsEnd limit n ended
      → AreAttempts n limit ended n
  one_attempt n limit ended h e = record {
    begun = omega arith;
    bounded = h;
    retried = λ i a b. elim (none_between n i a b) [ ];
    ending = e;
  }

  no_answer :
      (t : Attempt A) (n : ℕ)
      → c.attempts n ≡ t
      → ((a : A) → ¬ (t ≡ answered a))
      → (a : A) → ¬ (c.attempts n ≡ answered a)
  no_answer t n e h a g = h a (sym e ∙ g)

  after_attempt-AreAttempts :
      (n limit : ℕ) (t : Attempt A) (rest : OAuthDependencyError → Ended A × ℕ)
      → n ≤ limit
      → c.attempts n ≡ t
      → ((e : OAuthDependencyError)
          → t ≡ dependency_failed e
          → AreAttempts n limit ((rest e).0) ((rest e).1))
      → AreAttempts n limit ((after_attempt t n rest).0) ((after_attempt t n rest).1)
  after_attempt-AreAttempts n limit (answered a) rest h e r = one_attempt n limit (came_back a) h e
  after_attempt-AreAttempts n limit (oauth_failed code message) rest h e r =
      one_attempt n limit _ h (no_answer _ n e (λ a g. cc))
  after_attempt-AreAttempts n limit threw rest h e r =
      one_attempt n limit _ h (no_answer _ n e (λ a g. cc))
  after_attempt-AreAttempts n limit (dependency_failed error) rest h e r =
      elim (Bool-cases (is_abort_reason error.reason)) [
        | inl aborted ↦
            rw aborted (
              one_attempt n limit (stopped (unavailable_with error)) h
                (no_answer _ n e (λ a g. cc)))
        | inr other ↦ rw other (r error refl)
      ]

  one_more :
      (n limit : ℕ) (ended : Ended A) (last : ℕ)
      → IsRetried n
      → AreAttempts (n + 1) limit ended last
      → AreAttempts n limit ended last
  one_more n limit ended last here later = record {
    begun = omega (arith, later.begun);
    bounded = later.bounded;
    retried = λ i a b. elim (at_or_after n i a) [
      | inl same ↦ subst IsRetried same here
      | inr behind ↦ later.retried i behind b
    ];
    ending = later.ending;
  }

  retry_loop-AreAttempts_to :
      (left n limit : ℕ)
      → n + left ≡ limit
      → AreAttempts n limit ((retry_loop left n c).0) ((retry_loop left n c).1)
  retry_loop-AreAttempts_to zero n limit h =
      after_attempt-AreAttempts n limit (c.attempts n) _ (omega arith) refl
        (λ e failure. one_attempt n limit (gave_up e) (omega arith) (failure, inr (omega arith)))
  retry_loop-AreAttempts_to (suc left) n limit h =
      after_attempt-AreAttempts n limit (c.attempts n) _ (omega arith) refl (λ e failure.
        elim (Bool-cases (is_retryable e.reason)) [
          | inr hopeless ↦
              rw hopeless (one_attempt n limit (gave_up e) (omega arith) (failure, inl hopeless))
          | inl again ↦ elim (Bool-cases (c.delay_aborted n)) [
            | inl aborted ↦
                rw (again, aborted)
                  (one_attempt n limit _ (omega arith) (no_answer _ n failure (λ a g. cc)))
            | inr waited ↦
                rw (again, waited)
                  (one_more n limit _ _ (e, failure, again, waited)
                    (retry_loop-AreAttempts_to left (n + 1) limit (omega arith)))
          ]
        ])

  -- With so many retries, a call makes one attempt at least, and one more than that at most. Each
  -- attempt but the last failed in a way that can be retried, and the delay after it was not aborted;
  -- what comes back is the answer of the last one, and what is given up on is its failure, which
  -- cannot be retried or has used up the retries. The last attempt of a call that is stopped is no
  -- answer.
  pub retry_loop-AreAttempts :
      (retries : ℕ)
      → AreAttempts 1 (1 + retries) ((retry_loop retries 1 c).0) ((retry_loop retries 1 c).1)
  retry_loop-AreAttempts retries = retry_loop-AreAttempts_to retries 1 (1 + retries) refl
