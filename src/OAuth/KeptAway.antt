-- ===== src/OAuth/KeptAway.antt =====
-- Which calls of runOAuthDependencyWithRetry of src/oauth-resource-server.ts the circuit keeps away.
use b2_mcp.Base.{
  Bool-cases, List, Option, ap, arith, false, inl, inr, leb, none, refl, some, subst, ℕ, ◌*◌, ◌+◌,
  ◌<◌, ◌≡◌, ◌≤◌, ◌⊎◌,
}
use b2_mcp.OAuth.Circuit.{
  DependencyCall, OAuthDependencyCircuitState, OAuthDependencyPolicy, by_circuit, open_circuit,
  retry_after_seconds, retry_loop, run_oauth_dependency_with_retry, seconds_until, settle,
  unavailable_now, unavailable_with,
}
use b2_mcp.OAuth.Opened.{Entry, IsTold, after, after-IsTold, last_failure, opened_until, streak}

-- Whole seconds from a time to another, rounded up.
abbrev pub IsWait : ℕ → ℕ → ℕ → Type 0
IsWait seconds now_ms until =
    (until ≤ now_ms + seconds * 1000) × (now_ms + seconds * 1000 < until + 1000)

seconds_until-IsWait :
    (until now_ms : ℕ) → now_ms < until → IsWait (seconds_until until now_ms) now_ms until
seconds_until-IsWait until now_ms h = (omega arith, omega arith)

module _ (policy : OAuthDependencyPolicy) where
  -- There are enough failures, and the last of them is less than the opening time ago.
  abbrev pub IsOpen : List Entry → ℕ → Type 0
  IsOpen log now_ms =
      (1 ≤ streak log)
      × (policy.circuit_failures ≤ streak log)
      × (now_ms < last_failure log + policy.circuit_open_ms)

  abbrev IsAnnounced : List Entry → ℕ → Option ℕ → Type 0
  IsAnnounced log now_ms none = ¬ (IsOpen log now_ms)
  IsAnnounced log now_ms (some seconds) =
      IsOpen log now_ms × IsWait seconds now_ms (last_failure log + policy.circuit_open_ms)

  opened_same :
      (log : List Entry) (until now_ms : ℕ)
      → until ≡ opened_until policy log
      → leb until now_ms ≡ false
      → (policy.circuit_failures ≤ streak log) × (until ≡ last_failure log + policy.circuit_open_ms)
  opened_same log until now_ms opened open_still = ground (arith, opened, open_still)

  until-IsAnnounced :
      (log : List Entry) (st : OAuthDependencyCircuitState) (now_ms : ℕ)
      → IsTold policy log (some st)
      → IsAnnounced log now_ms (retry_after_seconds (some st) now_ms)
  until-IsAnnounced log st now_ms (enough, counted, opened) =
      elim (Bool-cases (leb st.opened_until_ms now_ms)) [
        | inl over ↦ rw over (ground (arith, over, enough, counted, opened))
        | inr open_still ↦
            let (full, same) = opened_same log st.opened_until_ms now_ms opened open_still in
            let wait =
              seconds_until-IsWait st.opened_until_ms now_ms (ground (arith, open_still)) in
            rw open_still (
              (enough, full, ground (arith, open_still, same)),
              subst (IsWait (seconds_until st.opened_until_ms now_ms) now_ms) same wait,
            )
      ]

  retry_after-IsAnnounced :
      (log : List Entry) (o : Option OAuthDependencyCircuitState) (now_ms : ℕ)
      → IsTold policy log o
      → IsAnnounced log now_ms (retry_after_seconds o now_ms)
  retry_after-IsAnnounced log none now_ms h = ground (arith, h)
  retry_after-IsAnnounced log (some st) now_ms h = until-IsAnnounced log st now_ms h

  module _ {ℓ} {A : Type ℓ} where
    -- A call that is kept away, or that asks the dependency.
    abbrev pub IsDecided :
        List Entry → Option OAuthDependencyCircuitState → DependencyCall A → Type ℓ
    IsDecided log o c =
        (IsOpen log c.started_ms
          × ((seconds : ℕ) × IsWait seconds c.started_ms (last_failure log + policy.circuit_open_ms)
              × (run_oauth_dependency_with_retry policy o c
                  ≡ (unavailable_with (unavailable_now open_circuit none (some seconds)), o))))
        ⊎ ((¬ (IsOpen log c.started_ms))
            × (run_oauth_dependency_with_retry policy o c
                ≡ settle policy o c.finished_ms ((retry_loop policy.max_retries 1 c).0)))

    by_circuit-IsDecided :
        (log : List Entry) (o : Option OAuthDependencyCircuitState) (c : DependencyCall A)
        (seconds : Option ℕ)
        → retry_after_seconds o c.started_ms ≡ seconds
        → IsAnnounced log c.started_ms seconds
        → IsDecided log o c
    unfolding run_oauth_dependency_with_retry
    by_circuit-IsDecided log o c none e h = inr (h, ap (by_circuit policy o c) e)
    by_circuit-IsDecided log o c (some seconds) e (opened, wait) =
        inl (opened, (seconds, wait, ap (by_circuit policy o c) e))

    -- After any calls, one is kept away exactly if the dependency has failed at least as often as the
    -- policy says since it last worked, and once at least, and the last failure is less than the
    -- opening time ago: its error says in how many whole seconds, rounded up, that time is over, and
    -- the circuit stays as it is. Any other call asks the dependency, and settles as its attempts end.
    pub after-IsDecided :
        (calls : List (DependencyCall A)) (c : DependencyCall A)
        → IsDecided ((after policy calls).1) ((after policy calls).0) c
    after-IsDecided calls c =
        by_circuit-IsDecided ((after policy calls).1) ((after policy calls).0) c
          (retry_after_seconds ((after policy calls).0) c.started_ms) refl
          (retry_after-IsAnnounced ((after policy calls).1) ((after policy calls).0) c.started_ms
            (after-IsTold policy calls))
