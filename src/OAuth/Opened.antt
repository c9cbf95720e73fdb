-- ===== src/OAuth/Opened.antt =====
-- When the circuit of src/oauth-resource-server.ts keeps a call away, told from a log of what came of the
-- calls before it.
use b2_mcp.Base.{
  List, Option, [], arith, if◌then◌else◌, leb, none, refl, some, ℕ, ◌+◌, ◌∷◌, ◌≡◌, ◌≤◌,
}
use b2_mcp.OAuth.Circuit.{
  DependencyCall, Ended, OAuthDependencyCircuitState, OAuthDependencyPolicy, after_failure,
  by_circuit, came_back, ended_of, gave_up, retry_after_seconds, run_oauth_dependency_with_retry,
  settle, stopped,
}

-- What a call told of the dependency.
pub data Entry : Type 0 where
  worked : Entry
  failed_at : ℕ → Entry
  told_nothing : Entry

-- The failures since the dependency last worked; the newest entry is first.
abbrev pub streak : List Entry → ℕ
streak [] = 0
streak (worked ∷ log) = 0
streak (failed_at t ∷ log) = streak log + 1
streak (told_nothing ∷ log) = streak log

abbrev pub last_failure : List Entry → ℕ
last_failure [] = 0
last_failure (worked ∷ log) = 0
last_failure (failed_at t ∷ log) = t
last_failure (told_nothing ∷ log) = last_failure log

module _ (policy : OAuthDependencyPolicy) where
  abbrev pub opened_until : List Entry → ℕ
  opened_until log =
      if leb policy.circuit_failures (streak log)
      then last_failure log + policy.circuit_open_ms
      else 0

  -- What the log says of the circuit.
  abbrev pub IsTold : List Entry → Option OAuthDependencyCircuitState → Type 0
  IsTold log none = streak log ≡ 0
  IsTold log (some st) =
      (1 ≤ streak log) × (st.failures ≡ streak log) × (st.opened_until_ms ≡ opened_until log)

  after_failure-IsTold :
      (now_ms : ℕ) (o : Option OAuthDependencyCircuitState) (log : List Entry)
      → IsTold log o
      → IsTold (failed_at now_ms ∷ log) (some (after_failure policy now_ms o))
  after_failure-IsTold now_ms none log h = ground (arith, h)
  after_failure-IsTold now_ms (some st) log (some_failures, counted, opened) =
      ground (arith, some_failures, counted, opened)

  module _ {ℓ} {A : Type ℓ} where
    abbrev pub entry_of : ℕ → Option (Ended A × ℕ) → Entry
    entry_of now_ms none = told_nothing
    entry_of now_ms (some (came_back a, n)) = worked
    entry_of now_ms (some (gave_up e, n)) = failed_at now_ms
    entry_of now_ms (some (stopped outcome, n)) = told_nothing

    abbrev pub attempt_of :
        Option OAuthDependencyCircuitState → DependencyCall A → Option (Ended A × ℕ)
    attempt_of o c = ended_of policy (retry_after_seconds o c.started_ms) c

    -- The circuit and the log after calls, the newest of which is first.
    abbrev pub after : List (DependencyCall A) → Option OAuthDependencyCircuitState × List Entry
    after [] = (none, [])
    after (c ∷ calls) =
        let before = after calls in
        (
          (run_oauth_dependency_with_retry policy before.0 c).1,
          entry_of c.finished_ms (attempt_of before.0 c) ∷ before.1,
        )

    settle-IsTold :
        (now_ms n : ℕ) (o : Option OAuthDependencyCircuitState) (log : List Entry) (ended : Ended A)
        → IsTold log o
        → IsTold (entry_of now_ms (some (ended, n)) ∷ log) ((settle policy o now_ms ended).1)
    settle-IsTold now_ms n o log (came_back a) h = refl
    settle-IsTold now_ms n o log (gave_up e) h = after_failure-IsTold now_ms o log h
    settle-IsTold now_ms n none log (stopped outcome) h = h
    settle-IsTold now_ms n (some st) log (stopped outcome) h = h

    by_circuit-IsTold :
        (o : Option OAuthDependencyCircuitState) (log : List Entry) (c : DependencyCall A)
        (seconds : Option ℕ)
        → IsTold log o
        → IsTold
            (entry_of c.finished_ms (ended_of policy seconds c) ∷ log)
            ((by_circuit policy o c seconds).1)
    by_circuit-IsTold none log c (some seconds) h = h
    by_circuit-IsTold (some st) log c (some seconds) h = h
    by_circuit-IsTold o log c none h = settle-IsTold c.finished_ms _ o log _ h

    pub after-IsTold :
        (calls : List (DependencyCall A)) → IsTold ((after calls).1) ((after calls).0)
    unfolding run_oauth_dependency_with_retry
    after-IsTold [] = refl
    after-IsTold (c ∷ calls) =
        by_circuit-IsTold ((after calls).0) ((after calls).1) c
          (retry_after_seconds ((after calls).0) c.started_ms) (after-IsTold calls)
