-- ===== src/CircuitBreaker/Filter.antt =====
-- What the error filter of src/utils/circuit-breaker.ts lets through, case by case.
use b2_mcp.Base.{
  Bool, Bool-cases, Option, arith, inl, inr, is_some, none, refl, some, subst, true, true_of_and, ℕ,
  ◌<◌, ◌↔◌, ◌≡◌, ◌≢◌, ◌≤◌, ◌⊎◌,
}
use b2_mcp.Value.{Store, Value, as_num, is_object, num}
use b2_mcp.CauseChain.{error_cause, find_in_cause_chain, matching}
use b2_mcp.CauseChain.Search.{FirstMatch, find_in_cause_chain_iff}
use b2_mcp.CauseChain.Interruption.{is_abort_error}
use b2_mcp.CircuitBreaker.{
  breaker_status, by_unknown_node, client_status, has_unknown_status, is_abort_like_error,
  is_caller_abort_ambiguity, is_client_error, is_provider_interruption, known_client_error,
  operation_status_unknown_node,
}

-- Some value along the causes of `v` passes the test, and it is the first.
abbrev pub Along : Store → (Value → Bool) → Value → Type 0
Along h test v = (w : Value) × (n : ℕ) × FirstMatch h (matching test) w n v

pub Along-iff :
    (h : Store) (test : Value → Bool) (v : Value)
    → (is_some (find_in_cause_chain h (matching test) v) ≡ true) ↔ Along h test v
Along-iff h test v = (
  λ e. found (find_in_cause_chain h (matching test) v) refl e,
  λ (w, n, f). rw ((find_in_cause_chain_iff h (matching test) v w).1 (n, f)),
)
  where
    found :
        (o : Option Value)
        → find_in_cause_chain h (matching test) v ≡ o
        → is_some o ≡ true
        → Along h test v
    found none e k = cc
    found (some w) e k =
        let (n, f) = (find_in_cause_chain_iff h (matching test) v w).0 e in (w, n, f)

not_Along :
    (h : Store) (test : Value → Bool) (v : Value)
    → find_in_cause_chain h (matching test) v ≡ none
    → ¬ Along h test v
not_Along h test v e (w, n, f) = cc ((find_in_cause_chain_iff h (matching test) v w).1 (n, f))

-- A caller's abort stands behind the ambiguity, and no timeout or lost response does.
abbrev pub IsCallerAbort : Store → Value → Type 0
IsCallerAbort h node =
    Along h (is_abort_error h) (error_cause h node)
    × ¬ Along h (is_provider_interruption h) (error_cause h node)

IsCallerAbort-iff :
    (h : Store) (node : Value) → (is_caller_abort_ambiguity h node ≡ true) ↔ IsCallerAbort h node
unfolding is_caller_abort_ambiguity
IsCallerAbort-iff h node =
    let cause = error_cause h node in
    let (provider_to, provider_from) = Along-iff h (is_provider_interruption h) cause in
    let (abort_to, abort_from) = Along-iff h (is_abort_error h) cause in
    (
      λ e. (abort_to (ground arith), λ p. ground (arith, provider_from p)),
      λ (a, np).
          elim (Bool-cases
            (is_some (find_in_cause_chain h (matching (is_provider_interruption h)) cause))) [
              | inl yes_provider ↦ absurd (np (provider_to yes_provider))
              | inr no_provider ↦ rw no_provider (abort_from a)
            ],
    )

abbrev pub IsClientStatus : ℕ → Type 0
IsClientStatus s = (400 ≤ s) × (s < 500) × (s ≢ 408) × (s ≢ 429)

abbrev pub IsPlainClientError : Store → Value → Type 0
IsPlainClientError h err =
    (is_abort_like_error h err ≡ true)
    ⊎ ((is_object err ≡ true) × (s : ℕ) × (breaker_status h err ≡ num s) × IsClientStatus s)

-- The errors that do not count against a breaker.
abbrev pub IsFiltered : Store → Value → Type 0
IsFiltered h err =
    ((node : Value) × (n : ℕ) × FirstMatch h (matching (has_unknown_status h)) node n err
      × IsCallerAbort h node)
    ⊎ ((¬ Along h (has_unknown_status h) err) × IsPlainClientError h err)

client_status_iff :
    (v : Value) → (client_status (as_num v) ≡ true) ↔ ((s : ℕ) × (v ≡ num s) × IsClientStatus s)
client_status_iff (num n) = (λ e. (n, refl, ground arith), λ (s, e, c). ground arith)
client_status_iff _ = (λ e. cc, λ (s, e, c). cc)

plain_iff : (h : Store) (err : Value) → (known_client_error h err ≡ true) ↔ IsPlainClientError h err
plain_iff h err = elim (Bool-cases (is_abort_like_error h err)) [
  | inl abort ↦ rw abort (λ _. inl refl, λ _. refl)
  | inr other ↦ rw other (
    λ e.
        let (o, k) = true_of_and (is_object err) _ e in
        let (s, same, c) = (client_status_iff (breaker_status h err)).0 k in inr (o, s, same, c),
    λ d. elim d [
      | inl abort ↦ cc
      | inr (o, s, same, c) ↦ rw o ((client_status_iff (breaker_status h err)).1 (s, same, c))
    ],
  )
]

-- An error is left out of a breaker's failures exactly when its causes hold a first value with the
-- code `operation_status_unknown`, behind which a caller's abort stands and no timeout or lost
-- response; or when they hold no such value, and the error is an abort, or an object with a status
-- from 400 to 499 other than 408 and 429.
pub is_client_error_iff :
    (h : Store) (err : Value) → (is_client_error h err ≡ true) ↔ IsFiltered h err
unfolding is_client_error operation_status_unknown_node
is_client_error_iff h err =
    by_node (find_in_cause_chain h (matching (has_unknown_status h)) err) refl
  where
    by_node :
        (o : Option Value)
        → find_in_cause_chain h (matching (has_unknown_status h)) err ≡ o
        → (by_unknown_node h err o ≡ true) ↔ IsFiltered h err
    by_node none e = (
      λ k. inr (not_Along h (has_unknown_status h) err e, (plain_iff h err).0 k),
      λ d. elim d [
        | inl (node, n, f, c) ↦ absurd (not_Along h (has_unknown_status h) err e (node, n, f))
        | inr (_, plain) ↦ (plain_iff h err).1 plain
      ],
    )
    by_node (some w) e =
        let (n, first) = (find_in_cause_chain_iff h (matching (has_unknown_status h)) err w).0 e in
        (
          λ k. inl (w, n, first, (IsCallerAbort-iff h w).0 k),
          λ d. elim d [
            | inl (node, m, f, c) ↦
                let other =
                  (find_in_cause_chain_iff h (matching (has_unknown_status h)) err node).1 (m, f) in
                let same : node ≡ w = cc in
                (IsCallerAbort-iff h w).1 (subst (IsCallerAbort h) same c)
            | inr (never, plain) ↦ absurd (never (w, n, first))
          ],
        )
