-- ===== src/Errors/Coded.antt =====
-- How parseB2Error of src/utils/errors.ts reports an error without a status of its own: by its
-- causes.
use b2_mcp.Base.{
  Bool, Bool-cases, Option-cases, String, [], ap, false, first_some, get_or, inl, inr, is_some,
  none, some, sym, true, ℕ, ◌↔◌, ◌∙◌, ◌∷◌, ◌≡◌, ◌⊎◌,
}
use b2_mcp.Value.{Store, Value, as_str, is_object, num, prop}
use b2_mcp.CauseChain.{find_in_cause_chain, matching}
use b2_mcp.CauseChain.Search.{FirstMatch, find_in_cause_chain_iff}
use b2_mcp.Errors.{
  B2ApiError, already_parsed, coded_error_from_value, definitive_aws, definitive_legacy,
  incomplete_aws, incomplete_legacy, interruption, message_or_fallback, object_at, object_error,
  parse_b2_error, simple, with_message,
}
use b2_mcp.CauseChain.Interruption.{is_abort_error, is_timeout_error}
use b2_mcp.CircuitBreaker.Filter.{Along, Along-iff}

module _ (render : Store → Value → String) (to_text : Value → String) (h : Store) where
  -- Neither the error itself nor its provider metadata or response carries a number as its status.
  abbrev pub HasNoOwnStatus : Value → Type 0
  HasNoOwnStatus e =
      (coded_error_from_value render to_text h e ≡ none)
      × (definitive_aws render to_text h e (object_at render to_text h e "$metadata") ≡ none)
      × (definitive_legacy render to_text h (object_at render to_text h e "response") ≡ none)

  abbrev pub IsCodedAs : Value → B2ApiError → Type 0
  IsCodedAs e r = (n : ℕ) × FirstMatch h (coded_error_from_value render to_text h) r n e

  abbrev pub IsUncoded : Value → Type 0
  IsUncoded e = find_in_cause_chain h (coded_error_from_value render to_text h) e ≡ none

  from_causes :
      (e : Value)
      → is_object e ≡ true
      → HasNoOwnStatus e
      → parse_b2_error render to_text h e
        ≡ get_or
            (first_some (
              find_in_cause_chain h (coded_error_from_value render to_text h) e
              ∷ interruption render to_text h e
              ∷ incomplete_aws render to_text h e (object_at render to_text h e "$metadata")
              ∷ incomplete_legacy render to_text h (object_at render to_text h e "response")
              ∷ already_parsed render to_text h e
                  (as_str (prop h e "code"))
                  (as_str (prop h e "message"))
              ∷ with_message render to_text h e
              ∷ []))
            (simple (num 500) "internal_error" (to_text e))
  unfolding parse_b2_error object_error
  from_causes e o (own, aws, legacy) = rw o (rw own (rw aws (rw legacy)))

  abbrev pub has_timeout : Value → Bool
  has_timeout e = is_some (find_in_cause_chain h (matching (is_timeout_error h)) e)

  abbrev pub has_abort : Value → Bool
  has_abort e = is_some (find_in_cause_chain h (matching (is_abort_error h)) e)

  interrupted :
      (e : Value) (r : B2ApiError)
      → is_object e ≡ true
      → HasNoOwnStatus e
      → IsUncoded e
      → interruption render to_text h e ≡ some r
      → parse_b2_error render to_text h e ≡ r
  interrupted e r o own plain i = from_causes e o own ∙ rw plain (rw i)

  -- What the causes of `e` hold, and what is then reported.
  abbrev pub ReportsCauses : Value → B2ApiError → Type 0
  ReportsCauses e report =
      IsCodedAs e report
      ⊎ (IsUncoded e
          × Along h (is_timeout_error h) e
          × (report
              ≡ simple (num 504) "request_timeout" (
                  message_or_fallback render to_text h (prop h e "message")
                    "The request timed out")))
      ⊎ (IsUncoded e
          × (¬ Along h (is_timeout_error h) e)
          × Along h (is_abort_error h) e
          × (report
              ≡ simple (num 499) "request_aborted" (
                  message_or_fallback render to_text h (prop h e "message")
                    "The request was aborted")))
      ⊎ (IsUncoded e × (¬ Along h (is_timeout_error h) e) × (¬ Along h (is_abort_error h) e))

  refuted : {P : Type 0} (b : Bool) → (b ≡ true) ↔ P → b ≡ false → ¬ P
  refuted b i e p = cc (i.1 p)

  uncoded_report :
      (e : Value)
      → is_object e ≡ true
      → HasNoOwnStatus e
      → IsUncoded e
      → ReportsCauses e (parse_b2_error render to_text h e)
  unfolding interruption
  uncoded_report e o own plain = elim (Bool-cases (has_timeout e)) [
    | inl timeout ↦ inr (
        inl (
          plain,
          (Along-iff h (is_timeout_error h) e).0 timeout,
          interrupted e _ o own plain (rw timeout),
        ))
    | inr calm ↦
        let no_timeout = refuted (has_timeout e) (Along-iff h (is_timeout_error h) e) calm in
        elim (Bool-cases (has_abort e)) [
          | inl abort ↦ inr (
              inr (
                inl (
                  plain,
                  no_timeout,
                  (Along-iff h (is_abort_error h) e).0 abort,
                  interrupted e _ o own plain (rw calm (rw abort)),
                )))
          | inr quiet ↦ inr (
              inr (
                inr (
                  plain,
                  no_timeout,
                  refuted (has_abort e) (Along-iff h (is_abort_error h) e) quiet,
                )))
        ]
  ]

  -- An object that carries no status of its own is reported by its causes: as the first of them
  -- with a numeric status and a code, if there is one; otherwise as a timeout (504) if a
  -- TimeoutError stands among them; otherwise as an abort (499) if an AbortError does. A timeout
  -- wins over an abort wherever the two stand.
  pub parse_b2_error-ReportsCauses :
      (e : Value)
      → is_object e ≡ true
      → HasNoOwnStatus e
      → ReportsCauses e (parse_b2_error render to_text h e)
  parse_b2_error-ReportsCauses e o own =
      elim (Option-cases (find_in_cause_chain h (coded_error_from_value render to_text h) e)) [
        | inl plain ↦ uncoded_report e o own plain
        | inr (r, coded) ↦ inl (
            (find_in_cause_chain_iff h (coded_error_from_value render to_text h) e _).0
              (coded ∙ ap some (sym (from_causes e o own ∙ rw coded))))
      ]
